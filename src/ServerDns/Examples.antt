-- ===== src/ServerDns/Examples.antt =====
-- The name server of dns.c at small tables.
use so_distribuidos.Prelude.{
  some, [], ◌∷◌, refl, Bytes, pos, codes, find, str_eq, strip_prefix, scan_word, span_word,
  skip_spaces, scan_int, scan_signed, scan_nat, scan_digits, c_str, print_nat,
}
use so_distribuidos.ServerDns.Service.{
  Tablas, servidor_nuevo, primer_servidor, marcar_disponible, registrar_servidor,
  registrar_archivo_directorio, leer_solicitud, archivo, atender, manejar_cliente, cabe,
  con_solicitud,
}
use so_distribuidos.ServerDns.Tables.{EstaEn, archivo_en_servidor}

abbrev casa : Bytes
casa = codes "10.0.0.1"

abbrev s : Tablas
s = record { servidores = servidor_nuevo casa (pos 9001) 0 ∷ []; archivos = [] }

machine : Unit {0}
unfolding find str_eq strip_prefix scan_word span_word skip_spaces scan_int scan_signed scan_nat
    scan_digits c_str print_nat primer_servidor marcar_disponible registrar_servidor
    registrar_archivo_directorio leer_solicitud atender manejar_cliente cabe con_solicitud
machine = tt

archivo_en_servidor_example :
    EstaEn (codes "fotos") casa 1 (atender (some casa) (archivo (codes "fotos") 1) s).0
unfolding machine
archivo_en_servidor_example = archivo_en_servidor casa (codes "fotos") 1 s refl
