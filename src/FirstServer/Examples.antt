-- ===== src/FirstServer/Examples.antt =====
-- Runs of file_server.c with an empty name server.
use so_distribuidos.Prelude.{
  ℕ, ◌++◌, some, [], ◌∷◌, ◌≡◌, refl, arith, Bytes, List, codes, pos, negsuc, find, str_eq,
  strip_prefix, if◌then◌else◌, scan_word, span_word, skip_spaces, scan_int, scan_signed, scan_nat,
  scan_digits, c_str, print_nat, print_int, starts_with, none,
}
use so_distribuidos.Transfer.Files.{file, FileSystem}
use so_distribuidos.ServerDns.Service.{
  Tablas, primer_servidor, marcar_disponible, registrar_servidor, registrar_archivo_directorio,
  leer_solicitud, atender, manejar_cliente, cabe, con_solicitud, Desborde,
}
use so_distribuidos.ServerDns.Tables.{EstaEn}
use so_distribuidos.ElementDns.Messages.{IsWord}
use so_distribuidos.ElementServer.Commands.{habilitar, subir_archivo, leer_orden}
use so_distribuidos.FirstServer.Commands.{
  Servidor, pedir_servidor, pedir_archivo, leer_indice, registrar_servidor_dns,
  registrar_archivo_dns, registrar_todos_los_archivos, ejecutar, ejecutar_todas,
}
use so_distribuidos.FirstServer.Registered.{dns_de}
use so_distribuidos.FirstServer.Session.{Figura, alta}

abbrev casa : Bytes
casa = codes "10.0.0.1"

-- A build where an overrun damages nothing.
abbrev atender_casa : Desborde
atender_casa = atender (some casa)

abbrev notas : Bytes
notas = codes "notas"

abbrev carpeta : FileSystem
carpeta q = if str_eq notas q then some (file (codes "uno")) else none

abbrev s : Servidor Tablas
s = record {
  registrados = [];
  indice = negsuc 0;
  nombres_dns = record { servidores = []; archivos = [] };
}

machine : Unit {0}
unfolding find str_eq strip_prefix scan_word span_word skip_spaces scan_int scan_signed scan_nat
    scan_digits c_str print_nat print_int starts_with primer_servidor marcar_disponible
    registrar_servidor registrar_archivo_directorio leer_solicitud atender manejar_cliente cabe
    con_solicitud leer_orden pedir_servidor pedir_archivo leer_indice registrar_servidor_dns
    registrar_archivo_dns registrar_todos_los_archivos ejecutar ejecutar_todas
machine = tt

casa-IsWord : IsWord casa
casa-IsWord = ground arith

notas-IsWord : IsWord notas
notas-IsWord = ground arith

alta_example :
    (i : ℕ) × (s1 : Servidor Tablas) × (s2 : Servidor Tablas) × (ejecutar
        (dns_de atender_casa casa)
        casa
        (pos 9001)
        carpeta
        []
        habilitar
        s
      ≡ some s1)
    × (s1.indice ≡ pos i)
    × Figura casa (pos 9001) i s1.nombres_dns.servidores
    × (ejecutar (dns_de atender_casa casa) casa (pos 9001) carpeta [] (subir_archivo notas) s1
        ≡ some s2)
    × (s2.registrados ≡ s.registrados ++ notas ∷ [])
    × EstaEn notas casa 0 s2.nombres_dns
unfolding machine
alta_example =
    alta atender_casa casa notas (pos 9001) carpeta [] s (casa-IsWord, omega arith, omega arith)
      (omega arith) (notas-IsWord, omega arith) refl refl (omega arith) (omega arith)

abbrev lineas : List (Bytes × FileSystem × List Bytes)
lineas =
    (codes "habilitar", carpeta, [])
    ∷ (codes "actualizar_todo", carpeta, notas ∷ [])
    ∷ (codes "salir", carpeta, [])
    ∷ []

abbrev despues : Servidor Tablas
despues = record {
  registrados = notas ∷ [];
  indice = pos 0;
  nombres_dns = record {
    servidores = record { ip = casa; puerto = pos 9001; disponible = 1; indice = 0 } ∷ [];
    archivos = record { nombre = notas; lock = 0; indice_servidor = 0; es_directorio = 0 } ∷ [];
  };
}
