-- ===== src/ElementServer/Examples.antt =====
-- The file server of servidor_archivos_nuevo.c with one file in its directory.
use so_distribuidos.Prelude.{
  ◌⊎◌, true, none, some, [], ◌∷◌, ◌≡◌, refl, arith, Bytes, codes, pos, str_eq, if◌then◌else◌, find,
  strip_prefix, starts_with, scan_word, span_word, skip_spaces, scan_int, scan_signed, scan_nat,
  scan_digits, c_str, print_int, print_nat,
}
use so_distribuidos.Transfer.Files.{file, FileSystem}
use so_distribuidos.ElementDns.Service.{
  tipo_archivo, Tabla, entrada_nueva, Locales, ip_local, leer_solicitud, registrar_elemento,
  atender, manejar_cliente, cabe, con_solicitud,
}
use so_distribuidos.ElementDns.Messages.{pedir_registro}
use so_distribuidos.ElementServer.Daemon.{
  esta_registrado, manejar_cliente_daemon, Marco, atender_comando, leer_comando,
}
use so_distribuidos.Transfer.Loops.{recv}
use so_distribuidos.ElementServer.Commands.{
  subir_archivo, Servidor, registrar_elemento_dns, ejecutar, leer_orden,
}
use so_distribuidos.ElementServer.Commands.Registered.{dns_de, Coherente, ejecutar-Coherente}
use so_distribuidos.ElementServer.Frame.{manejar_cliente_daemon-frame}

abbrev notas : Bytes
notas = codes "notas"

abbrev fs : FileSystem
fs q = if str_eq notas q then some (file (codes "uno")) else none

abbrev l : Locales
l = record {
  nombre = [];
  temp_ip = [];
  puerto = pos 0;
  tipo_str = [];
  comando = [];
  desborde = atender;
}

abbrev vacio : Servidor Tabla
vacio = record { registro = []; demonio = some []; nombres_dns = [] }

abbrev lleno : Servidor Tabla
lleno = record {
  registro = (notas, tipo_archivo) ∷ [];
  demonio = some [];
  nombres_dns = entrada_nueva notas ip_local (pos 9001) tipo_archivo ∷ [];
}

machine : Unit {0}
unfolding find str_eq strip_prefix starts_with scan_word span_word skip_spaces scan_int scan_signed
    scan_nat scan_digits c_str leer_solicitud registrar_elemento atender manejar_cliente
    pedir_registro registrar_elemento_dns ejecutar leer_orden cabe con_solicitud print_int print_nat
machine = tt

vacio-Coherente : Coherente (pos 9001) vacio
vacio-Coherente = record { registrados = tt; servidos = tt }

ejecutar-lleno :
    ejecutar (dns_de l) ip_local (pos 9001) fs [] true (subir_archivo notas) vacio ≡ some lleno
unfolding machine
ejecutar-lleno = refl

ejecutar-Coherente_example :
    (s' : Servidor Tabla) × (ejecutar
        (dns_de l)
        ip_local
        (pos 9001)
        fs
        []
        true
        (subir_archivo notas)
        vacio
      ≡ some s')
    × Coherente (pos 9001) s'
unfolding print_int print_nat
ejecutar-Coherente_example =
    ejecutar-Coherente l ip_local (pos 9001) (ground arith) fs [] true (subir_archivo notas) vacio
      (ground arith, omega arith, omega arith, omega arith) (omega arith) vacio-Coherente

leer_orden-subir_archivo : leer_orden (codes "subir_archivo notas") ≡ subir_archivo notas
unfolding machine
leer_orden-subir_archivo = refl

-- A build that has room behind comando.
abbrev marco : Marco
marco = record { comando = []; desborde = atender_comando (λ p. true) (notas ∷ []) }

abbrev pedido : Bytes
pedido = codes "ACTUALIZAR_ARCHIVO fotos"

manejar_cliente_daemon-frame_example :
    ((manejar_cliente_daemon (λ p. true) marco (notas ∷ []) (pedido ∷ codes "dos" ∷ []) fs).archivos
        notas
      ≡ fs notas)
    ⊎ ((esta_registrado notas (notas ∷ []) ≡ true) × (c : Bytes) × (fs notas ≡ some (file c)))
unfolding machine recv leer_comando
manejar_cliente_daemon-frame_example =
    manejar_cliente_daemon-frame (λ p. true) marco (notas ∷ []) (pedido ∷ codes "dos" ∷ []) fs notas
      (λ m s g h k. refl) (omega arith) (omega arith)
