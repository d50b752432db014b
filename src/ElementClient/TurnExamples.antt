-- ===== src/ElementClient/TurnExamples.antt =====
-- Two clients of cliente_nuevo.c at one file.
use so_distribuidos.Prelude.{
  ℕ, ◌+◌, ◌≡◌, ◌≢◌, true, Option, none, some, List, [], ◌∷◌, ◌++◌, refl, arith, Bytes, codes, pos,
  ℤ, str_eq, if◌then◌else◌, find, print_int, print_nat, strip_prefix, c_str, scan_word, scan_int,
  modify, starts_with,
}
use so_distribuidos.Transfer.Loops.{Connection, concat}
use so_distribuidos.Transfer.Files.{Node, file, FileSystem, ruta, put, put_self}
use so_distribuidos.ElementDns.Service.{
  tipo_archivo, entrada_nueva, Locales, ip_local, solicitar, registrar, manejar_cliente, atender,
  cabe, con_solicitud, respuesta_ok,
}
use so_distribuidos.ElementDns.Messages.{IsWord, pedir_elemento, pedir_desbloqueo}
use so_distribuidos.ElementServer.Daemon.{
  esta_registrado, manejar_cliente_daemon, Marco, atender_comando, con_palabras,
}
use so_distribuidos.ElementClient.Request.{Entorno, pedir_actualizar, pedir_obtener}
use so_distribuidos.ElementClient.System.{Sistema, Intacto, dns_de, conectar_de}
use so_distribuidos.ElementClient.Downloads.{path_de}
use so_distribuidos.ElementClient.Stretches.{libre}
use so_distribuidos.ElementClient.Interleaving.{
  Red, Suceso, turno, peticion, contenido, suceder, corre, devueltas,
}
use so_distribuidos.ElementClient.NoLostUpdate.{no_perdidas}

machine : Unit {0}
unfolding find str_eq esta_registrado ruta concat print_int print_nat
machine = tt

abbrev notas : Bytes
notas = codes "notas"

abbrev servidas : FileSystem
servidas q = if str_eq notas q then some (file (codes "uno")) else none

abbrev l : Locales
l = record {
  nombre = [];
  temp_ip = [];
  puerto = pos 0;
  tipo_str = [];
  comando = [];
  desborde = atender;
}

-- A build that has room behind comando.
abbrev marco : Marco
marco = record { comando = []; desborde = atender_comando (λ p. true) (notas ∷ []) }

intacto : Intacto l (λ p. true) marco (notas ∷ [])
intacto = record { escribir = λ n t h. refl; ordenes = λ m s g h k. refl }

-- Client i adds its number to a file.
abbrev anota : ℕ → Bytes → Bytes
anota i b = b ++ ((48 + i) ∷ [])

abbrev anotado : ℕ → Option Node → FileSystem → FileSystem
anotado i (some (file b)) fs = put (path_de notas) (file (anota i b)) fs
anotado i _ fs = fs

abbrev entorno : ℕ → Entorno
entorno i = record {
  can_open = λ p. true;
  can_mkdir = λ p. true;
  ubicacion = record { ip_servidor = []; puerto_servidor = pos 0; tipo_str = [] };
  held = ([], pos 0);
  editar = λ fs. anotado i (fs (path_de notas)) fs;
}

abbrev dns : Bytes → Sistema → Option Bytes × Sistema
dns = dns_de l

abbrev conectar : Bytes → ℤ → List Bytes → Sistema → Option Connection × Sistema
conectar = conectar_de l (pos 9001) (λ p. true) marco (notas ∷ []) (λ s. s)

abbrev red : Red
red = record {
  remoto = record {
    tabla = entrada_nueva notas ip_local (pos 9001) tipo_archivo ∷ [];
    archivos = servidas;
  };
  clientes = λ i. record { archivos = λ q. none; fase = libre };
}

-- Client 1 asks while client 0 has the element, and again later.
abbrev sucesos : List Suceso
sucesos =
    turno 0
    ∷ turno 1
    ∷ peticion (registrar (codes "otro") [] (pos 9001) (codes "ARCHIVO"))
    ∷ turno 0
    ∷ peticion (solicitar notas (codes "LEER"))
    ∷ turno 0
    ∷ turno 1
    ∷ turno 1
    ∷ turno 1
    ∷ []

notas-IsWord : IsWord notas
notas-IsWord = ground arith

no_perdidas_example :
    let x' = corre dns conectar entorno notas sucesos red in
    (x'.remoto.archivos notas
      ≡ some
          (file (contenido anota (devueltas dns conectar entorno notas sucesos red) (codes "uno"))))
    × ((i j : ℕ) → (x'.clientes i).fase ≢ libre → (x'.clientes j).fase ≢ libre → i ≡ j)
unfolding machine
no_perdidas_example =
    no_perdidas l (pos 9001) (λ p. true) marco (notas ∷ []) (λ s. s) (λ s. refl)
      (λ b s h k. (s, refl, refl)) intacto notas entorno anota (codes "uno") red sucesos
      notas-IsWord (omega arith) (omega arith) refl refl (λ i. refl)
      (λ i b fs h. rw h (put_self (path_de notas) (file (anota i b)) fs)) refl refl (λ i. refl)
      (λ i. refl)
      (
        tt,
        (
          tt,
          (
            (λ e. absurd (ground (arith, e))),
            (tt, ((λ e. ground (arith, e)), (tt, (tt, (tt, (tt, tt)))))),
          ),
        ),
      )

servidores : Unit {0}
unfolding machine suceder strip_prefix c_str manejar_cliente cabe con_solicitud con_palabras
    pedir_elemento scan_word respuesta_ok scan_int conectar_de modify starts_with
    manejar_cliente_daemon pedir_actualizar pedir_obtener pedir_desbloqueo
servidores = tt

-- Client 0 returns the file before client 1 does.
devueltas_test : devueltas dns conectar entorno notas sucesos red ≡ 0 ∷ 1 ∷ []
unfolding servidores
devueltas_test = refl
