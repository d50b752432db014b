-- ===== src/ElementServer/Daemon.antt =====
-- servidor_archivos_nuevo.c: the handler of one connection of the daemon. `can_open` says for which
-- paths fopen succeeds.
use so_distribuidos.Prelude.{
  ℕ, Bool, true, false, ◌&&◌, ◌||◌, not, Option, none, some, List, [], ◌∷◌, ◌++◌, Bytes, codes,
  str_eq, c_str, if◌then◌else◌, length, take, scan_word, print_nat, ltb, ◌≤◌, ◌≡◌, refl, Bool-cases,
  inl, inr,
}
use so_distribuidos.ElementDns.Messages.{pedir_desbloqueo}
use so_distribuidos.Transfer.Loops.{Connection, recv, send_file, receive_file}
use so_distribuidos.Transfer.Files.{Node, file, folder, FileSystem, ruta, write_file}

-- The names in elementos_registrados.
unfoldable pub esta_registrado : Bytes → List Bytes → Bool
esta_registrado nombre [] = false
esta_registrado nombre (r ∷ rs) = str_eq r nombre || esta_registrado nombre rs

-- fopen of a path that is a regular file, and the loop that sends it.
abbrev enviar_nodo : Bool → Option Node → List Bytes
enviar_nodo can_open (some (file c)) = if can_open then send_file c else []
enviar_nodo can_open _ = []

-- What is sent, one text for each call of send.
unfoldable pub enviar_archivo : (Bytes → Bool) → FileSystem → Bytes → List Bytes
enviar_archivo can_open fs nombre = enviar_nodo (can_open nombre) (fs nombre)

-- "ARCHIVO:%s:%ld\n" and "CARPETA:%s\n"
unfoldable pub cabecera_archivo : Bytes → ℕ → Bytes
cabecera_archivo nombre tam =
    take 1023 (codes "ARCHIVO:" ++ (nombre ++ (58 ∷ print_nat tam ++ codes "\n")))

unfoldable pub cabecera_carpeta : Bytes → Bytes
cabecera_carpeta nombre = take 1023 (codes "CARPETA:" ++ (nombre ++ codes "\n"))

abbrev pub enviar_entrada : Bool → Bytes → Option Node → List Bytes
enviar_entrada can_open nombre (some (file c)) =
    cabecera_archivo nombre (length c) ∷ (if can_open then send_file c else [])
enviar_entrada can_open nombre (some (folder e)) = cabecera_carpeta nombre ∷ []
enviar_entrada can_open nombre _ = []

abbrev pub es_punto : Bytes → Bool
es_punto nombre = str_eq nombre (codes ".") || str_eq nombre (codes "..")

unfoldable pub enviar_entradas : (Bytes → Bool) → FileSystem → Bytes → List Bytes → List Bytes
enviar_entradas can_open fs carpeta [] = codes "FIN_CARPETA\n" ∷ []
enviar_entradas can_open fs carpeta (n ∷ ns) =
    let rest = enviar_entradas can_open fs carpeta ns in
    if es_punto n
    then rest
    else enviar_entrada (can_open (ruta carpeta n)) n (fs (ruta carpeta n)) ++ rest

-- opendir succeeds on a folder.
abbrev pub enviar_carpeta_de : (Bytes → Bool) → FileSystem → Bytes → Option Node → List Bytes
enviar_carpeta_de can_open fs nombre (some (folder ns)) = enviar_entradas can_open fs nombre ns
enviar_carpeta_de can_open fs nombre _ = []

unfoldable pub enviar_carpeta : (Bytes → Bool) → FileSystem → Bytes → List Bytes
unfolding enviar_entradas
enviar_carpeta can_open fs nombre = enviar_carpeta_de can_open fs nombre (fs nombre)

-- fopen, the loop over recv with fwrite, and fclose.
unfoldable pub recibir_archivo : (Bytes → Bool) → Bytes → Connection → FileSystem → FileSystem
recibir_archivo can_open nombre s fs = write_file can_open nombre (receive_file s) fs

-- What a handler leaves: the files, what it sent to the client, and what desbloquear_elemento_dns sent
-- to the name server.
pub record Atencion : Type 0 where
  pub archivos : FileSystem
  pub enviado : List Bytes
  pub al_dns : Option Bytes

abbrev pub nada : FileSystem → Atencion
nada fs = record { archivos = fs; enviado = []; al_dns = none }

-- sscanf(buffer, "%s %s", comando, nombre), where nombre was empty before: the words. `cabe_comando` says
-- whether they fit their arrays.
abbrev con_nombre : Bytes → Option (Bytes × Bytes) → Bytes × Bytes
con_nombre c none = (c, [])
con_nombre c (some (n, b)) = (c, n)

abbrev con_comando : Bytes → Option (Bytes × Bytes) → Bytes × Bytes
con_comando garbage none = (garbage, [])
con_comando garbage (some (c, b)) = con_nombre c (scan_word b)

unfoldable pub leer_comando : Bytes → Bytes → Bytes × Bytes
leer_comando garbage b = con_comando garbage (scan_word b)

abbrev pub obtener : (Bytes → Bool) → Bytes → Option Node → FileSystem → Atencion
obtener can_open nombre (some (file c)) fs = record {
  archivos = fs;
  enviado = enviar_archivo can_open fs nombre;
  al_dns = none;
}
obtener can_open nombre (some (folder ns)) fs = record {
  archivos = fs;
  enviado = enviar_carpeta can_open fs nombre;
  al_dns = none;
}
obtener can_open nombre _ fs = nada fs

abbrev pub actualizar : (Bytes → Bool) → Bytes → Option Node → Connection → FileSystem → Atencion
actualizar can_open nombre (some (file c)) s fs = record {
  archivos = recibir_archivo can_open nombre s fs;
  enviado = [];
  al_dns = some (pedir_desbloqueo nombre);
}
actualizar can_open nombre _ s fs = nada fs

abbrev pub es_vacio : Bytes → Bool
es_vacio [] = true
es_vacio (x ∷ b) = false

unfoldable pub atender_comando :
    (Bytes → Bool) → List Bytes → Bytes × Bytes → Connection → FileSystem → Atencion
atender_comando can_open reg (comando, nombre) s fs =
    if str_eq comando (codes "OBTENER_ELEMENTO") && not (es_vacio nombre)
    then (if esta_registrado nombre reg then obtener can_open nombre (fs nombre) fs else nada fs)
    else if str_eq comando (codes "ACTUALIZAR_ARCHIVO") && not (es_vacio nombre)
    then (if esta_registrado nombre reg
        then actualizar can_open nombre (fs nombre) s fs
        else nada fs)
    else nada fs

-- What comando held before, and what the handler does with words that overrun their arrays: C leaves it
-- undefined, and it hangs on how the compiler laid the variables out.
pub record Marco : Type 0 where
  pub comando : Bytes
  pub desborde : Bytes × Bytes → Connection → FileSystem → Atencion

-- comando[16] and nombre[MAX_FILENAME], with the zero behind each word. The words OBTENER_ELEMENTO and
-- ACTUALIZAR_ARCHIVO do not fit.
abbrev pub cabe_comando : Bytes × Bytes → Bool
cabe_comando (comando, nombre) = ltb (length comando) 16 && ltb (length nombre) 256

unfoldable pub con_palabras :
    (Bytes → Bool) → Marco → List Bytes → Bytes × Bytes → Connection → FileSystem → Atencion
unfolding atender_comando
con_palabras can_open marco reg m s fs =
    if cabe_comando m then atender_comando can_open reg m s fs else marco.desborde m s fs

abbrev pub con_mensaje :
    (Bytes → Bool) → Marco → List Bytes → Bytes × Connection → FileSystem → Atencion
con_mensaje can_open marco reg ([], s) fs = nada fs
con_mensaje can_open marco reg (x ∷ b, s) fs =
    con_palabras can_open marco reg (leer_comando marco.comando (c_str (x ∷ b))) s fs

-- The first recv fills at most BUF_SIZE bytes, and the zero behind them may stand past the buffer.
unfoldable pub manejar_cliente_daemon :
    (Bytes → Bool) → Marco → List Bytes → Connection → FileSystem → Atencion
unfolding recv leer_comando con_palabras
manejar_cliente_daemon can_open marco reg s fs = con_mensaje can_open marco reg (recv 1024 s) fs

-- In this build the words of a request, a command of at most 18 bytes and a name of at most 255, overrun
-- nothing that the handler reads, in comando[16] too: it does what the words say.
abbrev pub OrdenesCaben : (Bytes → Bool) → Marco → List Bytes → Type 0
OrdenesCaben can_open marco reg =
    (m : Bytes × Bytes) (s : Connection) (fs : FileSystem)
    → length m.0 ≤ 18
    → length m.1 ≤ 255
    → marco.desborde m s fs ≡ atender_comando can_open reg m s fs

pub con_palabras_lem :
    (can_open : Bytes → Bool) (marco : Marco) (reg : List Bytes) (m : Bytes × Bytes)
    (s : Connection) (fs : FileSystem)
    → OrdenesCaben can_open marco reg
    → length m.0 ≤ 18
    → length m.1 ≤ 255
    → con_palabras can_open marco reg m s fs ≡ atender_comando can_open reg m s fs
unfolding con_palabras
con_palabras_lem can_open marco reg m s fs w h k = elim (Bool-cases (cabe_comando m)) [
  | inl b ↦ rw b refl
  | inr b ↦ rw b (w m s fs h k)
]
