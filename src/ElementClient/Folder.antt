-- ===== src/ElementClient/Folder.antt =====
-- cliente_nuevo.c: what the client receives from a daemon, a file or a folder, and the file it sends
-- back. `can_open` and `can_mkdir` say for which paths fopen and mkdir succeed.
use so_distribuidos.Prelude.{
  ℕ, zero, suc, ◌-◌, ltb, Bool, ◌&&◌, not, Option, none, some, List, [], ◌∷◌, ◌++◌, Bytes, codes,
  starts_with, strip_prefix, split_at, c_str, pos, negsuc, ℤ, if◌then◌else◌, length, scan_word,
  scan_int,
}
use so_distribuidos.Transfer.Loops.{Connection, recv, concat, send_file, receive_file}
use so_distribuidos.Transfer.Files.{
  Node, file, folder, FileSystem, put, es_carpeta, ruta, write_file,
}

-- FOLDER_DOWNLOADS
abbrev pub descargas : Bytes
descargas = codes "descargas_distribuidas"

-- mkdir fails on a path that exists.
abbrev pub mkdir_en : Bool → Bytes → FileSystem → Option Node → Option FileSystem
mkdir_en ok path fs (some n) = none
mkdir_en ok path fs none = if ok then some (put path (folder []) fs) else none

unfoldable pub mkdir : (Bytes → Bool) → Bytes → FileSystem → Option FileSystem
mkdir can_mkdir path fs = mkdir_en (can_mkdir path) path fs (fs path)

abbrev pub or_same : FileSystem → Option FileSystem → FileSystem
or_same fs none = fs
or_same fs (some fs') = fs'

unfoldable pub crear_carpeta_descargas : (Bytes → Bool) → FileSystem → FileSystem
unfolding mkdir
crear_carpeta_descargas can_mkdir fs = or_same fs (mkdir can_mkdir descargas fs)

unfoldable pub recibir_archivo : (Bytes → Bool) → Bytes → Connection → FileSystem → FileSystem
recibir_archivo can_open nombre s fs =
    write_file can_open (ruta descargas nombre) (receive_file s) fs

abbrev enviar_nodo : Bool → Option Node → List Bytes
enviar_nodo can_open (some (file c)) = if can_open then send_file c else []
enviar_nodo can_open _ = []

-- What is sent, one text for each call of send.
unfoldable pub enviar_archivo : (Bytes → Bool) → Bytes → FileSystem → List Bytes
enviar_archivo can_open nombre fs =
    enviar_nodo (can_open (ruta descargas nombre)) (fs (ruta descargas nombre))

-- The loop that reads a file of a known size, on fuel: the bytes, and what is left of the stream.
abbrev leidos : (ℕ → Connection → Bytes × Connection) → ℕ → Bytes × Connection → Bytes × Connection
leidos f restantes ([], s) = ([], s)
leidos f restantes (x ∷ b, s) = let r = f (restantes - length (x ∷ b)) s in (x ∷ b ++ r.0, r.1)

unfoldable pub recv_exact : ℕ → ℕ → Connection → Bytes × Connection
unfolding recv
recv_exact zero restantes s = ([], s)
recv_exact (suc fuel) zero s = ([], s)
recv_exact (suc fuel) (suc r) s =
    leidos (recv_exact fuel) (suc r) (recv (if ltb 1024 (suc r) then 1024 else suc r) s)

-- The bytes_restantes that a long starts from: none where it is not positive.
abbrev pub positivos : ℤ → ℕ
positivos (pos n) = n
positivos (negsuc n) = 0

-- strtok(buffer, "\n") of a text that does not start with a line's end.
abbrev hasta : Bytes → Option (Bytes × Bytes) → Bytes
hasta b none = b
hasta b (some (l, r)) = l

abbrev pub linea : Bytes → Bytes
linea b = hasta b (split_at 10 b)

-- %[^:] takes at least one byte. What a conversion does not reach keeps what it held.
abbrev con_tamano : Bytes → Bytes × ℤ → Option (ℤ × Bytes) → Bytes × ℤ
con_tamano nombre held none = (nombre, held.1)
con_tamano nombre held (some (n, r)) = (nombre, n)

abbrev con_nombre : Bytes × ℤ → Bytes → Option (Bytes × Bytes) → Bytes × ℤ
con_nombre held [] none = held
con_nombre held (x ∷ b) none = (x ∷ b, held.1)
con_nombre held b (some ([], r)) = held
con_nombre held b (some (x ∷ n, r)) = con_tamano (x ∷ n) held (scan_int r)

-- sscanf(linea, "ARCHIVO:%[^:]:%ld", ...), behind the literal.
unfoldable pub leer_archivo : Bytes × ℤ → Bytes → Bytes × ℤ
leer_archivo held b = con_nombre held b (split_at 58 b)

-- sscanf(buffer, "CARPETA:%s", ...), behind the literal.
unfoldable pub leer_subcarpeta : Bytes → Bytes → Bytes
leer_subcarpeta held b = hasta held (scan_word b)

-- The message in the buffer.
pub data Mensaje : Type 0 where
  fin : Mensaje
  archivo : (nombre : Bytes) (tamano : ℤ) → Mensaje
  carpeta : (nombre : Bytes) → Mensaje
  otro : Mensaje

abbrev leer_tercero : Bytes × ℤ → Option Bytes → Mensaje
leer_tercero held none = otro
leer_tercero held (some r) = carpeta (leer_subcarpeta held.0 r)

abbrev leer_segundo : Bytes × ℤ → Bytes → Option Bytes → Mensaje
leer_segundo held b none = leer_tercero held (strip_prefix (codes "CARPETA:") b)
leer_segundo held b (some r) =
    archivo (leer_archivo held (linea r)).0 (leer_archivo held (linea r)).1

unfoldable pub leer_mensaje : Bytes × ℤ → Bytes → Mensaje
unfolding leer_archivo leer_subcarpeta
leer_mensaje held b =
    if starts_with (codes "FIN_CARPETA") b
    then fin
    else leer_segundo held b (strip_prefix (codes "ARCHIVO:") b)

module _ (can_open can_mkdir : Bytes → Bool) (held : Bytes × ℤ) (ruta_carpeta : Bytes) where
  -- A file's bytes are read off the stream where fopen succeeds.
  abbrev pub recibir_en : Bytes → ℤ → Connection → FileSystem → Connection × FileSystem
  recibir_en path tamano s fs =
      let fs' =
        write_file can_open path (recv_exact (positivos tamano) (positivos tamano) s).0 fs in
      if can_open path && not (es_carpeta (fs path))
      then ((recv_exact (positivos tamano) (positivos tamano) s).1, fs')
      else (s, fs)

  abbrev pub con_mensaje :
      (Connection → FileSystem → FileSystem) → Mensaje → Connection → FileSystem → FileSystem
  con_mensaje rec fin s fs = fs
  con_mensaje rec (archivo n t) s fs =
      let r = recibir_en (ruta ruta_carpeta n) t s fs in rec r.0 r.1
  con_mensaje rec (carpeta n) s fs = rec s (or_same fs (mkdir can_mkdir (ruta ruta_carpeta n) fs))
  con_mensaje rec otro s fs = rec s fs

  abbrev pub con_recv :
      (Connection → FileSystem → FileSystem) → Bytes × Connection → FileSystem → FileSystem
  con_recv rec ([], s) fs = fs
  con_recv rec (x ∷ b, s) fs = con_mensaje rec (leer_mensaje held (c_str (x ∷ b))) s fs

  -- The loop of recibir_carpeta, on fuel. `held` is what the variables of its block hold.
  unfoldable pub recibir_entradas : ℕ → Connection → FileSystem → FileSystem
  unfolding recv recv_exact mkdir leer_mensaje
  recibir_entradas zero s fs = fs
  recibir_entradas (suc fuel) s fs = con_recv (recibir_entradas fuel) (recv 1023 s) fs

abbrev pub con_mkdir :
    (can_open can_mkdir : Bytes → Bool)
    → Bytes × ℤ
    → Bytes
    → Connection
    → FileSystem
    → Option FileSystem
    → FileSystem
con_mkdir can_open can_mkdir held nombre s fs none = fs
con_mkdir can_open can_mkdir held nombre s fs (some fs') =
    recibir_entradas can_open can_mkdir held (ruta descargas nombre) (suc (length (concat s))) s fs'

-- Each turn of the loop takes a byte, so this fuel never runs out.
unfoldable pub recibir_carpeta :
    (can_open can_mkdir : Bytes → Bool) → Bytes × ℤ → Bytes → Connection → FileSystem → FileSystem
unfolding recibir_entradas mkdir
recibir_carpeta can_open can_mkdir held nombre s fs =
    con_mkdir can_open can_mkdir held nombre s fs (mkdir can_mkdir (ruta descargas nombre) fs)
