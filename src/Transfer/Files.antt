-- ===== src/Transfer/Files.antt =====
-- The file system that a program sees: what stat, fopen and opendir say of a path.
use so_distribuidos.Prelude.{
  Bool, true, false, ◌&&◌, not, Option, some, List, ◌∷◌, ◌++◌, ◌≡◌, ◌≢◌, arith, Bytes, str_eq,
  str_eq_iff, take, if◌then◌else◌,
}

-- A regular file with its bytes, a folder with the names in it in readdir's order, or something else.
pub data Node : Type 0 where
  file : Bytes → Node
  folder : List Bytes → Node
  special : Node

abbrev pub FileSystem : Type 0
FileSystem = Bytes → Option Node

abbrev pub put : Bytes → Node → FileSystem → FileSystem
put path node fs q = if str_eq path q then some node else fs q

abbrev pub es_carpeta : Option Node → Bool
es_carpeta (some (folder ns)) = true
es_carpeta _ = false

-- snprintf(ruta, MAX_FILENAME, "%s/%s", ...)
unfoldable pub ruta : Bytes → Bytes → Bytes
ruta carpeta nombre = take 255 (carpeta ++ 47 ∷ nombre)

-- fopen(path, "wb"), the writes and fclose. fopen fails on a folder, and where `can_open` is false. The
-- names in the folders are not kept up: no program lists a folder that it writes to.
unfoldable pub write_file : (Bytes → Bool) → Bytes → Bytes → FileSystem → FileSystem
write_file can_open path content fs =
    if can_open path && not (es_carpeta (fs path)) then put path (file content) fs else fs

pub put_self : (path : Bytes) (node : Node) (fs : FileSystem) → put path node fs path ≡ some node
put_self path node fs = ground (arith, str_eq_iff path path)

pub put_ne : (path q : Bytes) (node : Node) (fs : FileSystem) → path ≢ q → put path node fs q ≡ fs q
put_ne path q node fs h = ground (arith, str_eq_iff path q)

pub write_file_self :
    (can_open : Bytes → Bool) (path content : Bytes) (fs : FileSystem)
    → can_open path ≡ true
    → es_carpeta (fs path) ≡ false
    → write_file can_open path content fs path ≡ some (file content)
unfolding write_file
write_file_self can_open path content fs h k = rw (h, k) (put_self path (file content) fs)

pub write_file_ne :
    (can_open : Bytes → Bool) (path q content : Bytes) (fs : FileSystem)
    → path ≢ q
    → write_file can_open path content fs q ≡ fs q
unfolding write_file
write_file_ne can_open path q content fs h = ground (arith, put_ne path q (file content) fs h)
