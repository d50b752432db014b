-- ===== src/FileServer/Service.antt =====
-- file_server.c of tp7-sistema-archivos-distribuidos: its registrations, and one connection of a client.
-- The name server is a function of the text that is sent and of its state S.
use so_distribuidos.Prelude.{
  ℕ, Bool, false, ◌&&◌, ◌||◌, not, Option, none, some, List, [], ◌∷◌, ◌++◌, ◌>>=◌, Bytes, codes,
  str_eq, starts_with, c_str, ℤ, ltb, if◌then◌else◌, length, take, print_int,
}
use so_distribuidos.Transfer.Loops.{Connection, recv, receive_file}
use so_distribuidos.Transfer.Files.{Node, file, FileSystem, es_carpeta, put}
use so_distribuidos.ElementServer.Daemon.{leer_comando, es_vacio}
use so_distribuidos.ElementServer.Commands.{es_txt}
use so_distribuidos.FileServer.Lines.{send_text}

-- snprintf(buf, BUF_SIZE, "REGISTER_FILE %s %s %d", fname, ip, port)
unfoldable pub register_request : Bytes → Bytes → ℤ → Bytes
register_request fname ip port =
    take 1023 (codes "REGISTER_FILE" ++ (32 ∷ fname ++ (32 ∷ ip ++ (32 ∷ print_int port))))

-- snprintf(buf, BUF_SIZE, "UNLOCK_FILE %s", fname)
unfoldable pub unlock_request : Bytes → Bytes
unlock_request fname = take 1023 (codes "UNLOCK_FILE" ++ 32 ∷ fname)

-- MAX_FILES of file_server.c
abbrev pub max_registered : ℕ
max_registered = 100

-- The first registered_count names of registered_files, and the state of the name server.
pub record FileServer (S : Type 0) : Type 0 where
  pub registered : List Bytes
  pub names : S

module _ {S : Type 0} (dns : Bytes → S → Bytes × S) (ip : Bytes) (port : ℤ) where
  -- There is no result where the name would be written out of registered_files.
  abbrev registered_by : Bytes → FileServer S → Bytes × S → Option (FileServer S)
  registered_by fname s (reply, t) =
      if starts_with (codes "OK") (c_str reply)
      then (if ltb (length s.registered) max_registered
          then some (record { registered = s.registered ++ fname ∷ []; names = t })
          else none)
      else some (record { registered = s.registered; names = t })

  unfoldable pub register_file : Bytes → FileServer S → Option (FileServer S)
  register_file fname s = registered_by fname s (dns (register_request fname ip port) s.names)

  -- Over the names in "." in readdir's order.
  unfoldable pub register_all_txt_files : List Bytes → FileServer S → Option (FileServer S)
  unfolding register_file
  register_all_txt_files [] s = some s
  register_all_txt_files (n ∷ ns) s = do
    s' ← (if es_txt n then register_file n s else some s)
    register_all_txt_files ns s'

-- The loop over registered_files.
unfoldable pub is_registered : Bytes → List Bytes → Bool
is_registered fname [] = false
is_registered fname (r ∷ rs) = str_eq r fname || is_registered fname rs

-- What a connection leaves: the files, what was sent to the client, and what unlock_file_in_dns sent.
pub record Served : Type 0 where
  pub files : FileSystem
  pub sent : List Bytes
  pub to_dns : Option Bytes

abbrev pub nothing : FileSystem → Served
nothing fs = record { files = fs; sent = []; to_dns = none }

-- A folder can be opened, and no line is read from it.
abbrev pub get_file : Bool → Option Node → FileSystem → Served
get_file opens (some (file c)) fs =
    if opens then record { files = fs; sent = send_text c; to_dns = none } else nothing fs
get_file opens _ fs = nothing fs

-- The result of fopen is not looked at: there is no result where it fails.
abbrev pub put_file : Bool → Bytes → Connection → FileSystem → Option Served
put_file opens fname s fs =
    if opens && not (es_carpeta (fs fname))
    then some (record {
      files = put fname (file (receive_file s)) fs;
      sent = [];
      to_dns = some (unlock_request fname);
    })
    else none

unfoldable pub serve_command :
    (Bytes → Bool) → List Bytes → Bytes × Bytes → Connection → FileSystem → Option Served
serve_command can_open registered (cmd, fname) s fs =
    if str_eq cmd (codes "GET_FILE") && not (es_vacio fname)
    then (if is_registered fname registered
        then some (get_file (can_open fname) (fs fname) fs)
        else some (nothing fs))
    else if str_eq cmd (codes "PUT_FILE") && not (es_vacio fname)
    then (if is_registered fname registered
        then put_file (can_open fname) fname s fs
        else some (nothing fs))
    else some (nothing fs)

-- cmd[16] and fname[MAX_FILENAME], with the zero behind each word. A word that overruns has no result.
unfoldable pub serve_fitting :
    (Bytes → Bool) → List Bytes → Bytes × Bytes → Connection → FileSystem → Option Served
unfolding serve_command
serve_fitting can_open registered (cmd, fname) s fs =
    if ltb (length cmd) 16 && ltb (length fname) 256
    then serve_command can_open registered (cmd, fname) s fs
    else none

abbrev pub with_message :
    (Bytes → Bool) → Bytes → List Bytes → Bytes × Connection → FileSystem → Option Served
with_message can_open garbage registered (b, s) fs =
    if ltb (length b) 1024
    then serve_fitting can_open registered (leer_comando garbage (c_str b)) s fs
    else none

-- `garbage` is what cmd held. There is no result where the zero behind the bytes is written out of buf.
unfoldable pub handle_client :
    (Bytes → Bool) → Bytes → List Bytes → Connection → FileSystem → Option Served
unfolding recv leer_comando serve_fitting
handle_client can_open garbage registered s fs =
    with_message can_open garbage registered (recv 1024 s) fs
