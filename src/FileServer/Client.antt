-- ===== src/FileServer/Client.antt =====
-- client.c of tp7-sistema-archivos-distribuidos: request_file and main. `dns` gives what recv reads of the
-- name server's answer. `connect` gives what a server at an address and port sends back over one connection,
-- on which the client sends its texts and closes its end; nothing comes where there is no connection.
use so_distribuidos.Prelude.{
  ℕ, Bool, true, false, ◌&&◌, not, Option, none, some, List, [], ◌∷◌, ◌++◌, ◌>>=◌, Bytes, codes,
  str_eq, strip_prefix, c_str, ℤ, if◌then◌else◌, length, take, drop, scan_word, scan_int,
}
use so_distribuidos.Transfer.Loops.{Connection, receive_file}
use so_distribuidos.Transfer.Files.{Node, file, folder, FileSystem, es_carpeta, put}
use so_distribuidos.FileServer.Lines.{send_text}

-- snprintf(buf, BUF_SIZE, "REQUEST_FILE %s %s", fname, cmd)
unfoldable pub file_request : Bytes → Bytes → Bytes
file_request fname cmd = take 1023 (codes "REQUEST_FILE" ++ (32 ∷ fname ++ 32 ∷ cmd))

-- snprintf(buf, BUF_SIZE, "GET_FILE %s", fname)
unfoldable pub get_request : Bytes → Bytes
get_request fname = take 1023 (codes "GET_FILE" ++ 32 ∷ fname)

-- snprintf(buf, BUF_SIZE, "PUT_FILE %s", fname)
unfoldable pub put_request : Bytes → Bytes
put_request fname = take 1023 (codes "PUT_FILE" ++ 32 ∷ fname)

-- No zero is put behind the answer: behind it stands what buf held, the request and its zero.
abbrev pub answer_in : Bytes → Bytes → Bytes
answer_in request b = take 1024 b ++ drop (length b) (request ++ 0 ∷ [])

-- The variables that sscanf fills.
pub record Location : Type 0 where
  pub ip : Bytes
  pub port : ℤ

abbrev with_port : Bytes → Location → Option (ℤ × Bytes) → Location
with_port ip u none = record { ip = ip; port = u.port }
with_port ip u (some (p, b)) = record { ip = ip; port = p }

abbrev with_ip : Location → Option (Bytes × Bytes) → Location
with_ip u none = u
with_ip u (some (ip, b)) = with_port ip u (scan_int b)

abbrev located : Location → Option Bytes → Option Location
located u none = none
located u (some r) = some (with_ip u (scan_word r))

-- sscanf(buf, "OK %s %d", ip, &port), where buf starts with OK.
unfoldable pub parse_answer : Location → Bytes → Option Location
parse_answer u b = located u (strip_prefix (codes "OK") b)

-- The client's files and the state of the servers.
pub record World (R : Type 0) : Type 0 where
  pub files : FileSystem
  pub remote : R

-- What the environment gives a run: which files fopen can open, what ip and port held, and what the user does
-- to the files before pressing Enter.
pub record Setting : Type 0 where
  pub can_open : Bytes → Bool
  pub location : Location
  pub edit : FileSystem → FileSystem

abbrev copy_name : Bytes
copy_name = codes "client_copy.txt"

abbrev edit_name : Bytes
edit_name = codes "client_edit.txt"

abbrev text_of : Option Node → Option Bytes
text_of (some (file c)) = some c
text_of (some (folder ns)) = some []
text_of _ = none

module _ {R : Type 0} (dns : Bytes → R → Bytes × R)
    (connect : Bytes → ℤ → List Bytes → R → Connection × R) (v : Setting) where
  -- fopen, the loop over recv, and fclose. There is no result where fopen fails, which is not looked at.
  abbrev receive_in : Bytes → Connection → FileSystem → Option FileSystem
  receive_in name s fs =
      if v.can_open name && not (es_carpeta (fs name))
      then some (put name (file (receive_file s)) fs)
      else none

  abbrev send_back : Bytes → Location → FileSystem → R → Bool → Option Bytes → Option (World R)
  send_back fname u fs r opens none = none
  send_back fname u fs r false (some c) = none
  send_back fname u fs r true (some c) =
      some (record {
        files = fs;
        remote = (connect u.ip u.port (put_request fname ∷ send_text c) r).1;
      })

  abbrev edited : Bytes → Location → FileSystem → R → Option (World R)
  edited fname u fs r =
      send_back fname u (v.edit fs) r (v.can_open edit_name) (text_of (v.edit fs edit_name))

  abbrev after_edit : Bytes → Location → R → Option FileSystem → Option (World R)
  after_edit fname u r none = none
  after_edit fname u r (some fs) = edited fname u fs r

  abbrev after_copy : R → Option FileSystem → Option (World R)
  after_copy r none = none
  after_copy r (some fs) = some (record { files = fs; remote = r })

  abbrev at_server : Bytes → Bytes → Location → FileSystem → R → Option (World R)
  at_server fname cmd u fs r =
      let got = connect u.ip u.port (get_request fname ∷ []) r in
      if str_eq cmd (codes "READ")
      then after_copy got.1 (receive_in copy_name got.0 fs)
      else if str_eq cmd (codes "WRITE")
      then after_edit fname u got.1 (receive_in edit_name got.0 fs)
      else some (record { files = fs; remote = (connect u.ip u.port [] r).1 })

  abbrev by_answer : Bytes → Bytes → FileSystem → R → Option Location → Option (World R)
  by_answer fname cmd fs r none = some (record { files = fs; remote = r })
  by_answer fname cmd fs r (some u) = at_server fname cmd u fs r

  unfoldable pub request_file : Bytes → Bytes → World R → Option (World R)
  unfolding parse_answer
  request_file fname cmd w =
      let a = dns (file_request fname cmd) w.remote in
      by_answer fname cmd w.files a.1
        (parse_answer v.location (c_str (answer_in (file_request fname cmd) a.0)))

  -- main, on the arguments behind the program's name: the exit status.
  unfoldable pub main : List Bytes → World R → Option (ℕ × World R)
  unfolding request_file
  main (fname ∷ cmd ∷ rest) w = do w' ← request_file fname cmd w; some (0, w')
  main _ w = some (1, w)
