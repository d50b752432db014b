-- ===== src/FileDns/Service.antt =====
-- dns_server.c: the table and the handler of one connection. The server takes one connection after
-- another.
use so_distribuidos.Prelude.{
  Bool, true, ℕ, ◌&&◌, Option, none, some, List, [], ◌∷◌, ◌++◌, Bytes, codes, str_eq, strip_prefix,
  c_str, ℤ, eqb_ℤ, ltb, ◌==◌, if◌then◌else◌, length, take, scan_word, scan_int, print_int, find,
  modify,
}

pub record FileEntry : Type 0 where
  pub file_name : Bytes
  pub ip : Bytes
  pub port : ℤ
  pub lock : ℕ

abbrev pub name_of : FileEntry → Bytes
name_of e = e.file_name

abbrev pub set_lock : ℕ → FileEntry → FileEntry
set_lock b e = record { file_name = e.file_name; ip = e.ip; port = e.port; lock = b }

abbrev pub new_entry : Bytes → Bytes → ℤ → FileEntry
new_entry fname ip port = record { file_name = fname; ip = ip; port = port; lock = 0 }

-- The first fileCount entries of fileTable, which has room for 10. An entry past it is written out of the array, which C
-- leaves undefined: the server has no result there.
abbrev pub Table : Type 0
Table = List FileEntry

abbrev pub table_size : ℕ
table_size = 10

-- A request, as the variables stand after sscanf.
pub data Request : Type 0 where
  register_file : (fname ip : Bytes) (port : ℤ) → Request
  request_file : (fname cmd : Bytes) → Request
  unlock_file : (fname : Bytes) → Request
  other : Request

-- What the handler's local variables hold before sscanf. A conversion that fails leaves its variable.
pub record Locals : Type 0 where
  pub fname : Bytes
  pub ip : Bytes
  pub port : ℤ
  pub cmd : Bytes

-- One conversion after another. `fits` says whether the words fit their arrays.
abbrev with_port : Bytes → Bytes → Locals → Option (ℤ × Bytes) → Request
with_port n ip l none = register_file n ip l.port
with_port n ip l (some (p, b)) = register_file n ip p

abbrev with_ip : Bytes → Locals → Option (Bytes × Bytes) → Request
with_ip n l none = register_file n l.ip l.port
with_ip n l (some (ip, b)) = with_port n ip l (scan_int b)

abbrev read_register : Locals → Option (Bytes × Bytes) → Request
read_register l none = register_file l.fname l.ip l.port
read_register l (some (n, b)) = with_ip n l (scan_word b)

abbrev with_cmd : Bytes → Locals → Option (Bytes × Bytes) → Request
with_cmd n l none = request_file n l.cmd
with_cmd n l (some (c, b)) = request_file n c

abbrev read_request : Locals → Option (Bytes × Bytes) → Request
read_request l none = request_file l.fname l.cmd
read_request l (some (n, b)) = with_cmd n l (scan_word b)

abbrev read_unlock : Locals → Option (Bytes × Bytes) → Request
read_unlock l none = unlock_file l.fname
read_unlock l (some (n, b)) = unlock_file n

abbrev read_third : Locals → Option Bytes → Request
read_third l none = other
read_third l (some r) = read_unlock l (scan_word r)

abbrev read_second : Locals → Bytes → Option Bytes → Request
read_second l b none = read_third l (strip_prefix (codes "UNLOCK_FILE") b)
read_second l b (some r) = read_request l (scan_word r)

abbrev read_first : Locals → Bytes → Option Bytes → Request
read_first l b none = read_second l b (strip_prefix (codes "REQUEST_FILE") b)
read_first l b (some r) = read_register l (scan_word r)

unfoldable pub parse_request : Locals → Bytes → Request
parse_request l b = read_first l b (strip_prefix (codes "REGISTER_FILE") b)

-- fname[MAX_FILENAME], ip[MAX_IP] and cmd[8], with the zero behind each word.
unfoldable pub fits : Request → Bool
fits (register_file fname ip port) = ltb (length fname) 256 && ltb (length ip) 16
fits (request_file fname cmd) = ltb (length fname) 256 && ltb (length cmd) 8
fits (unlock_file fname) = ltb (length fname) 256
fits other = true

abbrev pub ok_msg : Bytes
ok_msg = codes "OK\n"

-- The hit of the loop, or what follows it. Registering a free file of the same server again writes what
-- the entry holds already.
abbrev pub register_found : Option FileEntry → Bytes → Bytes → ℤ → Table → Option (Table × Bytes)
register_found (some e) fname ip port t =
    if (e.lock == 0) && str_eq e.ip ip && eqb_ℤ e.port port
    then some (modify name_of fname (λ x. new_entry fname ip port) t, ok_msg)
    else some (t, codes "DUPLICATE\n")
register_found none fname ip port t =
    if ltb (length t) table_size then some (t ++ new_entry fname ip port ∷ [], ok_msg) else none

-- snprintf(reply, BUF_SIZE, "OK %s %d\n", ...)
unfoldable pub ok_reply : FileEntry → Bytes
ok_reply e = codes "OK " ++ take 1020 (e.ip ++ codes " " ++ print_int e.port ++ codes "\n")

abbrev pub locked_msg : Bytes
locked_msg = codes "LOCKED\n"

abbrev pub request_found : Option FileEntry → Bytes → Bytes → Table → Option (Table × Bytes)
request_found none fname cmd t = some (t, codes "NOT_FOUND\n")
request_found (some e) fname cmd t =
    if str_eq cmd (codes "WRITE") && (e.lock == 0)
    then some (modify name_of fname (set_lock 1) t, ok_reply e)
    else if str_eq cmd (codes "READ")
    then some (t, ok_reply e)
    else some (t, locked_msg)

abbrev pub unlock_found : Option FileEntry → Bytes → Table → Option (Table × Bytes)
unlock_found none fname t = some (t, codes "NOT_FOUND\n")
unlock_found (some e) fname t = some (modify name_of fname (set_lock 0) t, codes "UNLOCKED\n")

-- What the handler does with a request, and what it sends back.
unfoldable pub serve : Request → Table → Option (Table × Bytes)
serve (register_file fname ip port) t = register_found (find name_of fname t) fname ip port t
serve (request_file fname cmd) t = request_found (find name_of fname t) fname cmd t
serve (unlock_file fname) t = unlock_found (find name_of fname t) fname t
serve other t = some (t, [])

-- A word that overruns its array has no result.
unfoldable pub serve_fitting : Request → Table → Option (Table × Bytes)
unfolding serve fits
serve_fitting r t = if fits r then serve r t else none

-- recv may fill the buffer, and then the zero behind the text is written out of it: no result either.
unfoldable pub handle_client : Locals → Bytes → Table → Option (Table × Bytes)
unfolding serve_fitting parse_request
handle_client l [] t = some (t, [])
handle_client l (x ∷ b) t =
    if ltb (length (x ∷ b)) 1024 then serve_fitting (parse_request l (c_str (x ∷ b))) t else none
