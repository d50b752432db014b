-- ===== src/PageServer/Server.antt =====
-- newServer.c: the page table, the shared memory, and what a thread does to them between two waits.
use so_distribuidos.Prelude.{
  update, ℕ, ◌*◌, Bool, false, Option, none, some, List, [], ◌∷◌, ◌++◌, ◌-◌, Bytes, codes, ℤ, pos,
  negsuc, ltb, ◌==◌, eqb_ℤ, if◌then◌else◌, length, take, replicate, slice, overwrite, c_str,
}
use so_distribuidos.PageServer.Message.{send_command, Request}

-- page_entry_t without its mutex; the queue holds the sockets of its nodes.
pub record PageEntry : Type 0 where
  pub lock : ℕ
  pub queue : List ℕ

abbrev pub PageTable : Type 0
PageTable = ℕ → PageEntry

pub record Server : Type 0 where
  pub page_size : ℕ
  pub num_pages : ℕ
  pub page_table : PageTable
  pub shared_memory : Bytes

abbrev pub free_page : PageEntry
free_page = record { lock = 0; queue = [] }

-- The table that main sets up over a shared memory segment, which may hold anything.
abbrev pub init : ℕ → ℕ → Bytes → Server
init page_size num_pages memory = record {
  page_size = page_size;
  num_pages = num_pages;
  page_table = λ p. free_page;
  shared_memory = memory;
}

-- What the environment answers between two waits: the malloc of a copy of the page, the malloc of a
-- queue node, and send().
pub record Env : Type 0 where
  pub content_alloc : Bool
  pub node_alloc : Bool
  pub sent : Bool

-- Where a thread stands: before its first recv(), in the polling loop for a page, before the recv()
-- of its write, or ended.
pub data Pc : Type 0 where
  connected : Pc
  waiting : (p : ℕ) → Pc
  writing : (p : ℕ) → Pc
  finished : Pc

pub record Reply : Type 0 where
  pub server : Server
  pub sent : List Bytes
  pub next : Pc

-- With `alloc` false the node is not added, and only a message is printed.
unfoldable pub add_to_queue : Bool → List ℕ → ℕ → List ℕ
add_to_queue alloc queue socket = if alloc then queue ++ socket ∷ [] else queue

abbrev pub remove_from_queue : List ℕ → ℤ × List ℕ
remove_from_queue [] = (negsuc 0, [])
remove_from_queue (socket ∷ rest) = (pos socket, rest)

-- `page_num < 0 || page_num >= num_pages`
abbrev pub valid_page : Server → ℤ → Option ℕ
valid_page s (pos p) = if ltb p s.num_pages then some p else none
valid_page s (negsuc n) = none

unfoldable pub page_content : Server → ℕ → Bytes
page_content s p = slice s.shared_memory (p * s.page_size) s.page_size

-- "ERROR: Página inválida", in UTF-8
abbrev pub error_page : Bytes
error_page = codes "ERROR: P" ++ (0xc3 ∷ 0xa1 ∷ codes "gina inv" ++ (0xc3 ∷ 0xa1 ∷ codes "lida"))

-- "ERROR: Contenido inválido"
abbrev pub error_content : Bytes
error_content = codes "ERROR: Contenido inv" ++ (0xc3 ∷ 0xa1 ∷ codes "lido")

abbrev pub error_owner : Bytes
error_owner = codes "ERROR: No autorizado para escribir"

abbrev reply : Server → List Bytes → Pc → Reply
reply s out next = record { server = s; sent = out; next = next }

abbrev set_entry : Server → ℕ → PageEntry → Server
set_entry s p entry = record s { page_table = update s.page_table p entry }

unfoldable pub read_valid : Server → Option ℕ → Reply
read_valid s none = reply s (error_page ∷ []) finished
read_valid s (some p) = reply s (page_content s p ∷ []) finished

-- Every byte of the page is sent, whatever its lock says.
unfoldable pub read_page : Server → ℤ → Reply
unfolding read_valid
read_page s page_num = read_valid s (valid_page s page_num)

-- The locked branch of `read_lock_page`, up to the polling loop.
unfoldable pub enqueue : Env → Server → ℕ → ℕ → Reply
enqueue e s socket p =
    let (ok, out) = send_command (pos 1) (some []) e.sent in
    let queue = add_to_queue e.node_alloc (s.page_table p).queue socket in
    if ok
    then reply (set_entry s p (record { lock = (s.page_table p).lock; queue = queue })) out
        (waiting p)
    else reply s out finished

-- The content that is sent is the page up to its first zero.
abbrev pub send_page : Env → Server → ℕ → Bool × List Bytes
send_page e s p =
    if e.content_alloc
    then send_command (pos 0) (some (c_str (page_content s p))) e.sent
    else (false, [])

-- The unlocked branch of `read_lock_page`, up to the wait for the write.
unfoldable pub grant : Env → Server → ℕ → ℕ → Reply
grant e s socket p =
    let (ok, out) = send_page e s p in
    let queue = add_to_queue e.node_alloc (s.page_table p).queue socket in
    if ok
    then reply (set_entry s p (record { lock = 1; queue = queue })) out (writing p)
    else reply s out finished

unfoldable pub lock_valid : Env → Server → ℕ → Option ℕ → Reply
unfolding enqueue grant
lock_valid e s socket none = reply s (error_page ∷ []) finished
lock_valid e s socket (some p) =
    if (s.page_table p).lock == 1 then enqueue e s socket p else grant e s socket p

-- `read_lock_page` up to its first wait.
unfoldable pub read_lock_page : Env → Server → ℕ → ℤ → Reply
unfolding lock_valid
read_lock_page e s socket page_num = lock_valid e s socket (valid_page s page_num)

-- The node at the front of the queue, if there is one, has this socket.
abbrev pub at_front : List ℕ → ℕ → Bool
at_front [] socket = false
at_front (front ∷ rest) socket = front == socket

-- One round of the polling loop of `read_lock_page`.
unfoldable pub poll_page : Env → Server → ℕ → ℕ → Reply
poll_page e s socket p =
    let (ok, out) = send_page e s p in
    if at_front (s.page_table p).queue socket
    then (if ok then reply s out (writing p) else reply s out finished)
    else reply s [] (waiting p)

-- memset, then memcpy of at most a page
abbrev pub fill_page : ℕ → Bytes → Bytes
fill_page page_size content = take page_size content ++ replicate (page_size - length content) 0

abbrev unlock_if_empty : ℕ → List ℕ → PageEntry
unlock_if_empty lock [] = record { lock = 0; queue = [] }
unlock_if_empty lock (socket ∷ rest) = record { lock = lock; queue = socket ∷ rest }

abbrev pub release_entry : PageEntry → PageEntry
release_entry entry = unlock_if_empty entry.lock (remove_from_queue entry.queue).1

unfoldable pub write_owned : Env → Server → ℕ → Bytes → Reply
write_owned e s p content =
    reply
      (record s {
        page_table = update s.page_table p (release_entry (s.page_table p));
        shared_memory = overwrite s.shared_memory (p * s.page_size) (fill_page s.page_size content);
      })
      (send_command (pos 2) (some []) e.sent).1 finished

unfoldable pub write_valid : Env → Server → ℕ → Option ℕ → Option Bytes → Reply
unfolding write_owned
write_valid e s socket none content = reply s (error_page ∷ []) finished
write_valid e s socket (some p) none = reply s (error_content ∷ []) finished
write_valid e s socket (some p) (some content) =
    if at_front (s.page_table p).queue socket
    then write_owned e s p content
    else reply s (error_owner ∷ []) finished

unfoldable pub write_page : Env → Server → ℕ → ℤ → Option Bytes → Reply
unfolding write_valid
write_page e s socket page_num content = write_valid e s socket (valid_page s page_num) content

-- The end of `read_lock_page`: the request that should be a write has come.
unfoldable pub finish_write : Env → Server → ℕ → Request → Reply
finish_write e s socket r =
    if eqb_ℤ r.command (pos 2)
    then write_page e s socket r.page_num r.content
    else reply s [] finished

-- `handle_client`, up to its first wait.
unfoldable pub handle_client : Env → Server → ℕ → Request → Reply
handle_client e s socket r =
    if eqb_ℤ r.command (pos 0)
    then read_page s r.page_num
    else if eqb_ℤ r.command (pos 1)
    then read_lock_page e s socket r.page_num
    else reply s [] finished
