-- ===== src/PageServer/HandOver.antt =====
-- How newServer.c hands a page over: what is written is what the next writer is sent.
use so_distribuidos.Prelude.{
  update, ℕ, ◌≤◌, ◌<◌, true, false, some, List, [], ◌∷◌, ◌≡◌, ◌≢◌, ap, ◌∙◌, arith, Bytes, Free, pos,
  leb, if◌then◌else◌, length, c_str, print_int,
}
use so_distribuidos.PageServer.Message.{format, send_command}
use so_distribuidos.PageServer.Server.{
  PageEntry, Server, Env, writing, Reply, free_page, page_content, send_page, add_to_queue,
  write_owned, write_valid, release_entry, write_page, poll_page, read_lock_page,
}
use so_distribuidos.PageServer.Memory.{HasPages, page_content-write_owned, c_str-fill_page}

-- An environment in which nothing fails.
abbrev pub all_well : Env
all_well = record { content_alloc = true; node_alloc = true; sent = true }

abbrev pub contents : Server → ℕ → Bytes
contents s p = c_str (page_content s p)

-- send_page sends the page's text, or fails, by the length of the message.
send_page-all_well :
    (s : Server) (p : ℕ)
    → send_page all_well s p ≡ (
        if leb 510 (length (contents s p))
        then (false, [])
        else (true, format (pos 0) (contents s p) ∷ []))
unfolding send_command print_int
send_page-all_well s p = ground arith

module _ (e : Env) (s : Server) (i p : ℕ) (c : Bytes) (rest : List ℕ) where
  -- The state that a write by the front of the queue leaves.
  abbrev written : Server
  written = (write_page e s i (pos p) (some c)).server

  pub write_page-owned :
      p < s.num_pages
      → (s.page_table p).queue ≡ i ∷ rest
      → write_page e s i (pos p) (some c) ≡ write_owned e s p c
  unfolding write_page write_valid
  write_page-owned h q = ground arith

  pub contents-written :
      HasPages s
      → p < s.num_pages
      → (s.page_table p).queue ≡ i ∷ rest
      → Free 0 c
      → length c ≤ s.page_size
      → contents written p ≡ c
  contents-written sized h q free fits =
      ap (λ (r : Reply). contents r.server p) (write_page-owned h q)
      ∙ ap c_str (page_content-write_owned e s sized p c h)
      ∙ c_str-fill_page s.page_size c fits free

  pub entry-written :
      p < s.num_pages
      → (s.page_table p).queue ≡ i ∷ rest
      → written.page_table p ≡ release_entry (s.page_table p)
  unfolding write_owned
  entry-written h q =
      ap (λ (r : Reply). r.server.page_table p) (write_page-owned h q) ∙ ground arith

  num_pages-written :
      p < s.num_pages → (s.page_table p).queue ≡ i ∷ rest → written.num_pages ≡ s.num_pages
  unfolding write_owned
  num_pages-written h q = ap (λ (r : Reply). r.server.num_pages) (write_page-owned h q)

-- The front of a queue is let in, when nothing fails and the text is not too long.
front_granted :
    (t : Server) (j p : ℕ) (rest : List ℕ)
    → (t.page_table p).queue ≡ j ∷ rest
    → length (contents t p) < 510
    → poll_page all_well t j p
      ≡ record { server = t; sent = format (pos 0) (contents t p) ∷ []; next = writing p }
unfolding poll_page
front_granted t j p rest q short = ground (arith, send_page-all_well t p)

pub free_granted :
    (t : Server) (k p : ℕ)
    → p < t.num_pages
    → t.page_table p ≡ free_page
    → length (contents t p) < 510
    → read_lock_page all_well t k (pos p) ≡ record {
      server = record t {
        page_table = update t.page_table p (record { lock = 1; queue = k ∷ [] });
      };
      sent = format (pos 0) (contents t p) ∷ [];
      next = writing p;
    }
unfolding read_lock_page add_to_queue
free_granted t k p h f short = ground (arith, send_page-all_well t p)

send_page_long :
    (e : Env) (s : Server) (p : ℕ) → 510 ≤ length (contents s p) → (send_page e s p).0 ≡ false
unfolding send_command print_int
send_page_long e s p h = ground arith

-- A page of which the text has 510 bytes or more is never handed out for writing, in any environment:
-- neither to a new request nor to a thread that waits at the front.
pub long_page_refused :
    (e : Env) (s : Server) (i p : ℕ)
    → 510 ≤ length (contents s p)
    → ((read_lock_page e s i (pos p)).next ≢ writing p) × ((poll_page e s i p).next ≢ writing p)
unfolding read_lock_page poll_page
long_page_refused e s i p h =
    let no_send = send_page_long e s p h in (λ r. ground arith, λ r. ground arith)

-- Two threads queue for a page, and the first writes a text that fits the page and a message, with no
-- zero in it. Then the second is at the front, the page stays locked, and when nothing fails the
-- second's next poll sends it exactly that text and lets it write.
pub next_writer :
    (e : Env) (s : Server) (i j p : ℕ) (c : Bytes) (rest : List ℕ)
    → HasPages s
    → p < s.num_pages
    → (s.page_table p).queue ≡ i ∷ j ∷ rest
    → Free 0 c
    → length c ≤ s.page_size
    → length c < 510
    → let s' = (write_page e s i (pos p) (some c)).server in
      (poll_page all_well s' j p
        ≡ record { server = s'; sent = format (pos 0) c ∷ []; next = writing p })
      × (s'.page_table p ≡ record { lock = (s.page_table p).lock; queue = j ∷ rest })
unfolding poll_page
next_writer e s i j p c rest sized h q free fits short =
    let text = contents-written e s i p c (j ∷ rest) sized h q free fits in
    let entry = entry-written e s i p c (j ∷ rest) h q in
    let kept : (written e s i p c (j ∷ rest)).page_table p
        ≡ record { lock = (s.page_table p).lock; queue = j ∷ rest } =
      entry ∙ ground arith in
    (
      front_granted (written e s i p c (j ∷ rest)) j p rest (ap (λ (x : PageEntry). x.queue) kept)
            (rw text short)
          ∙ rw text,
      kept,
    )

-- The last in the queue writes such a text: the page is free, and when nothing fails the next request
-- for it, by any socket, locks it, is sent exactly that text, and may write.
pub last_writer :
    (e : Env) (s : Server) (i k p : ℕ) (c : Bytes)
    → HasPages s
    → p < s.num_pages
    → (s.page_table p).queue ≡ i ∷ []
    → Free 0 c
    → length c ≤ s.page_size
    → length c < 510
    → let s' = (write_page e s i (pos p) (some c)).server in
      (s'.page_table p ≡ record { lock = 0; queue = [] })
      × (read_lock_page all_well s' k (pos p) ≡ record {
        server = record s' {
          page_table = update s'.page_table p (record { lock = 1; queue = k ∷ [] });
        };
        sent = format (pos 0) c ∷ [];
        next = writing p;
      })
unfolding read_lock_page
last_writer e s i k p c sized h q free fits short =
    let text = contents-written e s i p c [] sized h q free fits in
    let entry : (written e s i p c []).page_table p ≡ free_page =
      entry-written e s i p c [] h q ∙ ground arith in
    (
      entry,
      free_granted (written e s i p c []) k p (rw (num_pages-written e s i p c [] h q) h) entry
            (rw text short)
          ∙ rw text,
    )
