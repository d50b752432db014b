-- ===== src/PageServer/ClientSession.antt =====
-- client.c and newServer.c of tp8-memoria-compartida-distribuida, over one write of a free page.
use so_distribuidos.Prelude.{
  update, ℕ, ◌≤◌, ◌<◌, true, inl, inr, Bool-cases, some, List, [], ◌∷◌, ◌++◌, ◌≡◌, refl, sym, ap,
  ◌∙◌, arith, Bytes, Free, pos, length, take-all, print_int, print_nat, c_str, ◌==◌,
}
use so_distribuidos.PageServer.Message.{max_msg, format}
use so_distribuidos.PageServer.Message.RoundTrip.{
  send-format, recv-format, recv-format_short, recv_command-format, parse-format,
}
use so_distribuidos.PageServer.Server.{
  PageEntry, Server, connected, writing, finished, Reply, free_page, page_content, write_owned,
  finish_write, handle_client, release_entry,
}
use so_distribuidos.PageServer.Memory.{HasPages}
use so_distribuidos.PageServer.HandOver.{
  all_well, contents, write_page-owned, contents-written, entry-written, free_granted,
}
use so_distribuidos.PageServer.Threads.{thread_step}
use so_distribuidos.PageServer.Client.{Arrival, chomp, updated, handle_write_operation}

-- A message that is received while every malloc succeeds.
abbrev pub arrival : Bytes → Arrival
arrival m = record { buffer_alloc = true; content_alloc = true; input = some m }

abbrev pub arrivals : List Bytes → List Arrival
arrivals [] = []
arrivals (m ∷ ms) = arrival m ∷ arrivals ms

-- What the client sends to lock the page p, and to write the text c.
abbrev pub lock_message : ℕ → Bytes
lock_message p = format (pos 1) (print_int (pos p))

abbrev pub write_message : ℕ → Bytes → Bytes
write_message p c = format (pos 2) (format (pos p) c)

chomp-line : (c : Bytes) → chomp (c ++ 10 ∷ []) ≡ c
unfolding chomp
chomp-line [] = refl
chomp-line (x ∷ []) = refl
chomp-line (x ∷ y ∷ c) = ap (◌∷◌ x) (chomp-line (y ∷ c))

-- The two steps of the thread of the socket k.
abbrev pub asked : Server → ℕ → ℕ → Reply
asked s k p = thread_step all_well true (some (lock_message p)) s k connected

abbrev pub answered : Server → ℕ → ℕ → Bytes → Reply
answered s k p c =
    thread_step all_well true (some (write_message p c)) (asked s k p).server k (asked s k p).next

abbrev holding : Server → ℕ → ℕ → Server
holding s k p = record s {
  page_table = update s.page_table p (record { lock = 1; queue = k ∷ [] });
}

-- The client, when it is sent a page's text and then a confirmation.
client_lem :
    (p : ℕ) (text c : Bytes)
    → Free 0 text
    → length text < 510
    → length (print_int (pos p)) ≤ 11
    → length (write_message p c) < max_msg
    → handle_write_operation true true
        (some (c ++ 10 ∷ []))
        (arrivals (format (pos 0) text ∷ format (pos 2) [] ∷ []))
        (pos p)
      ≡ (lock_message p ∷ write_message p c ∷ [], updated)
unfolding handle_write_operation print_int print_nat
client_lem p text c nul short digits fits =
    rw
      (
        take-all 15 (print_int (pos p)) (omega (arith, digits)),
        send-format 1 (print_int (pos p)) (omega arith) (omega (arith, digits)),
        recv_command-format 0 text nul (omega (arith, short)),
        parse-format 0 text,
        chomp-line c,
        send-format 2 (format (pos p) c) (omega arith) fits,
        recv_command-format 2 [] tt (omega arith),
        parse-format 2 [],
      )
      refl

c_str-IsFree : (b : Bytes) → Free 0 (c_str b)
unfolding c_str
c_str-IsFree [] = tt
c_str-IsFree (x ∷ b) = elim (Bool-cases (x == 0)) [
  | inl e ↦ rw e tt
  | inr e ↦ rw e (λ d. ground arith, c_str-IsFree b)
]

module _ (s : Server) (k p : ℕ) (sized : HasPages s) (inside : p < s.num_pages)
    (free : s.page_table p ≡ free_page) (old : length (contents s p) < 510)
    (short : length (print_int (pos p)) ≤ 11) where
  asked_lem : asked s k p ≡ record {
    server = holding s k p;
    sent = format (pos 0) (contents s p) ∷ [];
    next = writing p;
  }
  unfolding thread_step handle_client print_int print_nat
  asked_lem =
      ap (handle_client all_well s k) (recv-format_short 1 (pos p) (omega (arith, short)))
      ∙ free_granted s k p inside free old

  held : (holding s k p).page_table p ≡ record { lock = 1; queue = k ∷ [] }
  held = ground arith

  queued : ((holding s k p).page_table p).queue ≡ k ∷ []
  queued = ap (λ (x : PageEntry). x.queue) held

  answered_lem :
      (c : Bytes)
      → Free 0 c
      → length (write_message p c) < max_msg
      → answered s k p c ≡ write_owned all_well (holding s k p) p c
  unfolding thread_step finish_write
  answered_lem c nul fits =
      ap (λ (r : Reply). thread_step all_well true (some (write_message p c)) r.server k r.next)
        asked_lem
      ∙ ap (finish_write all_well (holding s k p) k) (recv-format 2 (pos p) c nul fits)
      ∙ write_page-owned all_well (holding s k p) k p c [] inside queued

-- A client that writes a page, and the server's thread for it, when each message is received by
-- itself and nothing fails. When the page is free, its number has at most 11 digits, its text and
-- the new one fit a message, and the new one has no zero and fits the page: the client sends just
-- the two messages that the thread takes, it ends with the page updated, the thread ends too, and
-- then the page has the new text and is free again.
pub write_session :
    (s : Server) (k p : ℕ) (c : Bytes)
    → HasPages s
    → p < s.num_pages
    → s.page_table p ≡ free_page
    → length (contents s p) < 510
    → length (print_int (pos p)) ≤ 11
    → Free 0 c
    → length c ≤ s.page_size
    → length (write_message p c) < max_msg
    → let r1 = asked s k p in
      let r2 = answered s k p c in
      (handle_write_operation true true
          (some (c ++ 10 ∷ []))
          (arrivals (r1.sent ++ r2.sent))
          (pos p)
        ≡ (lock_message p ∷ write_message p c ∷ [], updated))
      × (r2.next ≡ finished)
      × (contents r2.server p ≡ c)
      × (r2.server.page_table p ≡ free_page)
unfolding write_owned print_int print_nat
write_session s k p c sized inside free old short nul room fits =
    let e1 = asked_lem s k p sized inside free old short in
    let e2 = answered_lem s k p sized inside free old short c nul fits in
    let q = queued s k p sized inside free old short in
    let sent : (asked s k p).sent ++ (answered s k p c).sent
        ≡ format (pos 0) (contents s p) ∷ format (pos 2) [] ∷ [] =
      ap (λ (r : Reply). r.sent ++ (answered s k p c).sent) e1
      ∙ ap (λ (r : Reply). format (pos 0) (contents s p) ∷ r.sent) e2
      ∙ ap (λ o. format (pos 0) (contents s p) ∷ o.1)
          (send-format 2 [] (omega arith) (omega arith)) in
    let w = write_page-owned all_well (holding s k p) k p c [] inside q in
    (
      ap (λ m. handle_write_operation true true (some (c ++ 10 ∷ [])) (arrivals m) (pos p)) sent
          ∙ client_lem p (contents s p) c (c_str-IsFree (page_content s p)) old short fits,
      ap (λ (r : Reply). r.next) e2,
      ap (λ (r : Reply). contents r.server p) (e2 ∙ sym w)
          ∙ contents-written all_well (holding s k p) k p c [] sized inside q nul room,
      ap (λ (r : Reply). r.server.page_table p) (e2 ∙ sym w)
          ∙ entry-written all_well (holding s k p) k p c [] inside q
          ∙ ap release_entry (held s k p sized inside free old short),
    )
