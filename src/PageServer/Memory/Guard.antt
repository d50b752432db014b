-- ===== src/PageServer/Memory/Guard.antt =====
-- Only the thread at the front of a page's queue changes the page, in newServer.c.
use so_distribuidos.Prelude.{
  ℕ, subst, ◌*◌, ◌<◌, Bool, true, Option, none, some, List, [], ◌∷◌, ◌≡◌, ◌≢◌, inl, inr, refl, ◌∙◌,
  arith, Bytes, ℤ, pos, negsuc, eqb_ℤ, Bool-cases, head?, length-overwrite,
}
use so_distribuidos.PageServer.Message.{Incoming, Request}
use so_distribuidos.PageServer.Server.{
  Server, Env, Pc, connected, waiting, writing, finished, Reply, page_content, fill_page, at_front,
  valid_page, enqueue, grant, lock_valid, read_valid, read_page, read_lock_page, poll_page,
  write_owned, write_valid, write_page, finish_write, handle_client,
}
use so_distribuidos.PageServer.Threads.{thread_step}
use so_distribuidos.PageServer.Memory.{HasPages, written_in_range, write_owned_ne}

-- What the thread of socket `i` may do to the memory: nothing, or write a page whose queue it heads.
data MemoryEffect (i : ℕ) (s t : Server) : Type 0 where
  kept :
      t.shared_memory ≡ s.shared_memory
      → t.page_size ≡ s.page_size
      → t.num_pages ≡ s.num_pages
      → MemoryEffect i s t
  wrote :
      (e : Env) (p : ℕ) (c : Bytes)
      → p < s.num_pages
      → head? (s.page_table p).queue ≡ some i
      → t ≡ (write_owned e s p c).server
      → MemoryEffect i s t

module _ (e : Env) (s : Server) (i : ℕ) where
  abbrev Guarded : Reply → Type 0
  Guarded r = MemoryEffect i s r.server

  lock_valid-Guarded : (o : Option ℕ) → Guarded (lock_valid e s i o)
  unfolding lock_valid enqueue grant
  lock_valid-Guarded none = kept refl refl refl
  lock_valid-Guarded (some p) = kept (ground arith) (ground arith) (ground arith)

  read_valid-Guarded : (o : Option ℕ) → Guarded (read_valid s o)
  unfolding read_valid
  read_valid-Guarded none = kept refl refl refl
  read_valid-Guarded (some p) = kept refl refl refl

  poll_page-Guarded : (p : ℕ) → Guarded (poll_page e s i p)
  unfolding poll_page
  poll_page-Guarded p = kept (ground arith) (ground arith) (ground arith)

  front_of : (q : List ℕ) → at_front q i ≡ true → head? q ≡ some i
  front_of [] h = cc
  front_of (x ∷ q) h = ground arith

  write_valid-Guarded :
      (o : Option ℕ) (c : Option Bytes)
      → ((p : ℕ) → o ≡ some p → p < s.num_pages)
      → Guarded (write_valid e s i o c)
  unfolding write_valid
  write_valid-Guarded none c v = kept refl refl refl
  write_valid-Guarded (some p) none v = kept refl refl refl
  write_valid-Guarded (some p) (some c) v = elim (Bool-cases (at_front (s.page_table p).queue i)) [
    | inl mine ↦ rw mine (wrote e p c (v p refl) (front_of _ mine) refl)
    | inr other ↦ rw other (kept refl refl refl)
  ]

  valid_page-lt : (z : ℤ) (p : ℕ) → valid_page s z ≡ some p → p < s.num_pages
  valid_page-lt (pos n) p h = ground arith
  valid_page-lt (negsuc n) p h = cc

  finish_write-Guarded : (r : Request) → Guarded (finish_write e s i r)
  unfolding finish_write write_page
  finish_write-Guarded r = elim (Bool-cases (eqb_ℤ r.command (pos 2))) [
    | inl w ↦
        rw w (write_valid-Guarded (valid_page s r.page_num) r.content (valid_page-lt r.page_num))
    | inr n ↦ rw n (kept refl refl refl)
  ]

  handle_client-Guarded : (r : Request) → Guarded (handle_client e s i r)
  unfolding handle_client read_page read_lock_page
  handle_client-Guarded r = elim (Bool-cases (eqb_ℤ r.command (pos 0))) [
    | inl z ↦ rw z (read_valid-Guarded (valid_page s r.page_num))
    | inr n ↦ elim (Bool-cases (eqb_ℤ r.command (pos 1))) [
      | inl o ↦ rw (n, o) (lock_valid-Guarded (valid_page s r.page_num))
      | inr m ↦ rw (n, m) (kept refl refl refl)
    ]
  ]

thread_step-MemoryEffect :
    (e : Env) (alloc : Bool) (input : Incoming) (s : Server) (i : ℕ) (pc : Pc)
    → MemoryEffect i s (thread_step e alloc input s i pc).server
unfolding thread_step
thread_step-MemoryEffect e alloc input s i connected = handle_client-Guarded e s i _
thread_step-MemoryEffect e alloc input s i (waiting p) = poll_page-Guarded e s i p
thread_step-MemoryEffect e alloc input s i (writing p) = finish_write-Guarded e s i _
thread_step-MemoryEffect e alloc input s i finished = kept refl refl refl

unguarded :
    (i q : ℕ) (s t : Server)
    → HasPages s
    → head? (s.page_table q).queue ≢ some i
    → MemoryEffect i s t
    → page_content t q ≡ page_content s q
unfolding page_content
unguarded i q s t sized n (kept m z k) = rw (m, z)
unguarded i q s t sized n (wrote e p c h front d) = rw d (
    write_owned_ne e s sized p q c h
      (λ k. n (subst (λ j. head? (s.page_table j).queue ≡ some i) k front)))

-- A step of a thread that is not at the front of a page's queue leaves the page's bytes as they
-- were, whatever the thread received, and wherever it stands.
pub thread_step-page_content :
    (e : Env) (alloc : Bool) (input : Incoming) (s : Server) (i : ℕ) (pc : Pc) (p : ℕ)
    → HasPages s
    → head? (s.page_table p).queue ≢ some i
    → page_content (thread_step e alloc input s i pc).server p ≡ page_content s p
thread_step-page_content e alloc input s i pc p sized n =
    unguarded i p s _ sized n (thread_step-MemoryEffect e alloc input s i pc)

effect-HasPages : (i : ℕ) (s t : Server) → HasPages s → MemoryEffect i s t → HasPages t
unfolding write_owned
effect-HasPages i s t sized (kept m z k) = rw (m, z, k) sized
effect-HasPages i s t sized (wrote e p c h front d) = rw d (
    length-overwrite s.shared_memory (p * s.page_size) (fill_page s.page_size c)
      (written_in_range e s sized p c h)
    ∙ sized)

-- No step changes the size of the segment.
pub thread_step-HasPages :
    (e : Env) (alloc : Bool) (input : Incoming) (s : Server) (i : ℕ) (pc : Pc)
    → HasPages s
    → HasPages (thread_step e alloc input s i pc).server
thread_step-HasPages e alloc input s i pc sized =
    effect-HasPages i s _ sized (thread_step-MemoryEffect e alloc input s i pc)
