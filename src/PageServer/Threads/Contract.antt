-- ===== src/PageServer/Threads/Contract.antt =====
-- What a step may do to the locks: the contract of a queue lock, and that newServer.c meets it.
use so_distribuidos.Prelude.{
  update, ℕ, Bool, true, false, Option, none, some, List, [], ◌∷◌, ◌++◌, ◌≡◌, ◌≢◌, refl, arith,
  Bytes, ℤ, pos, ◌==◌, head?, inl, inr, Bool-cases, eqb_ℤ,
}
use so_distribuidos.PageServer.Message.{Incoming, Request, send_command}
use so_distribuidos.PageServer.Server.{
  PageTable, Server, Env, Pc, connected, waiting, writing, finished, Reply, add_to_queue,
  release_entry, valid_page, read_page, read_lock_page, poll_page, send_page, write_page,
  finish_write, enqueue, grant, lock_valid, read_valid, write_valid, at_front, handle_client,
}
use so_distribuidos.PageServer.Threads.{thread_step}

-- How the thread of socket `i` may change the page table `t`, and where it goes: it leaves the table
-- alone and ends; it joins the queue of a locked page; it locks a free page; it finds itself at the
-- front, or not; or, at the front of a page's queue, it leaves that queue and ends.
pub data Effect (i : ℕ) (t : PageTable) (pc : Pc) (t' : PageTable) (pc' : Pc) : Type 0 where
  quit : t' ≡ t → pc' ≡ finished → Effect i t pc t' pc'
  join :
      (p : ℕ)
      → (t p).lock ≡ 1
      → t' ≡ update t p (record { lock = 1; queue = (t p).queue ++ i ∷ [] })
      → pc' ≡ waiting p
      → Effect i t pc t' pc'
  lock :
      (p : ℕ)
      → (t p).lock ≢ 1
      → t' ≡ update t p (record { lock = 1; queue = (t p).queue ++ i ∷ [] })
      → pc' ≡ writing p
      → Effect i t pc t' pc'
  turn :
      (p : ℕ)
      → pc ≡ waiting p
      → head? (t p).queue ≡ some i
      → t' ≡ t
      → pc' ≡ writing p
      → Effect i t pc t' pc'
  wait :
      (p : ℕ)
      → pc ≡ waiting p
      → head? (t p).queue ≢ some i
      → t' ≡ t
      → pc' ≡ waiting p
      → Effect i t pc t' pc'
  release :
      (p : ℕ)
      → head? (t p).queue ≡ some i
      → t' ≡ update t p (release_entry (t p))
      → pc' ≡ finished
      → Effect i t pc t' pc'

module _ (e : Env) (s : Server) (i : ℕ) (pc : Pc) where
  -- The reply is one that the contract allows.
  abbrev Allowed : Reply → Type 0
  Allowed r = Effect i s.page_table pc r.server.page_table r.next

  enqueue-Allowed :
      (p : ℕ) → e.node_alloc ≡ true → (s.page_table p).lock ≡ 1 → Allowed (enqueue e s i p)
  unfolding enqueue add_to_queue
  enqueue-Allowed p h l = elim (Bool-cases (send_command (pos 1) (some []) e.sent).0) [
    | inl ok ↦ rw (ok, h) (join p l (cc l) refl)
    | inr bad ↦ rw bad (quit refl refl)
  ]

  grant-Allowed :
      (p : ℕ) → e.node_alloc ≡ true → (s.page_table p).lock ≢ 1 → Allowed (grant e s i p)
  unfolding grant add_to_queue
  grant-Allowed p h l = elim (Bool-cases (send_page e s p).0) [
    | inl ok ↦ rw (ok, h) (lock p l refl refl)
    | inr bad ↦ rw bad (quit refl refl)
  ]

  lock_valid-Allowed : (o : Option ℕ) → e.node_alloc ≡ true → Allowed (lock_valid e s i o)
  unfolding lock_valid
  lock_valid-Allowed none h = quit refl refl
  lock_valid-Allowed (some p) h = elim (Bool-cases ((s.page_table p).lock == 1)) [
    | inl busy ↦ rw busy (enqueue-Allowed p h (ground arith))
    | inr clear ↦ rw clear (grant-Allowed p h (ground arith))
  ]

  read_lock_page-Allowed : (z : ℤ) → e.node_alloc ≡ true → Allowed (read_lock_page e s i z)
  unfolding read_lock_page
  read_lock_page-Allowed z = lock_valid-Allowed (valid_page s z)

  read_valid-Allowed : (o : Option ℕ) → Allowed (read_valid s o)
  unfolding read_valid
  read_valid-Allowed none = quit refl refl
  read_valid-Allowed (some p) = quit refl refl

  front_of : (q : List ℕ) → at_front q i ≡ true → head? q ≡ some i
  front_of [] h = cc
  front_of (x ∷ q) h = ground arith

  not_front_of : (q : List ℕ) → at_front q i ≡ false → head? q ≢ some i
  not_front_of [] h e = cc
  not_front_of (x ∷ q) h e = ground arith

  write_valid-Allowed : (o : Option ℕ) (c : Option Bytes) → Allowed (write_valid e s i o c)
  unfolding write_valid
  write_valid-Allowed none c = quit refl refl
  write_valid-Allowed (some p) none = quit refl refl
  write_valid-Allowed (some p) (some c) = elim (Bool-cases (at_front (s.page_table p).queue i)) [
    | inl mine ↦ rw mine (release p (front_of _ mine) refl refl)
    | inr other ↦ rw other (quit refl refl)
  ]

  finish_write-Allowed : (r : Request) → Allowed (finish_write e s i r)
  unfolding finish_write write_page
  finish_write-Allowed r = elim (Bool-cases (eqb_ℤ r.command (pos 2))) [
    | inl w ↦ rw w (write_valid-Allowed (valid_page s r.page_num) r.content)
    | inr n ↦ rw n (quit refl refl)
  ]

  handle_client-Allowed : (r : Request) → e.node_alloc ≡ true → Allowed (handle_client e s i r)
  unfolding handle_client read_page
  handle_client-Allowed r h = elim (Bool-cases (eqb_ℤ r.command (pos 0))) [
    | inl z ↦ rw z (read_valid-Allowed (valid_page s r.page_num))
    | inr n ↦ elim (Bool-cases (eqb_ℤ r.command (pos 1))) [
      | inl o ↦ rw (n, o) (read_lock_page-Allowed r.page_num h)
      | inr m ↦ rw (n, m) (quit refl refl)
    ]
  ]

poll_page-Allowed : (e : Env) (s : Server) (i p : ℕ) → Allowed e s i (waiting p) (poll_page e s i p)
unfolding poll_page
poll_page-Allowed e s i p = elim (Bool-cases (at_front (s.page_table p).queue i)) [
  | inr n ↦ rw n (wait p refl (not_front_of e s i (waiting p) _ n) refl refl)
  | inl f ↦ elim (Bool-cases (send_page e s p).0) [
    | inl ok ↦ rw (f, ok) (turn p refl (front_of e s i (waiting p) _ f) refl refl)
    | inr bad ↦ rw (f, bad) (quit refl refl)
  ]
]

-- Each step of a thread changes the page table only in a way that the contract of the queue lock
-- allows, provided that a queue node can be allocated: whatever is received, whether or not send()
-- and the other calls of malloc() succeed.
pub thread_step-Effect :
    (e : Env) (alloc : Bool) (input : Incoming) (s : Server) (i : ℕ) (pc : Pc)
    → e.node_alloc ≡ true
    → let r = thread_step e alloc input s i pc in
      Effect i s.page_table pc r.server.page_table r.next
unfolding thread_step
thread_step-Effect e alloc input s i connected h = handle_client-Allowed e s i connected _ h
thread_step-Effect e alloc input s i (waiting p) h = poll_page-Allowed e s i p
thread_step-Effect e alloc input s i (writing p) h = finish_write-Allowed e s i (writing p) _
thread_step-Effect e alloc input s i finished h = quit refl refl
