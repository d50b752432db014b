-- ===== src/PageServer/Threads/Exclusion.antt =====
-- One writer for each page, and no waiting thread forgotten, in every state that the threads reach.
use so_distribuidos.Prelude.{
  update, ℕ, Bool, true, false, some, List, [], ◌∷◌, ◌++◌, ◌≡◌, ◌≢◌, ◌⊎◌, inl, inr, refl, arith,
  Bytes, ◌==◌, if◌then◌else◌, head?, Member,
}
use so_distribuidos.PageServer.Server.{
  PageEntry, PageTable, Pc, waiting, writing, release_entry, init,
}
use so_distribuidos.PageServer.Threads.{
  System, start, Step, accept, run, Reach, here, next, NodeAllocated, NodesAllocated,
}
use so_distribuidos.PageServer.Threads.Contract.{
  Effect, quit, join, lock, turn, wait, release, thread_step-Effect,
}

-- A page is locked exactly while its queue holds someone.
abbrev pub LockMatches : PageEntry → Type 0
LockMatches e = ((e.lock ≡ 1) × (e.queue ≢ [])) ⊎ ((e.lock ≡ 0) × (e.queue ≡ []))

-- Whoever may write a page is at the front of its queue, and whoever waits for it is in that queue.
pub record IsSound (t : PageTable) (threads : ℕ → Pc) : Type 0 where
  pub matches : (p : ℕ) → LockMatches (t p)
  pub held : (i p : ℕ) → threads i ≡ writing p → head? (t p).queue ≡ some i
  pub queued : (i p : ℕ) → threads i ≡ waiting p → Member i (t p).queue

append_some : (q : List ℕ) (i : ℕ) → (q ++ i ∷ []) ≢ []
append_some [] i e = cc
append_some (x ∷ q) i e = cc

head?-append : (q : List ℕ) (i j : ℕ) → head? q ≡ some j → head? (q ++ i ∷ []) ≡ some j
head?-append [] i j h = cc
head?-append (x ∷ q) i j h = h

Member-append : (q : List ℕ) (i j : ℕ) → Member j q → Member j (q ++ i ∷ [])
Member-append [] i j h = elim h [ ]
Member-append (x ∷ q) i j (inl e) = inl e
Member-append (x ∷ q) i j (inr m) = inr (Member-append q i j m)

Member-append_self : (q : List ℕ) (i : ℕ) → Member i (q ++ i ∷ [])
Member-append_self [] i = inl refl
Member-append_self (x ∷ q) i = inr (Member-append_self q i)

in_append : (q : List ℕ) (i j : ℕ) → (j ≡ i) ⊎ Member j q → Member j (q ++ i ∷ [])
in_append q i j (inl e) = rw e (Member-append_self q i)
in_append q i j (inr m) = Member-append q i j m

module _ (l i j : ℕ) where
  release-LockMatches :
      (q : List ℕ) → l ≡ 1 → LockMatches (release_entry (record { lock = l; queue = q }))
  release-LockMatches [] h = inr (refl, refl)
  release-LockMatches (x ∷ []) h = inr (refl, refl)
  release-LockMatches (x ∷ y ∷ q) h = inl (h, λ e. cc)

  release-Member :
      (q : List ℕ)
      → head? q ≡ some i
      → j ≢ i
      → Member j q
      → Member j (release_entry (record { lock = l; queue = q })).queue
  release-Member [] h n m = elim m [ ]
  release-Member (x ∷ []) h n (inl e) = absurd (n (ground arith))
  release-Member (x ∷ []) h n (inr m) = elim m [ ]
  release-Member (x ∷ y ∷ q) h n (inl e) = absurd (n (ground arith))
  release-Member (x ∷ y ∷ q) h n (inr m) = m

if_LockMatches :
    (b : Bool) {e f : PageEntry} → LockMatches e → LockMatches f → LockMatches (if b then e else f)
if_LockMatches true h k = h
if_LockMatches false h k = k

if_Member :
    (b : Bool) (j : ℕ) (e f : PageEntry)
    → (b ≡ true → Member j e.queue)
    → (b ≡ false → Member j f.queue)
    → Member j (if b then e else f).queue
if_Member true j e f h k = h refl
if_Member false j e f h k = k refl

locked_at : {e : PageEntry} {i : ℕ} → head? e.queue ≡ some i → LockMatches e → e.lock ≡ 1
locked_at h (inl m) = m.0
locked_at {e} {i} h (inr m) = absurd (nothing_at e.queue i m.1 h)
  where
    nothing_at : (q : List ℕ) (i : ℕ) → q ≡ [] → head? q ≡ some i → ⊥
    nothing_at [] i e h = cc
    nothing_at (x ∷ q) i e h = cc

module _ {t t' : PageTable} {threads : ℕ → Pc} (i : ℕ) {pc' : Pc} (s : IsSound t threads) where
  matches-step : Effect i t (threads i) t' pc' → (q : ℕ) → LockMatches (t' q)
  matches-step (quit e d) q = rw e (s.matches q)
  matches-step (join p l e d) q =
      rw e (if_LockMatches (p == q) (inl (refl, append_some (t p).queue i)) (s.matches q))
  matches-step (lock p l e d) q =
      rw e (if_LockMatches (p == q) (inl (refl, append_some (t p).queue i)) (s.matches q))
  matches-step (turn p w h e d) q = rw e (s.matches q)
  matches-step (wait p w h e d) q = rw e (s.matches q)
  matches-step (release p h e d) q = rw e (
      if_LockMatches (p == q)
        (release-LockMatches (t p).lock i i (t p).queue (locked_at h (s.matches p))) (s.matches q))

  held-step :
      Effect i t (threads i) t' pc'
      → (j q : ℕ) → update threads i pc' j ≡ writing q
      → head? (t' q).queue ≡ some j
  held-step (quit e d) j q w = ground (arith, s.held j q)
  held-step (join p l e d) j q w = ground (arith, s.held j q, head?-append (t p).queue i j)
  held-step (lock p l e d) j q w =
      ground (arith, s.held j q, s.matches p, head?-append (t p).queue i j)
  held-step (turn p u h e d) j q w = ground (arith, s.held j q)
  held-step (wait p u h e d) j q w = ground (arith, s.held j q)
  held-step (release p h e d) j q w = ground (arith, s.held j q)

  queued-step :
      Effect i t (threads i) t' pc'
      → (j q : ℕ) → update threads i pc' j ≡ waiting q
      → Member j (t' q).queue
  queued-step (quit e d) j q w = rw e (s.queued j q (ground arith))
  queued-step (join p l e d) j q w = rw e (
      if_Member (p == q) j _ _ (λ b. in_append (t p).queue i j (ground (arith, s.queued j p)))
        (λ b. ground (arith, s.queued j q)))
  queued-step (lock p l e d) j q w = rw e (
      if_Member (p == q) j _ _ (λ b. in_append (t p).queue i j (ground (arith, s.queued j p)))
        (λ b. ground (arith, s.queued j q)))
  queued-step (turn p u h e d) j q w = rw e (s.queued j q (ground arith))
  queued-step (wait p u h e d) j q w = rw e (s.queued j q (ground arith))
  queued-step (release p h e d) j q w = rw e (
      if_Member (p == q) j _ _
        (λ b.
          release-Member (t p).lock i j (t p).queue h (λ k. ground arith)
            (s.queued j p (ground arith)))
        (λ b. s.queued j q (ground arith)))

  Effect-IsSound : Effect i t (threads i) t' pc' → IsSound t' (update threads i pc')
  Effect-IsSound f = record { matches = matches-step f; held = held-step f; queued = queued-step f }

abbrev pub IsSafe : System → Type 0
IsSafe sys = IsSound sys.server.page_table sys.threads

pub start-IsSafe :
    (page_size num_pages : ℕ) (memory : Bytes) → IsSafe (start (init page_size num_pages memory))
start-IsSafe page_size num_pages memory = record {
  matches = λ p. inr (refl, refl);
  held = λ i p e. cc;
  queued = λ i p e. cc;
}

pub Step-IsSafe :
    {sys sys' : System} → IsSafe sys → (st : Step sys sys') → NodeAllocated st → IsSafe sys'
Step-IsSafe s (accept i h) a = record {
  matches = s.matches;
  held = λ j p e. s.held j p (ground arith);
  queued = λ j p e. s.queued j p (ground arith);
}
Step-IsSafe {sys} s (run i e alloc input) h =
    Effect-IsSound i s (thread_step-Effect e alloc input sys.server i (sys.threads i) h)

-- From a safe state, every state that the threads reach is safe, in any order of steps and whatever
-- clients send, as long as malloc gives add_to_queue its node in every step: the lock of a page is
-- set exactly while its queue holds someone, whoever may write it is at the front, and whoever waits
-- for it is in the queue.
pub Reach-IsSafe :
    {sys sys' : System} → IsSafe sys → (r : Reach sys sys') → NodesAllocated r → IsSafe sys'
Reach-IsSafe s here a = s
Reach-IsSafe s (next r st) a = Step-IsSafe (Reach-IsSafe s r a.0) st a.1

-- From a fresh server, with any sizes and memory contents, and in any order of steps in which malloc
-- gives add_to_queue its node: two threads that may both write the same page are the same thread.
pub mutual_exclusion :
    (page_size num_pages : ℕ) (memory : Bytes) {sys : System}
    → (r : Reach (start (init page_size num_pages memory)) sys) → NodesAllocated r
    → (i j p : ℕ) → sys.threads i ≡ writing p
    → sys.threads j ≡ writing p
    → i ≡ j
mutual_exclusion page_size num_pages memory r n i j p a b =
    let s = Reach-IsSafe (start-IsSafe page_size num_pages memory) r n in
    ground (arith, s.held i p, s.held j p)
