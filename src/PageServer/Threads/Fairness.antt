-- ===== src/PageServer/Threads/Fairness.antt =====
-- The queue of a page is first come, first served: nobody is let in before a thread that waits.
use so_distribuidos.Prelude.{
  ℕ, suc, ◌≤◌, Bool, true, false, some, List, [], ◌∷◌, ◌++◌, ◌≡◌, ◌≢◌, inl, inr, refl, arith, ◌==◌,
  if◌then◌else◌, head?, Member,
}
use so_distribuidos.PageServer.Server.{PageEntry, PageTable, Pc, waiting, release_entry}
use so_distribuidos.PageServer.Threads.{System, Step, accept, run, NodeAllocated}
use so_distribuidos.PageServer.Threads.Contract.{
  Effect, quit, join, lock, turn, wait, release, thread_step-Effect,
}
use so_distribuidos.PageServer.Threads.Exclusion.{IsSafe}

-- How many are in front of the first entry of `i`.
abbrev pub position : ℕ → List ℕ → ℕ
position i [] = 0
position i (x ∷ q) = if x == i then 0 else suc (position i q)

position-append : (q : List ℕ) (i j : ℕ) → Member j q → position j (q ++ i ∷ []) ≡ position j q
position-append [] i j m = elim m [ ]
position-append (x ∷ q) i j (inl e) = ground arith
position-append (x ∷ q) i j (inr m) = ground (arith, position-append q i j m)

position-release :
    (l i j : ℕ) (q : List ℕ)
    → head? q ≡ some i
    → j ≢ i
    → position j (release_entry (record { lock = l; queue = q })).queue ≤ position j q
position-release l i j [] h n = cc
position-release l i j (x ∷ []) h n = omega arith
position-release l i j (x ∷ y ∷ q) h n = ground arith

if_position :
    (b : Bool) (j n : ℕ) (e f : PageEntry)
    → (b ≡ true → position j e.queue ≤ n)
    → (b ≡ false → position j f.queue ≤ n)
    → position j (if b then e else f).queue ≤ n
if_position true j n e f h k = h refl
if_position false j n e f h k = k refl

Effect-position :
    (t t' : PageTable) (i : ℕ) (pc pc' : Pc) (j p : ℕ)
    → Effect i t pc t' pc'
    → Member j (t p).queue
    → (i ≡ j → pc' ≡ waiting p)
    → position j (t' p).queue ≤ position j (t p).queue
Effect-position t t' i pc pc' j p (quit e d) m w = rw e (omega arith)
Effect-position t t' i pc pc' j p (join q l e d) m w = rw e (
    if_position (q == p) j _ _ _ (λ b. ground (arith, position-append (t p).queue i j m))
      (λ b. omega arith))
Effect-position t t' i pc pc' j p (lock q l e d) m w = rw e (
    if_position (q == p) j _ _ _ (λ b. ground (arith, position-append (t p).queue i j m))
      (λ b. omega arith))
Effect-position t t' i pc pc' j p (turn q u h e d) m w = rw e (omega arith)
Effect-position t t' i pc pc' j p (wait q u h e d) m w = rw e (omega arith)
Effect-position t t' i pc pc' j p (release q h e d) m w = rw e (
    if_position (q == p) j _ _ _ (λ b. ground (arith, position-release (t p).lock i j (t p).queue))
      (λ b. omega arith))

-- In a safe state (as all are that a fresh server reaches while malloc gives add_to_queue its nodes):
-- while a thread goes on waiting for a page, no step of any thread in which malloc gives add_to_queue
-- its node, and no new connection, puts more entries in front of it in the page's queue.
pub no_overtaking :
    {sys sys' : System} (j p : ℕ)
    → IsSafe sys
    → (st : Step sys sys') → NodeAllocated st
    → sys.threads j ≡ waiting p
    → sys'.threads j ≡ waiting p
    → position j (sys'.server.page_table p).queue ≤ position j (sys.server.page_table p).queue
no_overtaking j p s (accept i h) a w w' = omega arith
no_overtaking {sys} j p s (run i e alloc input) h w w' =
    Effect-position sys.server.page_table _ i (sys.threads i) _ j p
      (thread_step-Effect e alloc input sys.server i (sys.threads i) h) (s.queued j p w)
      (λ k. ground arith)
