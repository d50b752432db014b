-- ===== src/PageServer/Threads/Abandon.antt =====
-- A writer that goes away leaves its page locked for good.
use so_distribuidos.Prelude.{
  ℕ, Bool, true, some, List, [], ◌∷◌, ◌++◌, ◌≡◌, ◌≢◌, inl, inr, refl, ◌∙◌, arith, Bytes, ◌==◌,
  head?, ap, false, Bool-cases, eqb_ℤ, pos,
}
use so_distribuidos.PageServer.Message.{Incoming, recv_command_page_num_content}
use so_distribuidos.PageServer.Server.{
  PageTable, Server, Env, Pc, connected, waiting, writing, finished, page_content, finish_write,
}
use so_distribuidos.PageServer.Memory.{HasPages}
use so_distribuidos.PageServer.Memory.Guard.{thread_step-page_content, thread_step-HasPages}
use so_distribuidos.PageServer.Threads.{
  System, after, thread_step, Step, accept, run, NodeAllocated,
}
use so_distribuidos.PageServer.Threads.Contract.{
  Effect, quit, join, lock, turn, wait, release, thread_step-Effect,
}
use so_distribuidos.PageServer.Threads.Exclusion.{IsSafe, Step-IsSafe}

-- Runs in which the descriptor `i` is not given to a new connection, and so stays without a thread, and
-- in which malloc gives add_to_queue its nodes.
pub data RunWithout (i : ℕ) (sys : System) : System → Type 0 where
  none_yet : RunWithout i sys sys
  more :
      {t u : System}
      → RunWithout i sys t
      → (st : Step t u) → NodeAllocated st
      → u.threads i ≡ finished
      → RunWithout i sys u

-- The entry of a thread that has ended is at the front of the page's queue.
pub record IsAbandoned (i p : ℕ) (content : Bytes) (sys : System) : Type 0 where
  pub safe : IsSafe sys
  pub sized : HasPages sys.server
  pub ended : sys.threads i ≡ finished
  pub front : head? (sys.server.page_table p).queue ≡ some i
  pub unchanged : page_content sys.server p ≡ content

append_front : (q : List ℕ) (i j : ℕ) → head? q ≡ some i → head? (q ++ j ∷ []) ≡ some i
append_front [] i j h = cc
append_front (x ∷ q) i j h = h

Effect-front :
    (t t' : PageTable) (i j p : ℕ) (pc pc' : Pc)
    → j ≢ i
    → Effect j t pc t' pc'
    → head? (t p).queue ≡ some i
    → head? (t' p).queue ≡ some i
Effect-front t t' i j p pc pc' n (quit e d) h = rw e h
Effect-front t t' i j p pc pc' n (join q l e d) h =
    rw e (ground (arith, append_front (t p).queue i j h))
Effect-front t t' i j p pc pc' n (lock q l e d) h =
    rw e (ground (arith, append_front (t p).queue i j h))
Effect-front t t' i j p pc pc' n (turn q u f e d) h = rw e h
Effect-front t t' i j p pc pc' n (wait q u f e d) h = rw e h
Effect-front t t' i j p pc pc' n (release q f e d) h = rw e (ground arith)

finished_step :
    (e : Env) (alloc : Bool) (input : Incoming) (s : Server) (i : ℕ) (pc : Pc)
    → pc ≡ finished
    → (thread_step e alloc input s i pc).server ≡ s
unfolding thread_step
finished_step e alloc input s i finished h = refl
finished_step e alloc input s i connected h = cc
finished_step e alloc input s i (waiting p) h = cc
finished_step e alloc input s i (writing p) h = cc

no_write_step :
    (e : Env) (alloc : Bool) (input : Incoming) (s : Server) (i p : ℕ) (pc : Pc)
    → pc ≡ writing p
    → eqb_ℤ (recv_command_page_num_content alloc input).command (pos 2) ≡ false
    → thread_step e alloc input s i pc ≡ record { server = s; sent = []; next = finished }
unfolding thread_step finish_write
no_write_step e alloc input s i p (writing q) h n = rw n
no_write_step e alloc input s i p connected h n = cc
no_write_step e alloc input s i p (waiting q) h n = cc
no_write_step e alloc input s i p finished h n = cc

module _ (e : Env) (alloc : Bool) (input : Incoming) (sys : System) (i j p : ℕ) (c : Bytes)
    (h : e.node_alloc ≡ true) (a : IsAbandoned i p c sys) where
  abbrev next_server : Server
  next_server = (thread_step e alloc input sys.server j (sys.threads j)).server

  -- The thread that has ended does nothing.
  ended_keeps : j ≡ i → next_server ≡ sys.server
  ended_keeps k =
      finished_step e alloc input sys.server j (sys.threads j) (ap sys.threads k ∙ a.ended)

  run-front : head? (next_server.page_table p).queue ≡ some i
  run-front = elim (Bool-cases (j == i)) [
    | inl same ↦ rw (ended_keeps (ground arith)) a.front
    | inr other ↦
        Effect-front sys.server.page_table _ i j p (sys.threads j) _ (ground arith)
          (thread_step-Effect e alloc input sys.server j (sys.threads j) h) a.front
  ]

  run-page_content : page_content next_server p ≡ c
  run-page_content = elim (Bool-cases (j == i)) [
    | inl same ↦ rw (ended_keeps (ground arith)) a.unchanged
    | inr other ↦
        thread_step-page_content e alloc input sys.server j (sys.threads j) p a.sized
          (λ k. ground (arith, a.front))
        ∙ a.unchanged
  ]

Step-IsAbandoned :
    {i p : ℕ} {c : Bytes} {sys sys' : System}
    → IsAbandoned i p c sys
    → (st : Step sys sys') → NodeAllocated st
    → sys'.threads i ≡ finished
    → IsAbandoned i p c sys'
Step-IsAbandoned {sys = sys} a (accept j h) n f = record {
  safe = Step-IsSafe {sys = sys} a.safe (accept j h) n;
  sized = a.sized;
  ended = f;
  front = a.front;
  unchanged = a.unchanged;
}
Step-IsAbandoned {i} {p} {c} {sys = sys} a (run j e alloc input) h f = record {
  safe = Step-IsSafe a.safe (run j e alloc input) h;
  sized = thread_step-HasPages e alloc input sys.server j (sys.threads j) a.sized;
  ended = f;
  front = run-front e alloc input sys i j p c h a;
  unchanged = run-page_content e alloc input sys i j p c h a;
}

Run-IsAbandoned :
    {i p : ℕ} {c : Bytes} {sys sys' : System}
    → IsAbandoned i p c sys
    → RunWithout i sys sys'
    → IsAbandoned i p c sys'
Run-IsAbandoned a none_yet = a
Run-IsAbandoned a (more r st n f) = Step-IsAbandoned (Run-IsAbandoned a r) st n f

-- A writer whose next receive brings no write command ends and leaves its queue entry behind.
give_up :
    (e : Env) (alloc : Bool) (input : Incoming) (sys : System) (i p : ℕ)
    → IsSafe sys
    → HasPages sys.server
    → e.node_alloc ≡ true
    → sys.threads i ≡ writing p
    → eqb_ℤ (recv_command_page_num_content alloc input).command (pos 2) ≡ false
    → IsAbandoned i p
        (page_content sys.server p)
        (after sys i (thread_step e alloc input sys.server i (sys.threads i)))
give_up e alloc input sys i p s sized h w n =
    let step = no_write_step e alloc input sys.server i p (sys.threads i) w n in
    record {
      safe = Step-IsSafe s (run i e alloc input) h;
      sized = thread_step-HasPages e alloc input sys.server i (sys.threads i) sized;
      ended = rw step (ground arith);
      front = rw step (s.held i p w);
      unchanged = rw step refl;
    }

-- In a safe state let the thread of socket `i` be about to write page `p`, and let it receive no
-- write command (its client has closed the connection, or sent something else). Then for as long as
-- no new connection gets the descriptor `i`, and malloc gives add_to_queue its nodes, no thread may ever write the page again, and its bytes
-- stay as they are, whoever asks for it.
pub abandoned_page :
    (e : Env) (alloc : Bool) (input : Incoming) (sys : System) {sys' : System} (i p : ℕ)
    → IsSafe sys
    → HasPages sys.server
    → e.node_alloc ≡ true
    → sys.threads i ≡ writing p
    → eqb_ℤ (recv_command_page_num_content alloc input).command (pos 2) ≡ false
    → RunWithout i (after sys i (thread_step e alloc input sys.server i (sys.threads i))) sys'
    → ((j : ℕ) → sys'.threads j ≢ writing p)
      × (page_content sys'.server p ≡ page_content sys.server p)
abandoned_page e alloc input sys i p s sized h w n r =
    let a = Run-IsAbandoned (give_up e alloc input sys i p s sized h w n) r in
    (λ j k. ground (arith, a.safe.held j p, a.front, a.ended), a.unchanged)
