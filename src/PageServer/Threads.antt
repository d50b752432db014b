-- ===== src/PageServer/Threads.antt =====
-- The threads of newServer.c over one server, interleaved in any order. The mutex of a page makes
-- what a thread does between two waits one step.
pub mod Contract
pub mod Exclusion
pub mod Fairness
pub mod Abandon
use so_distribuidos.Prelude.{update, ℕ, Bool, true, [], ◌≡◌}
use so_distribuidos.PageServer.Message.{Incoming, recv_command_page_num_content}
use so_distribuidos.PageServer.Server.{
  Server, Env, Pc, connected, waiting, writing, finished, Reply, handle_client, poll_page,
  finish_write,
}

-- One step of the thread of a socket; `alloc` and `input` are for the request that it receives.
unfoldable pub thread_step : Env → Bool → Incoming → Server → ℕ → Pc → Reply
thread_step e alloc input s socket connected =
    handle_client e s socket (recv_command_page_num_content alloc input)
thread_step e alloc input s socket (waiting p) = poll_page e s socket p
thread_step e alloc input s socket (writing p) =
    finish_write e s socket (recv_command_page_num_content alloc input)
thread_step e alloc input s socket finished = record { server = s; sent = []; next = finished }

-- A socket with no thread, or whose thread has ended, is `finished`.
pub record System : Type 0 where
  pub server : Server
  pub threads : ℕ → Pc

abbrev pub start : Server → System
start s = record { server = s; threads = λ i. finished }

abbrev pub after : System → ℕ → Reply → System
after sys i r = record { server = r.server; threads = update sys.threads i r.next }

-- The kernel gives a new connection a descriptor that no live thread has.
pub data Step (sys : System) : System → Type 0 where
  accept :
      (i : ℕ)
      → sys.threads i ≡ finished
      → Step sys (record sys { threads = update sys.threads i connected })
  run :
      (i : ℕ) (e : Env) (alloc : Bool) (input : Incoming)
      → Step sys (after sys i (thread_step e alloc input sys.server i (sys.threads i)))

pub data Reach (sys : System) : System → Type 0 where
  here : Reach sys sys
  next : {t u : System} → Reach sys t → Step t u → Reach sys u

-- In this step, malloc gives add_to_queue its node.
abbrev pub NodeAllocated : {sys sys' : System} → Step sys sys' → Type 0
NodeAllocated (accept i h) = Unit
NodeAllocated (run i e alloc input) = e.node_alloc ≡ true

-- In every step up to there it does.
abbrev pub NodesAllocated : {sys sys' : System} → Reach sys sys' → Type 0
NodesAllocated here = Unit
NodesAllocated (next r st) = NodesAllocated r × NodeAllocated st
