-- ===== src/Locks.antt =====
-- A write lock for each name, as two name servers (servidor_dns_nuevo.c, dns_server.c) offer it,
-- apart from how each keeps its table and words its replies.
use so_distribuidos.Prelude.{ℕ, Option, some, List, [], ◌∷◌, ◌≡◌, ◌≢◌, All, Bytes}

-- The operations and laws of such a server.
pub record LockService (State Request Reply : Type 0) : Type 1 where
  pub step : Request → State → State × Reply
  pub lock : Bytes → State → Option ℕ
  pub IsWrite : Bytes → Request → Type 0
  pub IsUnlock : Bytes → Request → Type 0
  pub refused : Reply
  pub kept :
      (n : Bytes) (r : Request) (s : State)
      → lock n s ≡ some 1
      → ¬ (IsUnlock n r)
      → lock n (step r s).0 ≡ some 1
  pub refuse :
      (n : Bytes) (r : Request) (s : State)
      → lock n s ≡ some 1
      → IsWrite n r
      → (step r s).1 ≡ refused
  pub grant :
      (n : Bytes) (r : Request) (s : State)
      → lock n s ≡ some 0
      → IsWrite n r
      → (lock n (step r s).0 ≡ some 1) × ((step r s).1 ≢ refused)
  pub free :
      (n : Bytes) (r : Request) (s : State) (k : ℕ)
      → lock n s ≡ some k
      → IsUnlock n r
      → lock n (step r s).0 ≡ some 0

-- Requests one after another, each in its critical section.
abbrev pub run :
    {State Request Reply : Type 0}
    → (Request → State → State × Reply)
    → List Request
    → State
    → State
run step [] s = s
run step (r ∷ rs) s = run step rs (step r s).0

module _ {State : Type 0} {Request : Type 0} {Reply : Type 0}
    (service : LockService State Request Reply) (n : Bytes) where
  run-kept :
      (rs : List Request) (s : State)
      → service.lock n s ≡ some 1
      → All (λ r. ¬ (service.IsUnlock n r)) rs
      → service.lock n (run service.step rs s) ≡ some 1
  run-kept [] s h k = h
  run-kept (r ∷ rs) s h k = run-kept rs (service.step r s).0 (service.kept n r s h k.0) k.1

  -- A granted write is the only one until somebody unlocks the name.
  pub exclusive :
      (w w' : Request) (rs : List Request) (s : State)
      → service.lock n s ≡ some 0
      → service.IsWrite n w
      → service.IsWrite n w'
      → All (λ r. ¬ (service.IsUnlock n r)) rs
      → ((service.step w s).1 ≢ service.refused)
        × ((service.step w' (run service.step rs (service.step w s).0)).1 ≡ service.refused)
  exclusive w w' rs s h i i' k = (
    (service.grant n w s h i).1,
    service.refuse n w' (run service.step rs (service.step w s).0)
        (run-kept rs (service.step w s).0 (service.grant n w s h i).0 k) i',
  )

  -- After an unlock the next write is granted.
  pub released :
      (u w : Request) (s : State) (k : ℕ)
      → service.lock n s ≡ some k
      → service.IsUnlock n u
      → service.IsWrite n w
      → (service.step w (service.step u s).0).1 ≢ service.refused
  released u w s k h i j = (service.grant n w (service.step u s).0 (service.free n u s k h i) j).1
