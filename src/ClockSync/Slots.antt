-- ===== src/ClockSync/Slots.antt =====
-- The table of clients that both daemons keep: the slot that an accepted connection takes, and the
-- number of slots that were ever used (client_count, in Berkeley's daemon).
use so_distribuidos.Prelude.{
  ℕ, zero, suc, ◌≤◌, ◌<◌, Bool, true, Option, none, some, List, [], ◌∷◌, ◌≡◌, ◌⊎◌, inl, inr, refl,
  ap, arith, leb, if◌then◌else◌, length, get_elem?, map_some, Option-cases,
}

pub record Client : Type 0 where
  pub socket : ℕ
  pub active : Bool

-- Berkeley's server_state: `clients` has MAX_CLIENTS slots.
pub record ServerState : Type 0 where
  pub clients : List Client
  pub client_count : ℕ

-- The first slot that is not active.
unfoldable pub free_slot : List Client → Option ℕ
free_slot [] = none
free_slot (c ∷ cs) = let rest = map_some suc (free_slot cs) in if c.active then rest else some 0

unfoldable pub set_slot : ℕ → Client → List Client → List Client
set_slot i c [] = []
set_slot zero c (d ∷ cs) = c ∷ cs
set_slot (suc i) c (d ∷ cs) = d ∷ set_slot i c cs

abbrev take_slot : Option ℕ → ℕ → ServerState → Option ℕ × ServerState
take_slot none socket s = (none, s)
take_slot (some i) socket s = (
  some i,
  record {
    clients = set_slot i (record { socket = socket; active = true }) s.clients;
    client_count = if leb s.client_count i then suc i else s.client_count;
  },
)

-- An accepted connection: the slot it gets, none if it is closed at once.
unfoldable pub accept_client : ℕ → ServerState → Option ℕ × ServerState
accept_client socket s = take_slot (free_slot s.clients) socket s

-- Every active client stands below client_count, so the rounds reach it; and client_count stays within
-- the array.
pub record IsServer (s : ServerState) : Type 0 where
  pub reached :
      (i : ℕ) (c : Client) → get_elem? s.clients i ≡ some c → c.active ≡ true → i < s.client_count
  pub bounded : s.client_count ≤ length s.clients

pub length-set_slot : (i : ℕ) (c : Client) (cs : List Client) → length (set_slot i c cs) ≡ length cs
unfolding set_slot
length-set_slot i c [] = refl
length-set_slot zero c (d ∷ cs) = refl
length-set_slot (suc i) c (d ∷ cs) = ap suc (length-set_slot i c cs)

pub free_slot-lt : (cs : List Client) (i : ℕ) → free_slot cs ≡ some i → i < length cs
unfolding free_slot
free_slot-lt [] i h = cc
free_slot-lt (c ∷ cs) i h = elim (Option-cases (free_slot cs)) [
  | inl e ↦ ground arith
  | inr (j, e) ↦ ground (arith, free_slot-lt cs j e)
]

pub get_elem?-set_slot :
    (i : ℕ) (c : Client) (cs : List Client) (j : ℕ) (d : Client)
    → get_elem? (set_slot i c cs) j ≡ some d
    → (i ≡ j) ⊎ (get_elem? cs j ≡ some d)
unfolding set_slot
get_elem?-set_slot i c [] j d h = inr h
get_elem?-set_slot zero c (x ∷ cs) zero d h = inl refl
get_elem?-set_slot zero c (x ∷ cs) (suc j) d h = inr h
get_elem?-set_slot (suc i) c (x ∷ cs) zero d h = inr h
get_elem?-set_slot (suc i) c (x ∷ cs) (suc j) d h = elim (get_elem?-set_slot i c cs j d h) [
  | inl e ↦ inl (ap suc e)
  | inr e ↦ inr e
]

-- Accepting a connection keeps every active client below client_count, and client_count within the array.
pub accept_client-IsServer :
    (socket : ℕ) (s : ServerState) → IsServer s → IsServer (accept_client socket s).1
unfolding accept_client
accept_client-IsServer socket s h = go (free_slot s.clients) refl
  where
    go : (o : Option ℕ) → free_slot s.clients ≡ o → IsServer (take_slot o socket s).1
    go none e = h
    go (some i) e = record {
      reached = λ j c g a. elim (get_elem?-set_slot i _ s.clients j c g) [
        | inl k ↦ ground arith
        | inr k ↦ ground (arith, h.reached j c k a)
      ];
      bounded = ground (
        arith,
        h.bounded,
        free_slot-lt s.clients i e,
        length-set_slot i (record { socket = socket; active = true }) s.clients,
      );
    }
