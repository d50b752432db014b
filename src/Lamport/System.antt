-- ===== src/Lamport/System.antt =====
-- Processes of tp5-algoritmo-de-lamport over a network, with a log of what happened. A process goes by
-- its port.
use so_distribuidos.Prelude.{
  ℕ, true, Option, none, some, List, [], ◌∷◌, ◌++◌, ◌≡◌, ◌<◌, Bytes, ℤ, pos, negsuc, ◌≤ℤ◌, ◌==◌,
  if◌then◌else◌, length, get_elem?, pos_part, ◌%◌,
}
use so_distribuidos.Lamport.Process.{tick, on_message, on_input}

-- The logged clock of an event, and for a receipt the index of the event that sent the message.
pub record Event : Type 0 where
  pub proc : ℕ
  pub stamp : ℤ
  pub cause : Option ℕ

pub record Message : Type 0 where
  pub dest : ℤ
  pub bytes : Bytes
  pub source : ℕ

pub record Network : Type 0 where
  pub clocks : ℕ → ℤ
  pub flight : List Message
  pub log : List Event

abbrev pub set_clock : (ℕ → ℤ) → ℕ → ℤ → ℕ → ℤ
set_clock f i c j = if i == j then c else f j

-- A C int. Past INT_MAX the increment of a clock is undefined, and the model has no step.
abbrev pub IsInt : ℤ → Type 0
IsInt z = (z ≤ℤ pos 2147483647) × (negsuc 2147483647 ≤ℤ z)

abbrev pub event : Network → ℕ → ℤ → Option ℕ → List Message → Network
event s i c cause flight = record {
  clocks = set_clock s.clocks i c;
  flight = flight;
  log = s.log ++ record { proc = i; stamp = c; cause = cause } ∷ [];
}

-- `receives` takes a message to the process on port `htons(dest_port)`, of 16 bits.
pub data Step (s : Network) : Network → Type 0 where
  ticks : (i : ℕ) → IsInt (tick (s.clocks i)) → Step s (event s i (tick (s.clocks i)) none s.flight)
  sends :
      (i : ℕ) (line : Bytes) (c dest : ℤ) (bytes : Bytes)
      → on_input line true true (s.clocks i) ≡ (c, some (dest, bytes))
      → IsInt c
      → Step s (
          event s i c none
            (s.flight ++ record { dest = dest; bytes = bytes; source = length s.log } ∷ []))
  receives :
      (i : ℕ) (garbage : ℤ) (before : List Message) (m : Message) (after : List Message)
      → s.flight ≡ before ++ m ∷ after
      → pos_part m.dest % 65536 ≡ i
      → IsInt (on_message garbage m.bytes (s.clocks i))
      → Step s
          (event s i (on_message garbage m.bytes (s.clocks i)) (some m.source) (before ++ after))

pub data Reach (s : Network) : Network → Type 0 where
  here : Reach s s
  next : {t u : Network} → Reach s t → Step t u → Reach s u

abbrev pub start : (ℕ → ℤ) → Network
start clocks = record { clocks = clocks; flight = []; log = [] }

-- Lamport's relation on the indices of the log: within a process, from a message's sending to its
-- receipt, and chains of these.
pub data HappenedBefore (log : List Event) : ℕ → ℕ → Type 0 where
  within :
      {a b : ℕ} {e f : Event}
      → a < b
      → get_elem? log a ≡ some e
      → get_elem? log b ≡ some f
      → e.proc ≡ f.proc
      → HappenedBefore log a b
  message :
      {a b : ℕ} {f : Event} → get_elem? log b ≡ some f → f.cause ≡ some a → HappenedBefore log a b
  chain : {a b c : ℕ} → HappenedBefore log a b → HappenedBefore log b c → HappenedBefore log a c
