-- ===== src/Lamport/ClockCondition.antt =====
-- The clock condition: an event that happened before another has the smaller logical clock.
use so_distribuidos.Prelude.{
  pos_part, neg_part, ℕ, ◌<◌, true, Option, none, some, List, [], ◌∷◌, ◌++◌, ◌≡◌, ◌≢◌, ◌⊎◌, inl,
  inr, refl, sym, ap, ◌∙◌, arith, Bytes, ℤ, pos, ◌≤ℤ◌, ◌<ℤ◌, ◌+ℤ◌, +ℤ_parts, ◌==◌, length,
  get_elem?, get_elem?-lt, get_elem?-snoc, get_elem?-snoc_last, get_elem?-snoc_cases, c_str-Free,
  scan_int-print, print_int_ne, print_int, print_int-Free, Bool-cases, subst, length-print_int,
  Member, take-all,
}
use so_distribuidos.Lamport.Process.{max, tick, recv_clock, on_message, on_input}
use so_distribuidos.Lamport.System.{
  Event, Message, Network, set_clock, IsInt, Step, ticks, sends, receives, Reach, here, next, start,
  HappenedBefore, within, message, chain,
}

-- A received message moves the clock past its old value and past the number in the message.
on_message-after :
    (garbage : ℤ) (z clock : ℤ) (b : Bytes)
    → recv_clock garbage b ≡ z
    → b ≢ []
    → (clock <ℤ on_message garbage b clock) × (z <ℤ on_message garbage b clock)
unfolding on_message
on_message-after garbage z clock [] e n = absurd (n refl)
on_message-after garbage z clock (x ∷ b) e n = (
  ground (arith, +ℤ_parts (max clock (recv_clock garbage (x ∷ b))) (pos 1)),
  ground (arith, +ℤ_parts (max clock (recv_clock garbage (x ∷ b))) (pos 1)),
)

-- The receiver reads the number that the sender printed.
recv_clock-print_int : (garbage z : ℤ) → IsInt z → recv_clock garbage (print_int z) ≡ z
unfolding recv_clock
recv_clock-print_int garbage z h = rw (
  take-all 128 (print_int z) (omega (arith, length-print_int z h.0 h.1)),
  c_str-Free (print_int z) (print_int-Free 0 z refl (omega arith)),
  scan_int-print z,
)

on_input-sends :
    (line : Bytes) (clock c dest : ℤ) (bytes : Bytes)
    → on_input line true true clock ≡ (c, some (dest, bytes))
    → (c ≡ clock +ℤ pos 1) × (bytes ≡ print_int c)
unfolding on_input
on_input-sends line clock c dest bytes e = ground arith

-- An event with a smaller stamp stands at index `a`.
abbrev Before : List Event → ℕ → ℤ → Type 0
Before log a z = (e : Event) × (get_elem? log a ≡ some e) × (e.stamp <ℤ z)

-- The message carries the clock of an event of the log.
abbrev WasSent : List Event → Message → Type 0
WasSent log m =
    (e : Event) × (get_elem? log m.source ≡ some e) × (m.bytes ≡ print_int e.stamp) × IsInt e.stamp

-- What the log, the clocks and the messages on the way have to do with each other.
record Inv (log : List Event) (clocks : ℕ → ℤ) (flight : List Message) : Type 0 where
  ordered :
      (a b : ℕ) (e f : Event)
      → a < b
      → get_elem? log a ≡ some e
      → get_elem? log b ≡ some f
      → e.proc ≡ f.proc
      → e.stamp <ℤ f.stamp
  caused :
      (b a : ℕ) (f : Event) → get_elem? log b ≡ some f → f.cause ≡ some a → Before log a f.stamp
  current : (a : ℕ) (e : Event) → get_elem? log a ≡ some e → e.stamp ≤ℤ clocks e.proc
  sent : (m : Message) → Member m flight → WasSent log m

kept :
    (log : List Event) (x : Event) (a : ℕ) (e : Event)
    → get_elem? log a ≡ some e
    → get_elem? (log ++ x ∷ []) a ≡ some e
kept log x a e h = get_elem?-snoc log a x (get_elem?-lt log a h) ∙ h

Before-kept :
    (log : List Event) (x : Event) (a : ℕ) (z : ℤ) → Before log a z → Before (log ++ x ∷ []) a z
Before-kept log x a z (e, h, l) = (e, kept log x a e h, l)

WasSent-kept :
    (log : List Event) (x : Event) (m : Message) → WasSent log m → WasSent (log ++ x ∷ []) m
WasSent-kept log x m (e, h, l, n) = (e, kept log x m.source e h, l, n)

set_clock-le :
    (clocks : ℕ → ℤ) (i j : ℕ) (c z : ℤ)
    → clocks i <ℤ c
    → z ≤ℤ clocks j
    → z ≤ℤ set_clock clocks i c j
set_clock-le clocks i j c z h k = elim (Bool-cases (i == j)) [
  | inl e ↦ rw e (omega (arith, le_at e))
  | inr e ↦ rw e k
]
  where
    le_at : i == j ≡ true → z ≤ℤ clocks i
    le_at e = subst (λ n. z ≤ℤ clocks n) (ground arith) k

set_clock_self : (clocks : ℕ → ℤ) (i : ℕ) (c : ℤ) → set_clock clocks i c i ≡ c
set_clock_self clocks i c = ground arith

-- One more event, past its process's clock, past its cause, keeps all of it.
module _ (s : Network) (i : ℕ) (c : ℤ) (cause : Option ℕ) (flight : List Message)
    (inv : Inv s.log s.clocks s.flight) (later : s.clocks i <ℤ c) where
  abbrev new : Event
  new = record { proc = i; stamp = c; cause = cause }

  old-lt : (a : ℕ) (e : Event) → get_elem? s.log a ≡ some e → e.proc ≡ i → e.stamp <ℤ c
  old-lt a e h p = omega (arith, subst (λ n. e.stamp ≤ℤ s.clocks n) p (inv.current a e h))

  event-ordered :
      (a b : ℕ) (e f : Event)
      → a < b
      → get_elem? (s.log ++ new ∷ []) a ≡ some e
      → get_elem? (s.log ++ new ∷ []) b ≡ some f
      → e.proc ≡ f.proc
      → e.stamp <ℤ f.stamp
  event-ordered a b e f l h k p = elim (get_elem?-snoc_cases s.log b new f k) [
    | inl k' ↦
        inv.ordered a b e f l
          (sym (get_elem?-snoc s.log a new (omega (arith, get_elem?-lt s.log b k'))) ∙ h) k' p
    | inr (n, q) ↦ before_new n q
  ]
    where
      before_new : b ≡ length s.log → new ≡ f → e.stamp <ℤ f.stamp
      before_new n q =
          subst (λ f. e.proc ≡ f.proc → e.stamp <ℤ f.stamp) q
            (old-lt a e (sym (get_elem?-snoc s.log a new (omega arith)) ∙ h)) p

  event-current :
      (a : ℕ) (e : Event)
      → get_elem? (s.log ++ new ∷ []) a ≡ some e
      → e.stamp ≤ℤ set_clock s.clocks i c e.proc
  event-current a e h = elim (get_elem?-snoc_cases s.log a new e h) [
    | inl k ↦ set_clock-le s.clocks i e.proc c e.stamp later (inv.current a e k)
    | inr (n, q) ↦
        subst (λ e. e.stamp ≤ℤ set_clock s.clocks i c e.proc) q
          (rw (set_clock_self s.clocks i c) (omega arith))
  ]

  event-caused :
      ((a : ℕ) → cause ≡ some a → Before s.log a c)
      → (b a : ℕ) (f : Event) → get_elem? (s.log ++ new ∷ []) b ≡ some f
      → f.cause ≡ some a
      → Before (s.log ++ new ∷ []) a f.stamp
  event-caused w b a f h k =
      Before-kept s.log new a f.stamp (elim (get_elem?-snoc_cases s.log b new f h) [
        | inl h' ↦ inv.caused b a f h' k
        | inr (n, q) ↦ subst (λ f. f.cause ≡ some a → Before s.log a f.stamp) q (w a) k
      ])

  event-Inv :
      ((a : ℕ) → cause ≡ some a → Before s.log a c)
      → ((m : Message) → Member m flight → WasSent (s.log ++ new ∷ []) m)
      → Inv (s.log ++ new ∷ []) (set_clock s.clocks i c) flight
  event-Inv w v = record {
    ordered = event-ordered;
    caused = event-caused w;
    current = event-current;
    sent = v;
  }

Inv-start : (clocks : ℕ → ℤ) → Inv [] clocks []
Inv-start clocks = record {
  ordered = λ a b e f l h k p. cc;
  caused = λ b a f h k. cc;
  current = λ a e h. cc;
  sent = λ m h. elim h [ ];
}

Member-snoc : (xs : List Message) (y m : Message) → Member m (xs ++ y ∷ []) → Member m xs ⊎ (m ≡ y)
Member-snoc [] y m (inl e) = inr e
Member-snoc [] y m (inr h) = elim h [ ]
Member-snoc (x ∷ xs) y m (inl e) = inl (inl e)
Member-snoc (x ∷ xs) y m (inr h) = elim (Member-snoc xs y m h) [
  | inl k ↦ inl (inr k)
  | inr k ↦ inr k
]

Member-middle : (xs : List Message) (y : Message) (ys : List Message) → Member y (xs ++ y ∷ ys)
Member-middle [] y ys = inl refl
Member-middle (x ∷ xs) y ys = inr (Member-middle xs y ys)

Member-without :
    (xs : List Message) (y : Message) (ys : List Message) (m : Message)
    → Member m (xs ++ ys)
    → Member m (xs ++ y ∷ ys)
Member-without [] y ys m h = inr h
Member-without (x ∷ xs) y ys m (inl e) = inl e
Member-without (x ∷ xs) y ys m (inr h) = inr (Member-without xs y ys m h)

abbrev Holds : Network → Type 0
Holds s = Inv s.log s.clocks s.flight

module _ {s : Network} (inv : Holds s) where
  received-Before :
      (i : ℕ) (garbage : ℤ) (m : Message)
      → Member m s.flight
      → (s.clocks i <ℤ on_message garbage m.bytes (s.clocks i))
        × Before s.log m.source (on_message garbage m.bytes (s.clocks i))
  received-Before i garbage m h =
      let (e, k, b, r) = inv.sent m h in
      let (l, g) =
        on_message-after garbage e.stamp (s.clocks i) m.bytes
          (ap (recv_clock garbage) b ∙ recv_clock-print_int garbage e.stamp r)
          (λ n. print_int_ne e.stamp (sym b ∙ n)) in
      (l, (e, k, g))

  Step-Holds : {t : Network} → Step s t → Holds t
  unfolding tick
  Step-Holds (ticks i r) =
      event-Inv s i (tick (s.clocks i)) none s.flight inv
        (omega (arith, +ℤ_parts (s.clocks i) (pos 1))) (λ a e. cc)
        (λ m h. WasSent-kept s.log _ m (inv.sent m h))
  Step-Holds (sends i line c dest bytes e r) =
      let (n, b) = on_input-sends line (s.clocks i) c dest bytes e in
      event-Inv s i c none _ inv (rw n (omega (arith, +ℤ_parts (s.clocks i) (pos 1)))) (λ a e. cc)
        (λ m h. elim (Member-snoc s.flight _ m h) [
          | inl k ↦ WasSent-kept s.log _ m (inv.sent m k)
          | inr k ↦ subst (WasSent _) (sym k) (_, get_elem?-snoc_last s.log _, b, r)
        ])
  Step-Holds (receives i garbage before m after f d r) =
      let (l, b) = received-Before i garbage m (rw f (Member-middle before m after)) in
      event-Inv s i _ (some m.source) (before ++ after) inv l
        (λ a e.
          subst (λ n. Before s.log n (on_message garbage m.bytes (s.clocks i))) (ground arith) b)
        (λ n h. WasSent-kept s.log _ n (inv.sent n (rw f (Member-without before m after n h))))

Reach-Holds : {clocks : ℕ → ℤ} {s : Network} → Reach (start clocks) s → Holds s
Reach-Holds {clocks} here = Inv-start clocks
Reach-Holds (next r h) = Step-Holds (Reach-Holds r) h

same_stamp : (e e' : Event) → some e ≡ some e' → e.stamp ≡ e'.stamp
same_stamp e e' h = ap (λ o. elim o [ none ↦ pos 0 | some x ↦ x.stamp ]) h

lt_trans : (x y y' z : ℤ) → y ≡ y' → x <ℤ y → y' <ℤ z → x <ℤ z
lt_trans x y y' z e h k = omega (arith, ap pos_part e, ap neg_part e)

-- The two events, and the order of their stamps.
Stamped : List Event → ℕ → ℕ → Type 0
Stamped log a b =
    (e : Event) × (f : Event) × (get_elem? log a ≡ some e)
    × (get_elem? log b ≡ some f)
    × (e.stamp <ℤ f.stamp)

module _ {log : List Event} {clocks : ℕ → ℤ} {flight : List Message}
    (inv : Inv log clocks flight) where
  HappenedBefore-Stamped : {a b : ℕ} → HappenedBefore log a b → Stamped log a b
  unfolding Stamped
  HappenedBefore-Stamped (within {a} {b} {e} {f} l h k p) =
      (e, f, h, k, inv.ordered a b e f l h k p)
  HappenedBefore-Stamped (message {a} {b} {f} h k) =
      let (e, g, l) = inv.caused b a f h k in (e, f, g, h, l)
  HappenedBefore-Stamped (chain h k) =
      let (e, f, p, q, l) = HappenedBefore-Stamped h in
      let (f', g, q', r, l') = HappenedBefore-Stamped k in
      (e, g, p, r, lt_trans e.stamp f.stamp f'.stamp g.stamp (same_stamp f f' (sym q ∙ q')) l l')

-- In every run of processes that start with any clocks, if one event happened before another then its
-- logged clock is the smaller one.
pub clock_condition :
    {clocks : ℕ → ℤ} {s : Network} {a b : ℕ} {e f : Event}
    → Reach (start clocks) s
    → HappenedBefore s.log a b
    → get_elem? s.log a ≡ some e
    → get_elem? s.log b ≡ some f
    → e.stamp <ℤ f.stamp
unfolding Stamped
clock_condition {clocks} {s} {a} {b} {e} {f} r h p q =
    let (e', f', p', q', l) = HappenedBefore-Stamped (Reach-Holds r) h in
    rw (same_stamp e e' (sym p ∙ p'), same_stamp f f' (sym q ∙ q')) l
