-- ===== src/ClockSync/Average.antt =====
-- The average of tp6-algoritmo-de-berkeley's daemon, and how a client takes it over.
use so_distribuidos.Prelude.{
  print_int_ne, ℕ, suc, ◌+◌, ◌*◌, ◌/◌, ◌≤◌, ◌<◌, Bool, true, false, Option, none, some, List, [],
  ◌∷◌, ◌++◌, ◌≡◌, refl, sym, ap, ◌∙◌, arith, Bytes, codes, ℤ, pos, ◌+ℤ◌, +ℤ_parts, eq_of_parts,
  if◌then◌else◌, length, take, drop, All, c_str, c_str-Free, take-all, strip_prefix, starts_with,
  atoi, atoi-print_int, print_int, print_int-Free, append-nil, Free,
}
use native.Mathlib.Nat.{le-div_iff_mul-le, div-lt_iff_lt-mul}
use so_distribuidos.ClockSync.Berkeley.{request_client_time, sum, div_ℤ, average, send_time_sync}

-- Every time is between two others.
abbrev pub Between : ℕ → ℕ → ℤ → Type 0
Between lo hi z = (t : ℕ) × (z ≡ pos t) × (lo ≤ t) × (t ≤ hi)

sum-Between :
    (lo hi : ℕ) (ts : List ℤ)
    → All (Between lo hi) ts
    → (n : ℕ) × (sum ts ≡ pos n) × (lo * length ts ≤ n) × (n ≤ hi * length ts)
unfolding sum
sum-Between lo hi [] h = (0, refl, ground arith, ground arith)
sum-Between lo hi (z ∷ ts) ((t, e, l, u), h) =
    let (n, f, l', u') = sum-Between lo hi ts h in
    (
      t + n,
      rw (e, f)
          (eq_of_parts (pos t +ℤ pos n) (pos (t + n)) (omega (arith, +ℤ_parts (pos t) (pos n)))),
      grind arith,
      grind arith,
    )

le_of_lt : {a b : ℕ} → a < suc b → a ≤ b
le_of_lt h = omega arith

-- The average of times that are not before 1970 lies between any bounds of the times.
pub average-Between :
    (lo hi : ℕ) (z : ℤ) (ts : List ℤ)
    → All (Between lo hi) (z ∷ ts)
    → Between lo hi (average (z ∷ ts))
unfolding average div_ℤ
average-Between lo hi z ts h =
    let (n, f, l, u) = sum-Between lo hi (z ∷ ts) h in
    (
      n / suc (length ts),
      rw f refl,
      (le-div_iff_mul-le (omega arith)).1 l,
      le_of_lt ((div-lt_iff_lt-mul (omega arith)).1 (grind arith)),
    )

-- A message in the client's loop: the clock afterwards, what is sent, and whether the loop goes on.
pub record Handled : Type 0 where
  pub clock : ℤ
  pub reply : Option Bytes
  pub running : Bool

-- corregir_tiempo: settimeofday may fail, and then the clock stays.
unfoldable pub corregir_tiempo : Bool → ℤ → ℤ → ℤ
corregir_tiempo set_ok nuevo_tiempo clock = if set_ok then nuevo_tiempo else clock

-- A message, as the buffer holds it.
unfoldable pub handle_buffer : Bool → Bool → Bytes → ℤ → Handled
unfolding starts_with corregir_tiempo
handle_buffer send_ok set_ok buffer clock =
    if starts_with (codes "TIME_REQUEST") buffer
    then record {
      clock = clock;
      reply = if send_ok then some (print_int clock) else none;
      running = send_ok;
    }
    else if starts_with (codes "TIME_SYNC") buffer
    then record {
      clock = corregir_tiempo set_ok (atoi (c_str (drop 10 buffer))) clock;
      reply = none;
      running = true;
    }
    else record { clock = clock; reply = none; running = true }

-- `b` is what recv gives, nothing if it fails or finds the end. `stale` is what the buffer holds behind
-- it and its zero.
unfoldable pub handler_mensajes : Bool → Bool → Bytes → Bytes → ℤ → Handled
unfolding handle_buffer
handler_mensajes send_ok set_ok stale [] clock = record {
  clock = clock;
  reply = none;
  running = false;
}
handler_mensajes send_ok set_ok stale (x ∷ b) clock =
    handle_buffer send_ok set_ok (take 1023 (x ∷ b) ++ 0 ∷ stale) clock

received_print_int :
    (b : Bytes) (z : ℤ)
    → b ≡ print_int z
    → length (print_int z) ≤ 1013
    → request_client_time (record { sent = true; received = b }) ≡ z
unfolding request_client_time
received_print_int [] z e h = absurd (print_int_ne z (sym e))
received_print_int (x ∷ b) z e h = ap (λ m. atoi (c_str (take 1023 m))) e ∙ read_back
  where
    read_back : atoi (c_str (take 1023 (print_int z))) ≡ z
    read_back =
        rw
          (
            take-all 1023 (print_int z) (omega arith),
            c_str-Free (print_int z) (print_int-Free 0 z refl (omega arith)),
          )
          (ap atoi (sym (append-nil (print_int z))) ∙ atoi-print_int z [] tt)

-- A client that is asked for its time answers with a text that the daemon reads as the client's clock,
-- for a clock of at most 1013 digits, and keeps its clock.
pub time_request_round_trip :
    (set_ok : Bool) (stale : Bytes) (clock : ℤ)
    → length (print_int clock) ≤ 1013
    → let r = handler_mensajes true set_ok stale (codes "TIME_REQUEST") clock in
      (b : Bytes) × (r.reply ≡ some b)
      × (request_client_time (record { sent = true; received = b }) ≡ clock)
      × (r.clock ≡ clock)
unfolding handler_mensajes strip_prefix
time_request_round_trip set_ok stale clock h =
    (print_int clock, refl, received_print_int (print_int clock) clock refl h, refl)

c_str-append_zero : (a r : Bytes) → Free 0 a → c_str (a ++ 0 ∷ r) ≡ a
unfolding c_str
c_str-append_zero [] r h = refl
c_str-append_zero (x ∷ a) r h = ground (arith, c_str-append_zero a r)

-- A client that receives a correction, and may set its clock, sets it to the time that was sent, for a
-- time of at most 1013 digits, and goes on.
pub time_sync_round_trip :
    (send_ok : Bool) (stale : Bytes) (average_time clock : ℤ)
    → length (print_int average_time) ≤ 1013
    → handler_mensajes send_ok true stale (send_time_sync average_time) clock
      ≡ record { clock = average_time; reply = none; running = true }
unfolding handler_mensajes send_time_sync strip_prefix
time_sync_round_trip send_ok stale z clock h =
    ap (λ b. handle_buffer send_ok true (b ++ 0 ∷ stale) clock)
      (take-all 1023 (codes "TIME_SYNC " ++ print_int z) (omega arith))
    ∙ ap (λ t. record { clock = t; reply = none; running = true })
        (ap atoi (c_str-append_zero (print_int z) stale (print_int-Free 0 z refl (omega arith)))
          ∙ ap atoi (sym (append-nil (print_int z)))
          ∙ atoi-print_int z [] tt)
