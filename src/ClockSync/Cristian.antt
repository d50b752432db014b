-- ===== src/ClockSync/Cristian.antt =====
-- tp-cristian: a message in the daemon's handle_client, and a round of the client's cristian_sync. Times
-- are in seconds, those that measure the round trip in microseconds.
use so_distribuidos.Prelude.{
  ℕ, ◌+◌, ◌*◌, ◌/◌, ◌≤◌, ◌<◌, Bool, true, false, Option, none, some, [], ◌∷◌, ◌≡◌, refl, sym, ap,
  ◌∙◌, arith, Bytes, codes, ℤ, pos, pos_part, neg_part, sub_ℕ, ◌+ℤ◌, +ℤ_parts, eq_of_parts,
  if◌then◌else◌, length, take, c_str, c_str-Free, take-all, starts_with, strip_prefix, atoi,
  atoi-print_int, print_int, print_int-Free, print_int_ne, append-nil,
}
use so_distribuidos.ClockSync.Berkeley.{div_ℤ}

-- What the daemon answers, and whether its loop goes on.
unfoldable pub handle_client : Bool → Bytes → ℤ → Option Bytes × Bool
unfolding starts_with
handle_client send_ok [] current_time = (none, false)
handle_client send_ok (x ∷ b) current_time =
    if starts_with (codes "TIME_REQUEST") (take 1023 (x ∷ b))
    then (if send_ok then some (print_int current_time) else none, send_ok)
    else (none, true)

abbrev pub minus_ℤ : ℤ → ℤ → ℤ
minus_ℤ a b = sub_ℕ (pos_part a + neg_part b) (neg_part a + pos_part b)

-- rtt_usec / 1000000 / 2
unfoldable pub estimated_latency_sec : ℤ → ℤ → ℤ
unfolding div_ℤ
estimated_latency_sec start_time_usec end_time_usec =
    div_ℤ (div_ℤ (minus_ℤ end_time_usec start_time_usec) 1000000) 2

-- corregir_tiempo: gettimeofday or settimeofday may fail, and then the clock stays.
abbrev pub corregir_tiempo : Bool → ℤ → ℤ → ℤ
corregir_tiempo set_ok nuevo_tiempo clock = if set_ok then nuevo_tiempo else clock

-- A round of the client: whether send succeeds, what recv gives, and whether the clock can be set. The
-- result is the clock afterwards, and whether the loop goes on.
unfoldable pub cristian_sync : Bool → Bytes → Bool → ℤ → ℤ → ℤ → ℤ × Bool
unfolding estimated_latency_sec
cristian_sync false received set_ok start_time_usec end_time_usec clock = (clock, false)
cristian_sync true [] set_ok start_time_usec end_time_usec clock = (clock, false)
cristian_sync true (x ∷ b) set_ok start_time_usec end_time_usec clock =
    let server_time = atoi (c_str (take 1023 (x ∷ b))) in
    let adjusted_time = server_time +ℤ estimated_latency_sec start_time_usec end_time_usec in
    (corregir_tiempo set_ok adjusted_time clock, true)

pub adjusted :
    (b : Bytes) (z s e clock : ℤ)
    → b ≡ print_int z
    → length (print_int z) ≤ 1023
    → cristian_sync true b true s e clock ≡ (z +ℤ estimated_latency_sec s e, true)
unfolding cristian_sync
adjusted [] z s e clock h k = absurd (print_int_ne z (sym h))
adjusted (x ∷ b) z s e clock h k =
    ap (λ m. (atoi (c_str (take 1023 m)) +ℤ estimated_latency_sec s e, true)) h
    ∙ ap (λ t. (t +ℤ estimated_latency_sec s e, true)) read_back
  where
    read_back : atoi (c_str (take 1023 (print_int z))) ≡ z
    read_back =
        rw
          (
            take-all 1023 (print_int z) k,
            c_str-Free (print_int z) (print_int-Free 0 z refl (omega arith)),
          )
          (ap atoi (sym (append-nil (print_int z))) ∙ atoi-print_int z [] tt)

minus_add : (s r : ℕ) → minus_ℤ (pos (s + r)) (pos s) ≡ pos r
minus_add s r = ground arith

pub latency_lem : (s r : ℕ) → estimated_latency_sec (pos s) (pos (s + r)) ≡ pos (r / 1000000 / 2)
unfolding estimated_latency_sec div_ℤ
latency_lem s r = ap (λ z. div_ℤ (div_ℤ z 1000000) 2) (minus_add s r)

-- The daemon answers a request with a text from which the client, after a round trip of r microseconds,
-- sets its clock to the daemon's time and as many whole seconds as fit into half the round trip, for a
-- time of at most 1023 digits.
cristian_round_trip :
    (current_time clock : ℤ) (s r : ℕ)
    → length (print_int current_time) ≤ 1023
    → (b : Bytes) × (latency : ℕ) × (handle_client true (codes "TIME_REQUEST") current_time
        ≡ (some b, true))
      × (cristian_sync true b true (pos s) (pos (s + r)) clock
          ≡ (current_time +ℤ pos latency, true))
      × (latency * 2000000 ≤ r)
      × (r < (latency + 1) * 2000000)
unfolding handle_client strip_prefix
cristian_round_trip current_time clock s r h = (
  print_int current_time,
  r / 1000000 / 2,
  refl,
  adjusted (print_int current_time) current_time (pos s) (pos (s + r)) clock refl h
      ∙ ap (λ l. (current_time +ℤ l, true)) (latency_lem s r),
  omega arith,
  omega arith,
)

add_zero : (z : ℤ) → z +ℤ pos 0 ≡ z
add_zero z = eq_of_parts (z +ℤ pos 0) z (omega (arith, +ℤ_parts z (pos 0)))

-- After a round trip of less than two seconds the client sets its clock to the daemon's time as it was
-- sent, with no correction, for a time of at most 1023 digits.
short_round_trip :
    (current_time clock : ℤ) (s r : ℕ)
    → length (print_int current_time) ≤ 1023
    → r < 2000000
    → cristian_sync true (print_int current_time) true (pos s) (pos (s + r)) clock
      ≡ (current_time, true)
short_round_trip current_time clock s r h l =
    adjusted (print_int current_time) current_time (pos s) (pos (s + r)) clock refl h
    ∙ ap (λ l. (current_time +ℤ l, true)) (latency_lem s r ∙ ap pos (omega arith))
    ∙ ap (λ t. (t, true)) (add_zero current_time)
