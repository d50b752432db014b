-- ===== src/ClockSync/Accuracy.antt =====
-- tp-cristian: how near a round of the client brings its clock to the daemon's.
use so_distribuidos.Prelude.{
  ◌+◌, ◌/◌, ◌≤◌, ℕ, true, some, ◌≡◌, ◌∙◌, ap, refl, arith, Bytes, codes, ℤ, pos, ◌+ℤ◌, +ℤ_parts,
  eq_of_parts, length, print_int, strip_prefix,
}
use so_distribuidos.ClockSync.Cristian.{handle_client, cristian_sync, adjusted, latency_lem}

pos_add : (a b : ℕ) → pos a +ℤ pos b ≡ pos (a + b)
pos_add a b = eq_of_parts (pos a +ℤ pos b) (pos (a + b)) (omega (arith, +ℤ_parts (pos a) (pos b)))

-- The daemon answers a request at t microseconds of its clock, and the answer is back d microseconds
-- later, within a round trip of r microseconds. Then the client, for a time of at most 1023 digits
-- and where it may set its clock, sets it to a time that is ahead of the daemon's by at most the
-- latency that it estimates, and behind it by at most that latency and two seconds.
pub exactitud :
    (clock : ℤ) (s r t d : ℕ)
    → d ≤ r
    → length (print_int (pos (t / 1000000))) ≤ 1023
    → (b : Bytes) × (a : ℕ) × (handle_client true (codes "TIME_REQUEST") (pos (t / 1000000))
        ≡ (some b, true))
      × (cristian_sync true b true (pos s) (pos (s + r)) clock ≡ (pos a, true))
      × (a ≤ (t + d) / 1000000 + r / 1000000 / 2)
      × ((t + d) / 1000000 ≤ a + r / 1000000 / 2 + 2)
unfolding handle_client strip_prefix
exactitud clock s r t d h k = (
  print_int (pos (t / 1000000)),
  t / 1000000 + r / 1000000 / 2,
  refl,
  adjusted (print_int (pos (t / 1000000))) (pos (t / 1000000)) (pos s) (pos (s + r)) clock refl k
      ∙ ap (λ l. (pos (t / 1000000) +ℤ l, true)) (latency_lem s r)
      ∙ ap (λ z. (z, true)) (pos_add (t / 1000000) (r / 1000000 / 2)),
  omega arith,
  omega arith,
)
