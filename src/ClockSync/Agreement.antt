-- ===== src/ClockSync/Agreement.antt =====
-- tp6-algoritmo-de-berkeley: what a round of the daemon makes of all the clocks.
use so_distribuidos.Prelude.{
  get_elem?, ℕ, ◌==◌, ◌≤◌, ◌<◌, Bool, true, false, some, ◌∷◌, ◌≡◌, refl, ap, ◌∙◌, subst, arith,
  Bytes, ℤ, pos, length, print_int,
}
use so_distribuidos.ClockSync.Slots.{Client, ServerState, IsServer}
use so_distribuidos.ClockSync.Berkeley.{
  Reply, get_times, average, times_of, send_time_sync, to_active, synchronize_round, Round,
  synchronize_round-messages, synchronize_round-IsServer,
}
use so_distribuidos.ClockSync.Average.{Between, average-Between}
use so_distribuidos.ClockSync.Answers.{
  red, entregar, get_times-Between, get_times-kept, entregado-active,
}

round_state :
    (get_ok set_ok : Bool) (local_time : ℤ) (net : ℕ → Reply) (s : ServerState)
    → 0 < s.client_count
    → (synchronize_round get_ok set_ok local_time net s).state
      ≡ record { clients = (times_of net s).1; client_count = s.client_count }
unfolding synchronize_round
round_state get_ok set_ok local_time net s h = rw not_zero refl
  where
    not_zero : s.client_count == 0 ≡ false
    not_zero = ground arith

-- A round of the Berkeley daemon with its clients. The clients that are there answer and set their
-- clocks, the others answer nothing; one client at least has connected; every clock stands between lo
-- and hi, not before 1970, and is written with at most 1013 digits, as is the average. gettimeofday
-- and settimeofday succeed at the server. Then there is a time a between lo and hi to which the server is
-- set, as is every client that is active after the round, once it has the message; and every client that was active and is there still is.
pub acuerdo :
    (stale : ℕ → Bytes) (vivo : ℕ → Bool) (lo hi : ℕ) (local_time : ℤ) (relojes : ℕ → ℤ)
    (s : ServerState)
    → IsServer s
    → 0 < s.client_count
    → Between lo hi local_time
    → ((k : ℕ) → Between lo hi (relojes k))
    → ((k : ℕ) → length (print_int (relojes k)) ≤ 1013)
    → length (print_int (average (local_time ∷ (times_of (red stale vivo relojes) s).0))) ≤ 1013
    → let r = synchronize_round true true local_time (red stale vivo relojes) s in
      (a : ℕ) × (lo ≤ a)
      × (a ≤ hi)
      × (r.new_time ≡ some (pos a))
      × ((i : ℕ) (c : Client)
          → get_elem? r.state.clients i ≡ some c
          → c.active ≡ true
          → entregar stale vivo r.messages relojes c.socket ≡ pos a)
      × ((i : ℕ) (c : Client)
          → get_elem? s.clients i ≡ some c
          → c.active ≡ true
          → vivo c.socket ≡ true
          → get_elem? r.state.clients i ≡ some c)
unfolding get_times
acuerdo stale vivo lo hi local_time relojes s v some_client h between short fits = (
  a,
  l,
  u,
  sent.0 ∙ ap some e,
  λ i c g k.
      ap (λ m. entregar stale vivo m relojes c.socket)
        (sent.1 ∙ ap (λ z. to_active (send_time_sync z) s.client_count r.state.clients) e)
      ∙ entregado-active stale vivo a (subst (λ z. length (print_int z) ≤ 1013) e fits)
          s.client_count r.state.clients relojes i c g k (reached i c g k),
  λ i c g k w.
      ap (λ (x : ServerState). get_elem? x.clients i)
        (round_state true true local_time (red stale vivo relojes) s some_client)
      ∙ get_times-kept stale vivo lo hi relojes between short s.client_count s.clients i c g k w,
)
  where
    r : Round
    r = synchronize_round true true local_time (red stale vivo relojes) s

    mean : Between lo hi (average (local_time ∷ (times_of (red stale vivo relojes) s).0))
    mean =
        average-Between lo hi local_time (times_of (red stale vivo relojes) s).0
          (h, get_times-Between stale vivo lo hi relojes between short s.client_count s.clients)

    a : ℕ
    a = mean.0

    e : average (local_time ∷ (times_of (red stale vivo relojes) s).0) ≡ pos a
    e = mean.1

    l : lo ≤ a
    l = mean.2

    u : a ≤ hi
    u = mean.3

    sent :
        (r.new_time ≡ some (average (local_time ∷ (times_of (red stale vivo relojes) s).0)))
        × (r.messages
            ≡ to_active
                (send_time_sync (average (local_time ∷ (times_of (red stale vivo relojes) s).0)))
                s.client_count
                r.state.clients)
    sent = synchronize_round-messages true true local_time (red stale vivo relojes) s some_client

    reached :
        (i : ℕ) (c : Client)
        → get_elem? r.state.clients i ≡ some c
        → c.active ≡ true
        → i < s.client_count
    reached i c g k =
        subst (λ (x : ServerState). i < x.client_count)
          (round_state true true local_time (red stale vivo relojes) s some_client)
          ((synchronize_round-IsServer true true local_time (red stale vivo relojes) s v).0.reached
            i c g k)
