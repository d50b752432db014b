-- ===== src/ClockSync/Examples.antt =====
-- The daemons and clients of both synchronisers at small inputs.
use so_distribuidos.Prelude.{
  atoi, c_str, Bool, ℤ, ◌/◌, zero, suc, ◌==◌, if◌then◌else◌, ℕ, true, false, some, [], ◌∷◌, ◌≡◌,
  ◌+◌, ◌<◌, ◌≤◌, refl, arith, Bytes, pos, ◌+ℤ◌, codes, length, get_elem?, print_int, print_nat,
}
use so_distribuidos.ClockSync.Slots.{
  Client, ServerState, IsServer, accept_client, free_slot, set_slot, accept_client-IsServer,
}
use so_distribuidos.ClockSync.Berkeley.{
  Reply, times_of, synchronize_round, send_time_sync, to_active, average,
  synchronize_round-messages, synchronize_round-IsServer,
}
use so_distribuidos.ClockSync.Average.{handler_mensajes}
use so_distribuidos.ClockSync.Accuracy.{exactitud}
use so_distribuidos.ClockSync.Answers.{red, entregar}
use so_distribuidos.ClockSync.Agreement.{acuerdo}
use so_distribuidos.ClockSync.Cristian.{handle_client, cristian_sync}

abbrev fresh : ServerState
fresh = record {
  clients = record { socket = 0; active = false } ∷ record { socket = 0; active = false } ∷ [];
  client_count = 0;
}

fresh-IsServer : IsServer fresh
fresh-IsServer = record { reached = inactive; bounded = omega arith }
  where
    inactive : (i : ℕ) (c : Client) → get_elem? fresh.clients i ≡ some c → c.active ≡ true → i < 0
    inactive zero c h a = ground arith
    inactive (suc zero) c h a = ground arith
    inactive (suc (suc i)) c h a = ground arith

-- Client 7 answers, client 8 does not.
abbrev net : ℕ → Reply
net i = record { sent = true; received = if i == 7 then codes "20" else [] }

abbrev two : ServerState
two = (accept_client 8 (accept_client 7 fresh).1).1

synchronize_round-IsServer_example :
    let r = synchronize_round true true (pos 10) net two in
    IsServer r.state
    × (length r.state.clients ≡ length two.clients)
    × (length (pos 10 ∷ (times_of net two).0) ≤ suc (length two.clients))
synchronize_round-IsServer_example = synchronize_round-IsServer true true (pos 10) net two (
    accept_client-IsServer 8 (accept_client 7 fresh).1
      (accept_client-IsServer 7 fresh fresh-IsServer))

synchronize_round-messages_example :
    let r = synchronize_round true true (pos 10) net two in
    let average_time = average (pos 10 ∷ (times_of net two).0) in
    (r.new_time ≡ some average_time)
    × (r.messages ≡ to_active (send_time_sync average_time) two.client_count r.state.clients)
unfolding accept_client free_slot set_slot
synchronize_round-messages_example =
    synchronize_round-messages true true (pos 10) net two (omega arith)

exactitud_example :
    (b : Bytes) × (a : ℕ) × (handle_client true (codes "TIME_REQUEST") (pos (7000000 / 1000000))
      ≡ (some b, true))
    × (cristian_sync true b true (pos 5) (pos (5 + 4500000)) (pos 90) ≡ (pos a, true))
    × (a ≤ (7000000 + 600000) / 1000000 + 4500000 / 1000000 / 2)
    × ((7000000 + 600000) / 1000000 ≤ a + 4500000 / 1000000 / 2 + 2)
unfolding print_int print_nat
exactitud_example = exactitud (pos 90) 5 4500000 7000000 600000 (omega arith) (omega arith)

-- Client 7 answers with 20, client 8 is not there.
abbrev vivo : ℕ → Bool
vivo k = k == 7

abbrev veinte : ℕ → ℤ
veinte k = pos 20

abbrev callada : ℕ → Bytes
callada k = []

acuerdo_example :
    let r = synchronize_round true true (pos 10) (red callada vivo veinte) two in
    (a : ℕ) × (10 ≤ a)
    × (a ≤ 20)
    × (r.new_time ≡ some (pos a))
    × ((i : ℕ) (c : Client)
        → get_elem? r.state.clients i ≡ some c
        → c.active ≡ true
        → entregar callada vivo r.messages veinte c.socket ≡ pos a)
    × ((i : ℕ) (c : Client)
        → get_elem? two.clients i ≡ some c
        → c.active ≡ true
        → vivo c.socket ≡ true
        → get_elem? r.state.clients i ≡ some c)
unfolding accept_client free_slot set_slot print_int print_nat synchronize_round handler_mensajes
    ◌+ℤ◌ atoi c_str
acuerdo_example =
    acuerdo callada vivo 10 20 (pos 10) veinte two
      (accept_client-IsServer 8 (accept_client 7 fresh).1
        (accept_client-IsServer 7 fresh fresh-IsServer))
      (omega arith) (10, refl, omega arith, omega arith) (λ k. (20, refl, omega arith, omega arith))
      (λ k. omega arith) (omega arith)
