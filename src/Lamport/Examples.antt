-- ===== src/Lamport/Examples.antt =====
-- A run of two processes of tp5-algoritmo-de-lamport: one sends its clock to the other.
use so_distribuidos.Prelude.{
  ℕ, true, none, some, [], ◌∷◌, ◌≡◌, refl, arith, Bytes, ℤ, pos, ◌<ℤ◌, ◌+ℤ◌, codes, c_str, scan_int,
  skip_spaces, scan_signed, scan_nat, scan_digits, atoi, print_int, print_nat,
}
use so_distribuidos.Lamport.Process.{
  max, recv_clock, on_message, on_input, Round, manual_round, message_if, input_if,
  manual_round-threads,
}
use so_distribuidos.Lamport.System.{
  Network, event, Step, sends, receives, here, next, start, message,
}
use so_distribuidos.Lamport.ClockCondition.{clock_condition}

abbrev clocks : ℕ → ℤ
clocks i = pos 4

abbrev line : Bytes
line = codes "8002"

abbrev sent : Network
sent =
    event (start clocks) 8001 (pos 5) none
      (record { dest = pos 8002; bytes = codes "5"; source = 0 } ∷ [])

abbrev got : Network
got = event sent 8002 (pos 6) (some 0) []

sent-Step : Step (start clocks) sent
unfolding on_input atoi scan_int skip_spaces scan_signed scan_nat scan_digits ◌+ℤ◌ c_str print_int
    print_nat
sent-Step = sends 8001 line (pos 5) (pos 8002) (codes "5") refl (omega arith, omega arith)

got-Step : Step sent got
unfolding on_message max recv_clock scan_int skip_spaces scan_signed scan_nat scan_digits ◌+ℤ◌ c_str
got-Step = receives 8002 (pos 77) [] _ [] refl refl (omega arith, omega arith)

clock_condition_example : pos 5 <ℤ pos 6
clock_condition_example =
    clock_condition {a = 0} {b = 1} {e = record { proc = 8001; stamp = pos 5; cause = none }}
      {f = record { proc = 8002; stamp = pos 6; cause = some 0 }}
      (next (next here sent-Step) got-Step) (message refl refl) refl refl

abbrev round : Round
round = record {
  activity = true;
  connection = some (codes "9");
  line = some line;
  garbage = pos 0;
  socket_ok = true;
  connect_ok = true;
}

manual_round-threads_example :
    manual_round round (pos 4)
    ≡ input_if round round.line (message_if round round.connection (pos 4))
manual_round-threads_example = manual_round-threads round (pos 4) refl
