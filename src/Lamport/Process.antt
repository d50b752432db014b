-- ===== src/Lamport/Process.antt =====
-- proceso.c: what its three threads do to the logical clock, one critical section each. And one round
-- of the select loop of proceso_reloj_manual.c.
use so_distribuidos.Prelude.{
  arith, ◌∙◌, ap, Bool, true, ◌&&◌, Option, none, some, [], ◌∷◌, ◌≡◌, refl, Bytes, ℤ, pos, ltb_ℤ,
  ◌+ℤ◌, if◌then◌else◌, take, c_str, scan_int, atoi, print_int,
}

-- a > b ? a : b
unfoldable pub max : ℤ → ℤ → ℤ
max a b = if ltb_ℤ b a then a else b

-- clock_thread: one tick.
unfoldable pub tick : ℤ → ℤ
tick clock = clock +ℤ pos 1

-- sscanf(buffer, "%d", &recv_clock): `garbage` is what the variable held, which stays if no number
-- is found.
abbrev scanned : ℤ → Option (ℤ × Bytes) → ℤ
scanned garbage none = garbage
scanned garbage (some (z, _)) = z

-- The buffer of MAX_MSG bytes after memset and read, as a C string.
unfoldable pub recv_clock : ℤ → Bytes → ℤ
recv_clock garbage b = scanned garbage (scan_int (c_str (take 128 b)))

-- server_thread: what was read from an accepted connection, nothing if read fails or finds the end.
unfoldable pub on_message : ℤ → Bytes → ℤ → ℤ
unfolding max recv_clock
on_message garbage [] clock = clock
on_message garbage (x ∷ b) clock = max clock (recv_clock garbage (x ∷ b)) +ℤ pos 1

-- A message to a port.
abbrev pub Outgoing : Type 0
Outgoing = ℤ × Bytes

-- input_thread: a line typed by the user. `socket_ok` and `connect_ok` say whether socket() and
-- connect() succeed.
unfoldable pub on_input : Bytes → Bool → Bool → ℤ → ℤ × Option Outgoing
on_input line socket_ok connect_ok clock =
    let dest_port = atoi (c_str (take 31 line)) in
    if ltb_ℤ (pos 0) dest_port
    then (if socket_ok
        then (if connect_ok
            then (clock +ℤ pos 1, some (dest_port, print_int (clock +ℤ pos 1)))
            else (clock, none))
        else (clock, none))
    else (clock, none)

-- What one call of select finds, and what the calls after it give: the bytes of a connection that is
-- waiting, and a line that is waiting on stdin.
pub record Round : Type 0 where
  pub activity : Bool
  pub connection : Option Bytes
  pub line : Option Bytes
  pub garbage : ℤ
  pub socket_ok : Bool
  pub connect_ok : Bool

round_connection : Round → Option Bytes → ℤ → ℤ
unfolding max recv_clock
round_connection r none clock = clock
round_connection r (some []) clock = clock
round_connection r (some (x ∷ b)) clock = max clock (recv_clock r.garbage (x ∷ b)) +ℤ pos 1

round_line : Round → Option Bytes → ℤ → ℤ × Option Outgoing
round_line r none clock = (clock, none)
round_line r (some line) clock =
    let dest_port = atoi (c_str (take 31 line)) in
    if ltb_ℤ (pos 0) dest_port && r.socket_ok && r.connect_ok
    then (clock +ℤ pos 1, some (dest_port, print_int (clock +ℤ pos 1)))
    else (clock, none)

-- proceso_reloj_manual.c: one round of the loop. (A failing accept ends that program.)
unfoldable pub manual_round : Round → ℤ → ℤ × Option Outgoing
unfolding round_connection round_line
manual_round r clock =
    if r.activity
    then round_line r r.line (round_connection r r.connection clock)
    else (clock, none)

-- The handlers of proceso.c on what the round found, if anything.
abbrev pub message_if : Round → Option Bytes → ℤ → ℤ
message_if r none clock = clock
message_if r (some b) clock = on_message r.garbage b clock

abbrev pub input_if : Round → Option Bytes → ℤ → ℤ × Option Outgoing
input_if r none clock = (clock, none)
input_if r (some line) clock = on_input line r.socket_ok r.connect_ok clock

same_connection : (r : Round) (b : Option Bytes) (c : ℤ) → round_connection r b c ≡ message_if r b c
unfolding round_connection on_message
same_connection r none c = refl
same_connection r (some []) c = refl
same_connection r (some (x ∷ b)) c = refl

same_line : (r : Round) (b : Option Bytes) (c : ℤ) → round_line r b c ≡ input_if r b c
unfolding round_line on_input
same_line r none c = refl
same_line r (some line) c = ground arith

-- A round of proceso_reloj_manual.c in which select reports activity does to the clock, and sends,
-- what the server thread and then the input thread of proceso.c do on the same message and line.
pub manual_round-threads :
    (r : Round) (clock : ℤ)
    → r.activity ≡ true
    → manual_round r clock ≡ input_if r r.line (message_if r r.connection clock)
unfolding manual_round
manual_round-threads r clock h =
    rw h (same_line r r.line _ ∙ ap (input_if r r.line) (same_connection r r.connection clock))
