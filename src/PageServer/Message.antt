-- ===== src/PageServer/Message.antt =====
-- The wire format of tp8-memoria-compartida-distribuida: communication.c, the request parser of
-- newServer.c, and the response parser of client.c.
pub mod RoundTrip
use so_distribuidos.Prelude.{
  ℕ, Bool, true, false, ◌||◌, Option, none, some, List, [], ◌∷◌, ◌++◌, ◌>>=◌, Bytes, codes, ℤ, pos,
  negsuc, ltb_ℤ, leb, if◌then◌else◌, length, take, print_int, scan_int, atoi, split_at, c_str,
}

-- MAX_MSG
abbrev pub max_msg : ℕ
max_msg = 512

abbrev transmit : Bytes → Bool → Bool × List Bytes
transmit message sent =
    if leb max_msg (length message)
    then (false, [])
    else if sent
    then (true, message ∷ [])
    else (false, [])

abbrev pub format : ℤ → Bytes → Bytes
format command content = print_int command ++ b' ' ∷ content

abbrev transmit_content : ℤ → Option Bytes → Bool → Bool × List Bytes
transmit_content command none sent = (false, [])
transmit_content command (some content) sent = transmit (format command content) sent

-- `sent` says whether send() succeeds. The result is whether 0 is returned, and what was sent.
unfoldable pub send_command : ℤ → Option Bytes → Bool → Bool × List Bytes
send_command command content sent =
    if ltb_ℤ command (pos 0) || ltb_ℤ (pos 2) command
    then (false, [])
    else transmit_content command content sent

-- What recv() gives: an error, or the bytes that came; no byte is a closed connection.
abbrev pub Incoming : Type 0
Incoming = Option Bytes

-- A buffer of `max_msg` bytes with a zero put behind what came, read as a C string.
abbrev received : Bytes → Bytes
received b = c_str (take 511 b)

abbrev received? : Incoming → Option Bytes
received? none = none
received? (some []) = none
received? (some (x ∷ b)) = some (received (x ∷ b))

-- `alloc` says whether malloc() succeeds.
unfoldable pub recv_command : Bool → Incoming → Option Bytes
recv_command alloc input = if alloc then received? input else none

pub record Request : Type 0 where
  pub command : ℤ
  pub page_num : ℤ
  pub content : Option Bytes

abbrev pub invalid : Request
invalid = record { command = negsuc 0; page_num = negsuc 0; content = none }

abbrev request_of : Option (ℤ × ℤ) → Request
request_of none = invalid
request_of (some (c, p)) = record { command = c; page_num = p; content = none }

-- sscanf(buffer, "%d %d", …)
scan_pair : Bytes → Option (ℤ × ℤ)
scan_pair b = do c ← scan_int b; p ← scan_int c.1; some (c.0, p.0)

parse_second : Bool → Bytes → Bytes → Option (Bytes × Bytes) → Request
unfolding scan_pair
parse_second alloc b first none = request_of (scan_pair b)
parse_second alloc b first (some (second, content)) =
    if alloc
    then record { command = atoi first; page_num = atoi second; content = some content }
    else invalid

parse_first : Bool → Bytes → Option (Bytes × Bytes) → Request
unfolding parse_second
parse_first alloc b none = invalid
parse_first alloc b (some (first, after)) = parse_second alloc b first (split_at b' ' after)

abbrev parse_received : Bool → Option Bytes → Request
unfolding parse_first
parse_received alloc none = invalid
parse_received alloc (some b) = parse_first alloc b (split_at b' ' b)

-- `recv_command_page_num_content`: "command page_num" or "command page_num content".
unfoldable pub recv_command_page_num_content : Bool → Incoming → Request
unfolding parse_first
recv_command_page_num_content alloc input = parse_received alloc (received? input)

pub record Response : Type 0 where
  pub command : ℤ
  pub content : Option Bytes

content_of : Bool → Bytes → Option Bytes
content_of alloc [] = none
content_of alloc (x ∷ b) = if alloc then some (x ∷ b) else none

response_of : Bool → Bytes → Option (Bytes × Bytes) → Response
unfolding content_of
response_of alloc b none = record { command = atoi b; content = none }
response_of alloc b (some (first, content)) = record {
  command = atoi b;
  content = content_of alloc content;
}

-- `parse_server_response` of client.c, for a response that is there.
unfoldable pub parse_server_response : Bool → Bytes → Response
unfolding response_of
parse_server_response alloc b = response_of alloc b (split_at b' ' b)
