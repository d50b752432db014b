-- ===== src/PageServer/Message/RoundTrip.antt =====
-- What one side of tp8-memoria-compartida-distribuida formats, the other side parses.
use so_distribuidos.Prelude.{
  take-all, ℕ, ◌≤◌, ◌<◌, true, Option, none, some, [], ◌∷◌, ◌++◌, ◌≡◌, refl, sym, ap, ◌∙◌, arith,
  append-nil, Bytes, Free, ℤ, pos, length, print_int, scan_int, atoi, split_at, split_at-append,
  split_at-none, c_str, c_str-Free, atoi-print_int, scan_int-print_int, print_int-Free,
  length-append,
}
use so_distribuidos.PageServer.Message.{
  max_msg, send_command, format, received?, recv_command, recv_command_page_num_content,
  parse_server_response, scan_pair, content_of,
}

Free-append : (c : ℕ) (a b : Bytes) → Free c a → Free c b → Free c (a ++ b)
Free-append c [] b h k = k
Free-append c (x ∷ a) b h k = (h.0, Free-append c a b h.1 k)

-- A message that fits the buffer and holds no zero is received as it is.
received?-whole :
    (m : Bytes) → 0 < length m → length m < max_msg → Free 0 m → received? (some m) ≡ some m
received?-whole [] h k f = absurd (omega arith)
received?-whole (x ∷ m) h k f =
    ap some (ap c_str (take-all 511 (x ∷ m) (omega arith)) ∙ c_str-Free (x ∷ m) f)

length-format : (z : ℤ) (c : Bytes) → 0 < length (format z c)
length-format z c = omega (arith, length-append (print_int z) (b' ' ∷ c))

format-Free : (z : ℤ) (c : Bytes) → Free 0 c → Free 0 (format z c)
format-Free z c h =
    Free-append 0 (print_int z) (b' ' ∷ c) (print_int-Free 0 z refl (omega arith))
      ((omega arith), h)

split_at-format : (z : ℤ) (c : Bytes) → split_at b' ' (format z c) ≡ some (print_int z, c)
split_at-format z c =
    split_at-append b' ' (print_int z) c (print_int-Free b' ' z refl (omega arith))

atoi-print : (z : ℤ) → atoi (print_int z) ≡ z
atoi-print z = ap atoi (sym (append-nil (print_int z))) ∙ atoi-print_int z [] tt

pub send-format :
    (c : ℕ) (content : Bytes)
    → c ≤ 2
    → length (format (pos c) content) < max_msg
    → send_command (pos c) (some content) true ≡ (true, format (pos c) content ∷ [])
unfolding send_command
send-format c content h k = ground arith

pub recv-format :
    (c : ℕ) (page : ℤ) (content : Bytes)
    → Free 0 content
    → length (format (pos c) (format page content)) < max_msg
    → recv_command_page_num_content true (some (format (pos c) (format page content)))
      ≡ record { command = pos c; page_num = page; content = some content }
unfolding recv_command_page_num_content
recv-format c page content free fits = rw (
  received?-whole _ (length-format (pos c) (format page content)) fits
      (format-Free (pos c) _ (format-Free page content free)),
  split_at-format (pos c) (format page content),
  split_at-format page content,
  atoi-print (pos c),
  atoi-print page,
)

-- A request with content: for a command from 0 to 2, any page number, and content with no zero byte
-- that leaves the whole message shorter than the buffer, send_command sends one message, and the
-- server's parser gives the command, the page number and the content back, spaces in it included.
pub request_round_trip :
    (c : ℕ) (page : ℤ) (content : Bytes)
    → c ≤ 2
    → Free 0 content
    → length (format (pos c) (format page content)) < max_msg
    → (m : Bytes) × (send_command (pos c) (some (format page content)) true ≡ (true, m ∷ []))
      × (recv_command_page_num_content true (some m)
          ≡ record { command = pos c; page_num = page; content = some content })
request_round_trip c page content h free fits = (
  format (pos c) (format page content),
  send-format c (format page content) h fits,
  recv-format c page content free fits,
)

scan_int-space : (b : Bytes) → scan_int (b' ' ∷ b) ≡ scan_int b
unfolding scan_int
scan_int-space b = refl

scan_int-print : (z : ℤ) → scan_int (print_int z) ≡ some (z, [])
scan_int-print z = ap scan_int (sym (append-nil (print_int z))) ∙ scan_int-print_int z [] tt

scan_pair-format : (c page : ℤ) → scan_pair (format c (print_int page)) ≡ some (c, page)
unfolding scan_pair
scan_pair-format c page = rw (
  scan_int-print_int c (b' ' ∷ print_int page) refl,
  scan_int-space (print_int page),
  scan_int-print page,
)

pub recv-format_short :
    (c : ℕ) (page : ℤ)
    → length (format (pos c) (print_int page)) < max_msg
    → recv_command_page_num_content true (some (format (pos c) (print_int page)))
      ≡ record { command = pos c; page_num = page; content = none }
unfolding recv_command_page_num_content
recv-format_short c page fits = rw (
  received?-whole _ (length-format (pos c) (print_int page)) fits
      (format-Free (pos c) _ (print_int-Free 0 page refl (omega arith))),
  split_at-format (pos c) (print_int page),
  split_at-none b' ' (print_int page) (print_int-Free b' ' page refl (omega arith)),
  scan_pair-format (pos c) page,
)

-- What the client keeps of a response's content: none where it is empty.
abbrev pub kept_content : Bytes → Option Bytes
kept_content [] = none
kept_content (x ∷ b) = some (x ∷ b)

content_of-kept : (content : Bytes) → content_of true content ≡ kept_content content
unfolding content_of
content_of-kept [] = refl
content_of-kept (x ∷ b) = refl

pub recv_command-format :
    (c : ℕ) (content : Bytes)
    → Free 0 content
    → length (format (pos c) content) < max_msg
    → recv_command true (some (format (pos c) content)) ≡ some (format (pos c) content)
unfolding recv_command
recv_command-format c content free fits =
    received?-whole _ (length-format (pos c) content) fits (format-Free (pos c) content free)

pub parse-format :
    (c : ℕ) (content : Bytes)
    → parse_server_response true (format (pos c) content)
      ≡ record { command = pos c; content = kept_content content }
unfolding parse_server_response
parse-format c content =
    rw (split_at-format (pos c) content)
      (cc (atoi-print_int (pos c) (b' ' ∷ content) refl, content_of-kept content))

-- A response: for a command from 0 to 2 and content with no zero byte that leaves the message
-- shorter than the buffer, the client receives the message that the server sent, and its parser gives
-- the command and the content back, no content where it is empty.
response_round_trip :
    (c : ℕ) (content : Bytes)
    → c ≤ 2
    → Free 0 content
    → length (format (pos c) content) < max_msg
    → (m : Bytes) × (send_command (pos c) (some content) true ≡ (true, m ∷ []))
      × (recv_command true (some m) ≡ some m)
      × (parse_server_response true m ≡ record { command = pos c; content = kept_content content })
response_round_trip c content h free fits = (
  format (pos c) content,
  send-format c content h fits,
  recv_command-format c content free fits,
  parse-format c content,
)
