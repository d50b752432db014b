-- ===== src/PageServer/Client.antt =====
-- client.c of tp8-memoria-compartida-distribuida: one run of the client, on what its calls give it.
use so_distribuidos.Prelude.{
  ℕ, Bool, true, false, ◌||◌, Option, none, some, List, [], ◌∷◌, ◌++◌, Bytes, ℤ, pos, eqb_ℤ, ◌==◌,
  if◌then◌else◌, take, print_int, atoi,
}
use so_distribuidos.PageServer.Message.{
  Incoming, send_command, format, recv_command, Response, parse_server_response,
}

-- What one recv_command meets: the malloc of its buffer, the malloc of the content behind it, and recv.
pub record Arrival : Type 0 where
  pub buffer_alloc : Bool
  pub content_alloc : Bool
  pub input : Incoming

-- snprintf(page_str, sizeof(page_str), "%d", page_num)
abbrev page_str : ℤ → Bytes
page_str page_num = take 15 (print_int page_num)

abbrev first_recv : List Arrival → Option Bytes
first_recv [] = none
first_recv (a ∷ rest) = recv_command a.buffer_alloc a.input

abbrev reading : Bool × List Bytes → List Arrival → List Bytes × Option Bytes
reading (false, out) rest = (out, none)
reading (true, out) rest = (out, first_recv rest)

-- What is sent, and the text that is printed as the page.
unfoldable pub handle_read_operation : Bool → List Arrival → ℤ → List Bytes × Option Bytes
handle_read_operation sent rest page_num =
    reading (send_command (pos 0) (some (page_str page_num)) sent) rest

abbrev parsed : Bool → List Arrival → Option Bytes → Option (Response × List Arrival)
parsed alloc rest none = none
parsed alloc rest (some m) = some (parse_server_response alloc m, rest)

-- recv_command and parse_server_response. Past the last arrival the connection is closed.
abbrev pub next_response : List Arrival → Option (Response × List Arrival)
next_response [] = none
next_response (a ∷ rest) = parsed a.content_alloc rest (recv_command a.buffer_alloc a.input)

abbrev awaited : Option (List Arrival) → Option (Response × List Arrival) → Option (List Arrival)
awaited later none = none
awaited later (some (r, rest)) = if eqb_ℤ r.command (pos 0) then some rest else later

-- The loop that waits for a notification with the command 0.
unfoldable pub wait_notification : List Arrival → Option (List Arrival)
wait_notification [] = none
wait_notification (a ∷ rest) = awaited (wait_notification rest) (next_response (a ∷ rest))

pub data Outcome : Type 0 where
  request_not_sent : Outcome
  no_response : Outcome
  unexpected : ℤ → Outcome
  no_line : Outcome
  write_not_sent : Outcome
  not_confirmed : Outcome
  updated : Outcome

-- The text without its last newline.
unfoldable pub chomp : Bytes → Bytes
chomp [] = []
chomp (x ∷ []) = if x == 10 then [] else x ∷ []
chomp (x ∷ y ∷ b) = x ∷ chomp (y ∷ b)

abbrev confirmed : Option (Response × List Arrival) → Outcome
confirmed none = not_confirmed
confirmed (some (r, rest)) = if eqb_ℤ r.command (pos 2) then updated else not_confirmed

abbrev writing : List Bytes → Bool × List Bytes → List Arrival → List Bytes × Outcome
writing out (false, more) rest = (out ++ more, write_not_sent)
writing out (true, more) rest = (out ++ more, confirmed (next_response rest))

-- `line` is what fgets stores in new_content, if it does.
abbrev pub available :
    Bool → Option Bytes → ℤ → List Bytes → Option (List Arrival) → List Bytes × Outcome
available sent line page_num out none = (out, no_response)
available sent none page_num out (some rest) = (out, no_line)
available sent (some line) page_num out (some rest) =
    writing out (send_command (pos 2) (some (format page_num (chomp line))) sent) rest

abbrev pub locked :
    Bool → Option Bytes → ℤ → List Bytes → Option (Response × List Arrival) → List Bytes × Outcome
locked sent line page_num out none = (out, no_response)
locked sent line page_num out (some (r, rest)) =
    if eqb_ℤ r.command (pos 1)
    then available sent line page_num out (wait_notification rest)
    else if eqb_ℤ r.command (pos 0)
    then available sent line page_num out (some rest)
    else (out, unexpected r.command)

abbrev requesting :
    Bool → Option Bytes → ℤ → Bool × List Bytes → List Arrival → List Bytes × Outcome
requesting sent line page_num (false, out) rest = (out, request_not_sent)
requesting sent line page_num (true, out) rest = locked sent line page_num out (next_response rest)

-- The messages that are sent, in their order, and how the operation ends. The two flags say whether the
-- two calls of send succeed.
unfoldable pub handle_write_operation :
    Bool → Bool → Option Bytes → List Arrival → ℤ → List Bytes × Outcome
unfolding wait_notification chomp
handle_write_operation request_sent write_sent line rest page_num =
    requesting write_sent line page_num
      (send_command (pos 1) (some (page_str page_num)) request_sent) rest

pub data Ran : Type 0 where
  usage : Ran
  no_connection : Ran
  read : List Bytes × Option Bytes → Ran
  wrote : List Bytes × Outcome → Ran

-- The first byte of argv[3].
abbrev operation : Bytes → ℕ
operation [] = 0
operation (x ∷ b) = x

abbrev operate : Bool → Bool → Bool → Option Bytes → List Arrival → Bool → Bool → ℤ → Ran
operate connection request_sent write_sent line rest false false page_num = usage
operate connection request_sent write_sent line rest r w page_num =
    if connection
    then (if r
        then read (handle_read_operation request_sent rest page_num)
        else wrote (handle_write_operation request_sent write_sent line rest page_num))
    else no_connection

-- main, on the arguments behind the program's name. `connection` says whether create_connection succeeds.
unfoldable pub main : Bool → Bool → Bool → Option Bytes → List Arrival → List Bytes → Ran
unfolding handle_read_operation handle_write_operation
main connection request_sent write_sent line rest (server_ip ∷ port ∷ op ∷ page ∷ []) =
    operate connection request_sent write_sent line rest
      ((operation op == b'R') || (operation op == b'r'))
      ((operation op == b'W') || (operation op == b'w')) (atoi page)
main connection request_sent write_sent line rest _ = usage
