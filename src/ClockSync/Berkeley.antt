-- ===== src/ClockSync/Berkeley.antt =====
-- tp6-algoritmo-de-berkeley: a round of the daemon's synchronize_time, and a message in the client's
-- handler_mensajes. What send, recv, time and settimeofday give is an argument.
use so_distribuidos.Prelude.{
  get_elem?, lt→ltb, ℕ, zero, suc, ◌+◌, ◌/◌, ◌≤◌, ◌<◌, Bool, true, false, ◌&&◌, Option, none, some,
  List, [], ◌∷◌, ◌++◌, ◌≡◌, inl, inr, refl, arith, Bool-cases, Bytes, codes, ℤ, pos, negsuc, ◌+ℤ◌,
  eqb_ℤ, ltb, ◌==◌, if◌then◌else◌, length, take, c_str, atoi, print_int, sub_ℕ,
}
use so_distribuidos.ClockSync.Slots.{Client, ServerState, IsServer}

-- What a client does when it is asked for its time: whether send succeeds, and what recv gives, nothing
-- if it fails, times out or finds the end.
pub record Reply : Type 0 where
  pub sent : Bool
  pub received : Bytes

abbrev received_time : Bytes → ℤ
received_time [] = negsuc 0
received_time (x ∷ b) = atoi (c_str (take 1023 (x ∷ b)))

unfoldable pub request_client_time : Reply → ℤ
request_client_time r = if r.sent then received_time r.received else negsuc 0

-- The loop over the first `n` clients: times[1..], and the clients with their new `active`.
abbrev pub asked : ℤ → Client → List ℤ × List Client → List ℤ × List Client
asked z c (ts, cs) =
    if c.active
    then (if eqb_ℤ z (negsuc 0)
        then (ts, record { socket = c.socket; active = false } ∷ cs)
        else (z ∷ ts, c ∷ cs))
    else (ts, c ∷ cs)

unfoldable pub get_times : (ℕ → Reply) → ℕ → List Client → List ℤ × List Client
unfolding request_client_time
get_times net zero cs = ([], cs)
get_times net (suc n) [] = ([], [])
get_times net (suc n) (c ∷ cs) = asked (request_client_time (net c.socket)) c (get_times net n cs)

unfoldable pub sum : List ℤ → ℤ
sum [] = pos 0
sum (z ∷ zs) = z +ℤ sum zs

-- C's division by a positive number, which truncates towards 0.
unfoldable pub div_ℤ : ℤ → ℕ → ℤ
div_ℤ (pos a) d = pos (a / d)
div_ℤ (negsuc a) d = sub_ℕ 0 (suc a / d)

unfoldable pub send_time_sync : ℤ → Bytes
send_time_sync z = codes "TIME_SYNC " ++ print_int z

-- The loop that sends: to a socket, a text. `k` is client_index.
abbrev pub one_more : Bool → Client → Bytes → List (ℕ × Bytes) → List (ℕ × Bytes)
one_more b c m rest = if b then (c.socket, m) ∷ rest else rest

unfoldable pub send_all : Bytes → ℕ → ℕ → ℕ → List Client → List (ℕ × Bytes)
send_all m valid_times zero k cs = []
send_all m valid_times (suc n) k [] = []
send_all m valid_times (suc n) k (c ∷ cs) =
    let sent = one_more (ltb (suc k) valid_times) c m (send_all m valid_times n (suc k) cs) in
    let skipped = send_all m valid_times n k cs in if c.active then sent else skipped

-- modificar_tiempo_servidor: the time that is set, none where gettimeofday or settimeofday fails.
unfoldable pub modificar_tiempo_servidor : Bool → Bool → ℤ → Option ℤ
modificar_tiempo_servidor get_ok set_ok z = if get_ok && set_ok then some z else none

-- A round: the server's clients, what is sent, and the time that modificar_tiempo_servidor sets, none
-- where it fails or no client ever connected.
pub record Round : Type 0 where
  pub state : ServerState
  pub messages : List (ℕ × Bytes)
  pub new_time : Option ℤ

unfoldable pub average : List ℤ → ℤ
unfolding sum div_ℤ
average times = div_ℤ (sum times) (length times)

abbrev pub times_of : (ℕ → Reply) → ServerState → List ℤ × List Client
unfolding get_times
times_of net s = get_times net s.client_count s.clients

unfoldable pub synchronize_round : Bool → Bool → ℤ → (ℕ → Reply) → ServerState → Round
unfolding get_times average send_time_sync send_all modificar_tiempo_servidor
synchronize_round get_ok set_ok local_time net s =
    let r = get_times net s.client_count s.clients in
    let average_time = average (local_time ∷ r.0) in
    if s.client_count == 0 then record { state = s; messages = []; new_time = none } else record {
      state = record { clients = r.1; client_count = s.client_count };
      messages = send_all (send_time_sync average_time) (suc (length r.0)) s.client_count 0 r.1;
      new_time = modificar_tiempo_servidor get_ok set_ok average_time;
    }

-- The sockets of the active clients among the first `n`, each with a text.
unfoldable pub to_active : Bytes → ℕ → List Client → List (ℕ × Bytes)
to_active m zero cs = []
to_active m (suc n) [] = []
to_active m (suc n) (c ∷ cs) =
    let rest = to_active m n cs in if c.active then (c.socket, m) ∷ rest else rest

module _ (m : Bytes) (n v k : ℕ) (c : Client) (z : ℤ) (ts : List ℤ) (cs : List Client) where
  send_all-asked :
      ((j : ℕ) → j + length ts < v → send_all m v n j cs ≡ to_active m n cs)
      → k + length (asked z c (ts, cs)).0 < v
      → send_all m v (suc n) k (asked z c (ts, cs)).1 ≡ to_active m (suc n) (asked z c (ts, cs)).1
  unfolding send_all to_active
  send_all-asked h = elim (Bool-cases c.active) [
    | inl a ↦ rw a (elim (Bool-cases (eqb_ℤ z (negsuc 0))) [
      | inl b ↦ rw b (λ l. h k l)
      | inr b ↦ rw b (λ l. rw (lt→ltb (suc k) v (omega arith), h (suc k) (omega arith)) refl)
    ])
    | inr a ↦ rw a (λ l. h k l)
  ]

-- There is room in the count for each active client.
send_all-to_active :
    (net : ℕ → Reply) (m : Bytes) (n v : ℕ) (cs : List Client) (k : ℕ)
    → k + length (get_times net n cs).0 < v
    → send_all m v n k (get_times net n cs).1 ≡ to_active m n (get_times net n cs).1
unfolding send_all to_active get_times
send_all-to_active net m zero v cs k h = refl
send_all-to_active net m (suc n) v [] k h = refl
send_all-to_active net m (suc n) v (c ∷ cs) k h =
    send_all-asked m n v k c (request_client_time (net c.socket)) (get_times net n cs).0
      (get_times net n cs).1 (send_all-to_active net m n v cs) h

length-get_times :
    (net : ℕ → Reply) (n : ℕ) (cs : List Client) → length (get_times net n cs).0 ≤ length cs
unfolding get_times
length-get_times net zero cs = omega arith
length-get_times net (suc n) [] = omega arith
length-get_times net (suc n) (c ∷ cs) = ground (arith, length-get_times net n cs)

-- A round, once a client has connected, sends the average of the server's time and of the times it got,
-- in the format of send_time_sync, to exactly the clients that are active after the round, in order: the
-- count that guards the sending holds none of them back. The server's clock is set to the same average
-- where gettimeofday and settimeofday succeed, and is left alone where one of them fails, though the
-- clients are sent the average all the same.
pub synchronize_round-messages :
    (get_ok set_ok : Bool) (local_time : ℤ) (net : ℕ → Reply) (s : ServerState)
    → 0 < s.client_count
    → let r = synchronize_round get_ok set_ok local_time net s in
      let average_time = average (local_time ∷ (times_of net s).0) in
      (r.new_time ≡ (if get_ok && set_ok then some average_time else none))
      × (r.messages ≡ to_active (send_time_sync average_time) s.client_count r.state.clients)
unfolding synchronize_round modificar_tiempo_servidor
synchronize_round-messages get_ok set_ok local_time net s h =
    rw not_zero (refl, send_all-to_active net _ s.client_count _ s.clients 0 (omega arith))
  where
    not_zero : s.client_count == 0 ≡ false
    not_zero = ground arith

length-get_times_clients :
    (net : ℕ → Reply) (n : ℕ) (cs : List Client) → length (get_times net n cs).1 ≡ length cs
unfolding get_times
length-get_times_clients net zero cs = refl
length-get_times_clients net (suc n) [] = refl
length-get_times_clients net (suc n) (c ∷ cs) = ground (arith, length-get_times_clients net n cs)

-- Asking for the time only ever makes clients inactive.
active-get_times :
    (net : ℕ → Reply) (n : ℕ) (cs : List Client) (i : ℕ) (c : Client)
    → get_elem? (get_times net n cs).1 i ≡ some c
    → c.active ≡ true
    → get_elem? cs i ≡ some c
unfolding get_times
active-get_times net zero cs i c h a = h
active-get_times net (suc n) [] i c h a = h
active-get_times net (suc n) (d ∷ cs) zero c h a = ground arith
active-get_times net (suc n) (d ∷ cs) (suc i) c h a =
    active-get_times net n cs i c
      (tail_of (request_client_time (net d.socket)) d (get_times net n cs) h) a
  where
    tail_of :
        (z : ℤ) (d : Client) (r : List ℤ × List Client)
        → get_elem? (asked z d r).1 (suc i) ≡ some c
        → get_elem? r.1 i ≡ some c
    tail_of z d (ts, ds) h = ground arith

-- A round keeps every active client below client_count and the slots as many as they were, and its
-- array of times needs no more entries than the slots and one.
pub synchronize_round-IsServer :
    (get_ok set_ok : Bool) (local_time : ℤ) (net : ℕ → Reply) (s : ServerState)
    → IsServer s
    → let r = synchronize_round get_ok set_ok local_time net s in
      IsServer r.state
      × (length r.state.clients ≡ length s.clients)
      × (length (local_time ∷ (times_of net s).0) ≤ suc (length s.clients))
unfolding synchronize_round
synchronize_round-IsServer get_ok set_ok local_time net s h =
    elim (Bool-cases (s.client_count == 0)) [
      | inl b ↦ rw b (h, refl, fits)
      | inr b ↦ rw b (
        record {
          reached =
              λ i c g a. h.reached i c (active-get_times net s.client_count s.clients i c g a) a;
          bounded = omega (arith, h.bounded, same);
        },
        same,
        fits,
      )
    ]
  where
    fits : length (local_time ∷ (times_of net s).0) ≤ suc (length s.clients)
    fits = omega (arith, length-get_times net s.client_count s.clients)

    same : length (get_times net s.client_count s.clients).1 ≡ length s.clients
    same = length-get_times_clients net s.client_count s.clients
