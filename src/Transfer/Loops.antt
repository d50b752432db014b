-- ===== src/Transfer/Loops.antt =====
-- The loops that send a file and receive one: `while ((n = fread(...)) > 0) send(...)` and
-- `while ((n = recv(...)) > 0) fwrite(...)`.
use so_distribuidos.Prelude.{
  subst, ◌⊎◌, inl, inr, ℕ, zero, suc, ◌-◌, ◌≤◌, ◌<◌, Option, none, some, List, [], ◌∷◌, ◌++◌, ◌≡◌,
  refl, sym, ap, ◌∙◌, arith, append_assoc, Bytes, length, length-append, take, drop, All, ◌>>=◌,
}

-- What is on its way to the reader of a connection, in the pieces it arrives in. The writer has closed
-- its end behind the last.
abbrev pub Connection : Type 0
Connection = List Bytes

abbrev pub rest_of : Bytes → Connection → Connection
rest_of [] s = s
rest_of (x ∷ b) s = (x ∷ b) ∷ s

-- recv with room for n bytes: of the first piece that is not empty. No byte is the end of the stream.
unfoldable pub recv : ℕ → Connection → Bytes × Connection
recv n [] = ([], [])
recv n ([] ∷ s) = recv n s
recv n ((x ∷ b) ∷ s) = (take n (x ∷ b), rest_of (drop n (x ∷ b)) s)

-- Everything that arrives.
unfoldable pub concat : List Bytes → Bytes
concat [] = []
concat (c ∷ s) = c ++ concat s

abbrev received_then : (Connection → Option Bytes) → Bytes × Connection → Option Bytes
received_then f ([], s) = some []
received_then f (x ∷ b, s) = do later ← f s; some (x ∷ b ++ later)

-- The loop on fuel: none where it runs out.
unfoldable pub recv_loop : ℕ → ℕ → Connection → Option Bytes
unfolding recv
recv_loop size zero s = none
recv_loop size (suc fuel) s = received_then (recv_loop size fuel) (recv size s)

unfoldable pub send_loop : ℕ → ℕ → Bytes → Option (List Bytes)
send_loop size zero b = none
send_loop size (suc fuel) [] = some []
send_loop size (suc fuel) (x ∷ b) = do
  chunks ← send_loop size fuel (drop size (x ∷ b))
  some (take size (x ∷ b) ∷ chunks)

take-append_drop : (n : ℕ) (b : Bytes) → take n b ++ drop n b ≡ b
take-append_drop zero b = refl
take-append_drop (suc n) [] = refl
take-append_drop (suc n) (x ∷ b) = ap (◌∷◌ x) (take-append_drop n b)

length-drop : (n : ℕ) (b : Bytes) → length (drop n b) ≡ length b - n
length-drop zero b = omega arith
length-drop (suc n) [] = omega arith
length-drop (suc n) (x ∷ b) = omega (arith, length-drop n b)

concat-rest_of : (b : Bytes) (s : Connection) → concat (rest_of b s) ≡ b ++ concat s
unfolding concat
concat-rest_of [] s = refl
concat-rest_of (x ∷ b) s = refl

-- What one recv with some room gives: nothing, at the end, or a piece, with the rest left.
pub recv_cases :
    (n : ℕ) (s : Connection)
    → ((concat s ≡ []) × (recv (suc n) s ≡ ([], [])))
      ⊎ ((x : ℕ) × (b : Bytes) × (s' : Connection) × (recv (suc n) s ≡ (x ∷ b, s'))
          × (concat s ≡ x ∷ b ++ concat s'))
unfolding recv concat
recv_cases n [] = inl (refl, refl)
recv_cases n ([] ∷ s) = recv_cases n s
recv_cases n ((x ∷ b) ∷ s) = inr (
  x,
  take n b,
  rest_of (drop n b) s,
  refl,
  ap (◌∷◌ x) (
      ap (λ c. c ++ concat s) (sym (take-append_drop n b))
      ∙ append_assoc (take n b) (drop n b) (concat s)
      ∙ ap (λ c. take n b ++ c) (sym (concat-rest_of (drop n b) s))),
)

-- With fuel for every byte the receiving loop ends, and has read exactly what arrived, in whatever pieces
-- it arrived.
pub recv_loop_lem :
    (n fuel : ℕ) (s : Connection)
    → length (concat s) < fuel
    → recv_loop (suc n) fuel s ≡ some (concat s)
unfolding recv_loop
recv_loop_lem n zero s h = absurd (omega arith)
recv_loop_lem n (suc fuel) s h = elim (recv_cases n s) [
  | inl (e, r) ↦ rw (r, e) refl
  | inr (x, b, s', r, e) ↦ rw (r, recv_loop_lem n fuel s' (shorter x b s' e), e) refl
]
  where
    shorter :
        (x : ℕ) (b : Bytes) (s' : Connection)
        → concat s ≡ x ∷ b ++ concat s'
        → length (concat s') < fuel
    shorter x b s' e = omega (arith, ap length e, length-append b (concat s'))

-- A chunk that the sending loop sends.
abbrev pub IsChunk : ℕ → Bytes → Type 0
IsChunk size c = (1 ≤ length c) × (length c ≤ size)

length-take_le : (n : ℕ) (b : Bytes) → length (take n b) ≤ n
length-take_le zero b = omega arith
length-take_le (suc n) [] = omega arith
length-take_le (suc n) (x ∷ b) = omega (arith, length-take_le n b)

-- With fuel for every byte the sending loop ends, and its chunks are the file.
pub send_loop_lem :
    (n fuel : ℕ) (b : Bytes)
    → length b < fuel
    → (chunks : List Bytes) × (send_loop (suc n) fuel b ≡ some chunks)
      × (concat chunks ≡ b)
      × All (IsChunk (suc n)) chunks
unfolding send_loop concat
send_loop_lem n zero b h = absurd (omega arith)
send_loop_lem n (suc fuel) [] h = ([], refl, refl, tt)
send_loop_lem n (suc fuel) (x ∷ b) h =
    let (chunks, e, c, a) = send_loop_lem n fuel (drop n b) (omega (arith, length-drop n b)) in
    (
      (x ∷ take n b) ∷ chunks,
      rw e refl,
      ap (λ d. x ∷ take n b ++ d) c ∙ ap (◌∷◌ x) (take-append_drop n b),
      ((omega arith, omega (arith, length-take_le n b)), a),
    )

-- A file as the programs send it, in chunks of at most BUF_SIZE bytes.
abbrev or_nothing : Option (List Bytes) → List Bytes
or_nothing none = []
or_nothing (some c) = c

unfoldable pub send_file : Bytes → List Bytes
unfolding send_loop
send_file b = or_nothing (send_loop 1024 (suc (length b)) b)

abbrev or_empty : Option Bytes → Bytes
or_empty none = []
or_empty (some b) = b

-- What the receiving loop writes to the file.
unfoldable pub receive_file : Connection → Bytes
unfolding recv_loop
receive_file s = or_empty (recv_loop 1024 (suc (length (concat s))) s)

pub receive_file_lem : (s : Connection) → receive_file s ≡ concat s
unfolding receive_file
receive_file_lem s = ap or_empty (recv_loop_lem 1023 (suc (length (concat s))) s (omega arith))

pub concat-send_file : (b : Bytes) → concat (send_file b) ≡ b
unfolding send_file
concat-send_file b =
    let (chunks, e, c, a) = send_loop_lem 1023 (suc (length b)) b (omega arith) in
    ap (λ o. concat (or_nothing o)) e ∙ c

-- Both loops end: on enough fuel the sending loop has sent the whole file, in chunks that are not empty and
-- fit the buffer, and the receiving loop has read the whole file, in whatever pieces the stream arrives.
pub transfer :
    (b : Bytes) (s : Connection) (fuel : ℕ)
    → length b < fuel
    → concat s ≡ b
    → (chunks : List Bytes) × (send_loop 1024 fuel b ≡ some chunks)
      × (concat chunks ≡ b)
      × All (IsChunk 1024) chunks
      × (recv_loop 1024 fuel s ≡ some b)
transfer b s fuel h e =
    let (chunks, f, c, a) = send_loop_lem 1023 fuel b h in
    (chunks, f, c, a, recv_loop_lem 1023 fuel s (omega (arith, ap length e)) ∙ ap some e)

pub send_file-IsChunk : (b : Bytes) → All (IsChunk 1024) (send_file b)
unfolding send_file
send_file-IsChunk b =
    let (chunks, e, c, a) = send_loop_lem 1023 (suc (length b)) b (omega arith) in
    subst (λ o. All (IsChunk 1024) (or_nothing o)) (sym e) a
