-- ===== src/FileServer/Lines.antt =====
-- The loop that sends a text file in file_server.c and client.c of tp7-sistema-archivos-distribuidos:
-- `while (fgets(buf, BUF_SIZE, f)) send(sock, buf, strlen(buf), 0)`.
use so_distribuidos.Prelude.{
  ℕ, zero, suc, ◌≤◌, ◌<◌, Option, none, some, List, [], ◌∷◌, ◌++◌, ◌>>=◌, ◌≡◌, inl, inr, refl, sym,
  ap, ◌∙◌, subst, arith, Bytes, Free, All, ◌==◌, if◌then◌else◌, Bool-cases, length, length-append,
  c_str, c_str-Free,
}
use so_distribuidos.Transfer.Loops.{concat}

-- At most n bytes, up to the first newline, and what is left of the file.
unfoldable pub fgets : ℕ → Bytes → Bytes × Bytes
fgets zero b = ([], b)
fgets (suc n) [] = ([], [])
fgets (suc n) (x ∷ b) = let r = fgets n b in if x == 10 then (x ∷ [], b) else (x ∷ r.0, r.1)

-- The loop on fuel: none where it runs out. strlen stops at the first zero of a line.
unfoldable pub send_lines : ℕ → Bytes → Option (List Bytes)
unfolding fgets
send_lines zero b = none
send_lines (suc fuel) [] = some []
send_lines (suc fuel) (x ∷ b) = do
  lines ← send_lines fuel (fgets 1023 (x ∷ b)).1
  some (c_str (fgets 1023 (x ∷ b)).0 ∷ lines)

pub fgets_lem :
    (n : ℕ) (b : Bytes) → ((fgets n b).0 ++ (fgets n b).1 ≡ b) × (length (fgets n b).0 ≤ n)
unfolding fgets
fgets_lem zero b = (refl, omega arith)
fgets_lem (suc n) [] = (refl, omega arith)
fgets_lem (suc n) (x ∷ b) = elim (Bool-cases (x == 10)) [
  | inl e ↦ rw e (refl, omega arith)
  | inr e ↦ rw e (ap (◌∷◌ x) (fgets_lem n b).0, omega (arith, (fgets_lem n b).1))
]

fgets_some : (n x : ℕ) (b : Bytes) → 1 ≤ length (fgets (suc n) (x ∷ b)).0
unfolding fgets
fgets_some n x b = elim (Bool-cases (x == 10)) [
  | inl e ↦ rw e (omega arith)
  | inr e ↦ rw e (omega arith)
]

rest_shorter :
    (l r b : Bytes) (fuel : ℕ) → l ++ r ≡ b → 1 ≤ length l → length b < suc fuel → length r < fuel
rest_shorter l r b fuel e h k = omega (arith, ap length e, length-append l r)

Free-left : (c : ℕ) (a b : Bytes) → Free c (a ++ b) → Free c a
Free-left c [] b h = tt
Free-left c (x ∷ a) b h = (h.0, Free-left c a b h.1)

Free-right : (c : ℕ) (a b : Bytes) → Free c (a ++ b) → Free c b
Free-right c [] b h = h
Free-right c (x ∷ a) b h = Free-right c a b h.1

-- With fuel for every byte the loop ends, and a text with no zero is sent whole, in pieces that fit the
-- buffer.
pub send_lines_lem :
    (fuel : ℕ) (b : Bytes)
    → Free 0 b
    → length b < fuel
    → (lines : List Bytes) × (send_lines fuel b ≡ some lines)
      × (concat lines ≡ b)
      × All (λ l. length l ≤ 1023) lines
unfolding send_lines concat
send_lines_lem zero b f h = absurd (omega arith)
send_lines_lem (suc fuel) [] f h = ([], refl, refl, tt)
send_lines_lem (suc fuel) (x ∷ b) f h =
    let l = (fgets 1023 (x ∷ b)).0 in
    let r = (fgets 1023 (x ∷ b)).1 in
    let (e, m) = fgets_lem 1023 (x ∷ b) in
    let whole : Free 0 (l ++ r) = subst (Free 0) (sym e) f in
    let (lines, s, c, a) =
      send_lines_lem fuel r (Free-right 0 l r whole)
        (rest_shorter l r (x ∷ b) fuel e (fgets_some 1022 x b) h) in
    let line = c_str-Free l (Free-left 0 l r whole) in
    (
      c_str l ∷ lines,
      rw s refl,
      ap (λ t. t ++ concat lines) line ∙ ap (λ t. l ++ t) c ∙ e,
      (rw line m, a),
    )

abbrev or_nothing : Option (List Bytes) → List Bytes
or_nothing none = []
or_nothing (some lines) = lines

-- A text file, with fuel for its bytes.
unfoldable pub send_text : Bytes → List Bytes
unfolding send_lines
send_text b = or_nothing (send_lines (suc (length b)) b)

pub concat-send_text : (b : Bytes) → Free 0 b → concat (send_text b) ≡ b
unfolding send_text
concat-send_text b f =
    let (lines, s, c, a) = send_lines_lem (suc (length b)) b f (omega arith) in
    ap (λ o. concat (or_nothing o)) s ∙ c
