-- ===== src/Prelude/Decimal.antt =====
-- snprintf's `%d` and `%lld`, and that the scanning conversions read it back.
use Prim.Native.Nat.{ℕ, zero, suc, ◌+◌, ◌*◌, ◌/◌, ◌%◌, ◌<◌, ◌≤◌}
use mathlib.Core.Path.{◌≡◌, refl, ◌∙◌, ap, sym}
use mathlib.Core.Logic.{◌≢◌, inl, inr}
use mathlib.Core.Bool.{true, false}
use mathlib.Core.Option.{some}
use mathlib.Core.List.{append-nil, [], ◌∷◌, ◌++◌}
use native.Mathlib.Omega.{arith}
use so_distribuidos.Prelude.Tests.{ltb, if◌then◌else◌, Bool-cases, lt→ltb}
use so_distribuidos.Prelude.Int.{◌≤ℤ◌, ℤ, pos, negsuc}
use so_distribuidos.Prelude.Text.{Bytes, codes, Free}
use so_distribuidos.Prelude.Lists.{length, All}
use so_distribuidos.Prelude.Scan.{
  is_digit, scan_digits, scan_nat, scan_signed, scan_int, skip_spaces, atoi,
}

-- The digits of `n` in front of `acc`.
print_digits : ℕ → ℕ → Bytes → Bytes
print_digits zero n acc = acc
print_digits (suc f) n acc =
    let more = print_digits f (n / 10) ((48 + n % 10) ∷ acc) in
    if ltb n 10 then (48 + n) ∷ acc else more

-- A number has at most as many digits as one more than itself.
unfoldable pub print_nat : ℕ → Bytes
unfolding print_digits
print_nat n = print_digits (suc n) n []

unfoldable pub print_int : ℤ → Bytes
unfolding print_nat
print_int (pos n) = print_nat n
print_int (negsuc n) = b'-' ∷ print_nat (suc n)

-- Scanning the printed digits, on top of nothing, is scanning what follows on top of the number.
scan_digits-print_digits :
    (f n : ℕ) (acc : Bytes) → n < f → scan_digits 0 (print_digits f n acc) ≡ scan_digits n acc
unfolding print_digits scan_digits
scan_digits-print_digits zero n acc h = elim h [ ]
scan_digits-print_digits (suc f) n acc h = elim (Bool-cases (ltb n 10)) [
  | inl small ↦ rw small (ground arith)
  | inr large ↦
      rw large
        (scan_digits-print_digits f (n / 10) ((48 + n % 10) ∷ acc) (ground arith) ∙ ground arith)
]

-- The first byte that follows a number is no digit.
abbrev pub EndsNumber : Bytes → Type 0
EndsNumber [] = Unit {0}
EndsNumber (c ∷ b) = is_digit c ≡ false

scan_digits-stop : (n : ℕ) (rest : Bytes) → EndsNumber rest → scan_digits n rest ≡ (n, rest)
unfolding scan_digits
scan_digits-stop n [] h = refl
scan_digits-stop n (c ∷ b) h = rw h

abbrev StartsDigit : Bytes → Type 0
StartsDigit [] = ⊥
StartsDigit (c ∷ b) = is_digit c ≡ true

print_digits-StartsDigit : (f n : ℕ) (acc : Bytes) → n < f → StartsDigit (print_digits f n acc)
unfolding print_digits
print_digits-StartsDigit zero n acc h = elim h [ ]
print_digits-StartsDigit (suc f) n acc h = elim (Bool-cases (ltb n 10)) [
  | inl small ↦ rw small (ground arith)
  | inr large ↦ rw large (print_digits-StartsDigit f (n / 10) _ (ground arith))
]

print_digits-append :
    (f n : ℕ) (acc rest : Bytes) → print_digits f n acc ++ rest ≡ print_digits f n (acc ++ rest)
unfolding print_digits
print_digits-append zero n acc rest = refl
print_digits-append (suc f) n acc rest = elim (Bool-cases (ltb n 10)) [
  | inl small ↦ rw small
  | inr large ↦ rw large (print_digits-append f (n / 10) _ rest)
]

-- Digits and nothing else: so no white space and no zero byte.
print_digits-All :
    (f n : ℕ) (acc : Bytes)
    → All (λ c. is_digit c ≡ true) acc
    → All (λ c. is_digit c ≡ true) (print_digits f n acc)
unfolding print_digits
print_digits-All zero n acc h = h
print_digits-All (suc f) n acc h = elim (Bool-cases (ltb n 10)) [
  | inl small ↦ rw small (ground arith, h)
  | inr large ↦ rw large (print_digits-All f (n / 10) _ (ground arith, h))
]

digits-Free : (c : ℕ) (b : Bytes) → is_digit c ≡ false → All (λ d. is_digit d ≡ true) b → Free c b
digits-Free c [] h a = tt
digits-Free c (x ∷ b) h a = (ground arith, digits-Free c b h a.1)

pub print_nat-Free : (c n : ℕ) → is_digit c ≡ false → Free c (print_nat n)
unfolding print_nat
print_nat-Free c n h = digits-Free c _ h (print_digits-All (suc n) n [] tt)

scan_nat-StartsDigit : (b : Bytes) → StartsDigit b → scan_nat b ≡ some (scan_digits 0 b)
unfolding scan_nat
scan_nat-StartsDigit [] h = absurd h
scan_nat-StartsDigit (c ∷ b) h = rw h

scan_nat-print_nat :
    (n : ℕ) (rest : Bytes) → EndsNumber rest → scan_nat (print_nat n ++ rest) ≡ some (n, rest)
unfolding print_nat
scan_nat-print_nat n rest h = rw print_digits-append (
    scan_nat-StartsDigit _ (print_digits-StartsDigit (suc n) n rest (omega arith))
    ∙ ap some (scan_digits-print_digits (suc n) n rest (omega arith) ∙ scan_digits-stop n rest h))

skip_spaces-digit : (c : ℕ) (b : Bytes) → is_digit c ≡ true → skip_spaces (c ∷ b) ≡ c ∷ b
unfolding skip_spaces
skip_spaces-digit c b h = ground arith

scan_signed-digit :
    (c : ℕ) (b : Bytes) (r : ℕ × Bytes)
    → is_digit c ≡ true
    → scan_nat (c ∷ b) ≡ some r
    → scan_signed (c ∷ b) ≡ some (pos r.0, r.1)
unfolding scan_signed
scan_signed-digit c b r h e = ground arith

scan_signed-minus :
    (b : Bytes) (n : ℕ) (rest : Bytes)
    → scan_nat b ≡ some (suc n, rest)
    → scan_int (b'-' ∷ b) ≡ some (negsuc n, rest)
unfolding scan_int
scan_signed-minus b n rest e = rw e (ground arith)

scan_int-StartsDigit :
    (b : Bytes) (n : ℕ) (rest : Bytes)
    → StartsDigit b
    → scan_nat b ≡ some (n, rest)
    → scan_int b ≡ some (pos n, rest)
unfolding scan_int
scan_int-StartsDigit [] n rest s h = absurd s
scan_int-StartsDigit (c ∷ b) n rest s h =
    rw (skip_spaces-digit c b s) (scan_signed-digit c b (n, rest) s h)

print_nat-StartsDigit : (n : ℕ) (rest : Bytes) → StartsDigit (print_nat n ++ rest)
unfolding print_nat
print_nat-StartsDigit n rest =
    rw print_digits-append (print_digits-StartsDigit (suc n) n rest (omega arith))

-- `%d` reads back what `%d` printed, when no digit follows.
pub scan_int-print_int :
    (z : ℤ) (rest : Bytes) → EndsNumber rest → scan_int (print_int z ++ rest) ≡ some (z, rest)
unfolding print_int
scan_int-print_int (pos n) rest h =
    scan_int-StartsDigit _ n rest (print_nat-StartsDigit n rest) (scan_nat-print_nat n rest h)
scan_int-print_int (negsuc n) rest h =
    scan_signed-minus _ n rest (scan_nat-print_nat (suc n) rest h)

pub scan_int-print : (z : ℤ) → scan_int (print_int z) ≡ some (z, [])
scan_int-print z = ap scan_int (sym (append-nil (print_int z))) ∙ scan_int-print_int z [] tt

pub print_int_ne : (z : ℤ) → print_int z ≢ []
unfolding scan_int skip_spaces scan_signed
print_int_ne z e = cc (ap scan_int (sym e) ∙ scan_int-print z)

pub atoi-print_int : (z : ℤ) (rest : Bytes) → EndsNumber rest → atoi (print_int z ++ rest) ≡ z
unfolding atoi
atoi-print_int z rest h = rw (scan_int-print_int z rest h, atoi)

pub print_int-Free : (c : ℕ) (z : ℤ) → is_digit c ≡ false → c ≢ b'-' → Free c (print_int z)
unfolding print_int
print_int-Free c (pos n) h k = print_nat-Free c n h
print_int-Free c (negsuc n) h k = (λ e. k (sym e), print_nat-Free c (suc n) h)

abbrev pow10 : ℕ → ℕ
pow10 zero = 1
pow10 (suc k) = 10 * pow10 k

length-print_digits :
    (k f n : ℕ) (acc : Bytes)
    → n < pow10 (suc k)
    → length (print_digits f n acc) ≤ suc k + length acc
unfolding print_digits
length-print_digits k zero n acc h = omega arith
length-print_digits zero (suc f) n acc h = rw (lt→ltb n 10 (omega arith)) (omega arith)
length-print_digits (suc k) (suc f) n acc h = elim (Bool-cases (ltb n 10)) [
  | inl small ↦ rw small (omega arith)
  | inr large ↦
      rw large (omega (arith, length-print_digits k f (n / 10) ((48 + n % 10) ∷ acc) (omega arith)))
]

-- A C int prints in at most eleven characters.
pub length-print_int :
    (z : ℤ) → z ≤ℤ pos 2147483647 → negsuc 2147483647 ≤ℤ z → length (print_int z) ≤ 11
unfolding print_int print_nat
length-print_int (pos n) h k = omega (arith, length-print_digits 9 (suc n) n [] (omega arith))
length-print_int (negsuc n) h k =
    omega (arith, length-print_digits 9 (suc (suc n)) (suc n) [] (omega arith))

print_negative : print_int (negsuc 41) ≡ codes "-42"
unfolding print_int
print_negative = refl

scan_print : atoi (codes "  -42x") ≡ negsuc 41
unfolding atoi
scan_print = refl
