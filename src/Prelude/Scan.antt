-- ===== src/Prelude/Scan.antt =====
-- The conversions of sscanf and atoi that the programs use: `%d`, `%s`, and white space.
use Prim.Native.Nat.{ℕ, ◌+◌, ◌-◌, ◌*◌}
use mathlib.Core.Bool.{Bool, ◌&&◌, ◌||◌}
use mathlib.Core.Option.{Option, none, some}
use mathlib.Core.List.{[], ◌∷◌}
use so_distribuidos.Prelude.Tests.{leb, ◌==◌, if◌then◌else◌}
use so_distribuidos.Prelude.Int.{ℤ, pos, sub_ℕ}
use so_distribuidos.Prelude.Text.{Bytes}

infixl 5 ◌>>=◌
abbrev pub ◌>>=◌ {ℓ κ} : {A : Type ℓ} {B : Type κ} → Option A → (A → Option B) → Option B
none >>= f = none
some a >>= f = f a

abbrev pub is_digit : ℕ → Bool
is_digit c = leb 48 c && leb c 57

-- isspace
abbrev pub is_space : ℕ → Bool
is_space c = (c == 32) || (leb 9 c && leb c 13)

unfoldable pub skip_spaces : Bytes → Bytes
skip_spaces [] = []
skip_spaces (c ∷ b) = let rest = skip_spaces b in if is_space c then rest else c ∷ b

-- The number that the leading digits give, on top of `acc`, and the text behind them.
unfoldable pub scan_digits : ℕ → Bytes → ℕ × Bytes
scan_digits acc [] = (acc, [])
scan_digits acc (c ∷ b) =
    let rest = scan_digits (acc * 10 + (c - 48)) b in if is_digit c then rest else (acc, c ∷ b)

-- At least one digit.
unfoldable pub scan_nat : Bytes → Option (ℕ × Bytes)
unfolding scan_digits
scan_nat [] = none
scan_nat (c ∷ b) = if is_digit c then some (scan_digits 0 (c ∷ b)) else none

abbrev negate : ℕ × Bytes → ℤ × Bytes
negate (n, b) = (sub_ℕ 0 n, b)

abbrev positive : ℕ × Bytes → ℤ × Bytes
positive (n, b) = (pos n, b)

-- An optional sign and digits.
unfoldable pub scan_signed : Bytes → Option (ℤ × Bytes)
unfolding scan_nat
scan_signed [] = none
scan_signed (c ∷ b) =
    if c == b'-'
    then (do r ← scan_nat b; some (negate r))
    else if c == b'+'
    then (do r ← scan_nat b; some (positive r))
    else do r ← scan_nat (c ∷ b); some (positive r)

-- `%d`: white space is skipped first. A number that does not fit an `int` is undefined in C; here it
-- is the number itself.
unfoldable pub scan_int : Bytes → Option (ℤ × Bytes)
unfolding skip_spaces scan_signed
scan_int b = scan_signed (skip_spaces b)

-- atoi and atoll: 0 where no number stands.
unfoldable pub atoi : Bytes → ℤ
unfolding scan_int
atoi b = elim (scan_int b) [ none ↦ pos 0 | some (z, _) ↦ z ]

-- The leading bytes that are not white space, and the rest.
unfoldable pub span_word : Bytes → Bytes × Bytes
span_word [] = ([], [])
span_word (c ∷ b) = if is_space c then ([], c ∷ b) else let (w, rest) = span_word b in (c ∷ w, rest)

abbrev non_empty : Bytes × Bytes → Option (Bytes × Bytes)
non_empty ([], rest) = none
non_empty (c ∷ w, rest) = some (c ∷ w, rest)

-- `%s`: white space is skipped, then a word of at least one byte is taken.
unfoldable pub scan_word : Bytes → Option (Bytes × Bytes)
unfolding skip_spaces span_word
scan_word b = non_empty (span_word (skip_spaces b))
