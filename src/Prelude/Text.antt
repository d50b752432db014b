-- ===== src/Prelude/Text.antt =====
-- C strings as lists of bytes: a literal's bytes, strcmp, strncmp, strchr, and the part of a buffer
-- before its first zero.
use Prim.Native.Nat.{ℕ, zero, suc}
use Prim.Native.Char.{code}
use Prim.Native.String.{String}
use mathlib.Core.Path.{◌≡◌, refl}
use mathlib.Core.Logic.{◌≢◌, ◌↔◌}
use mathlib.Core.Bool.{Bool, true, false, ◌&&◌}
use mathlib.Core.Option.{Option, none, some}
use mathlib.Core.List.{List, [], ◌∷◌, ◌++◌}
use native.Mathlib.Omega.{arith}
use so_distribuidos.Prelude.Tests.{◌==◌, if◌then◌else◌}
use so_distribuidos.Prelude.Lists.{replicate, All}

abbrev pub Bytes : Type 0
Bytes = List ℕ

-- The bytes of an ASCII literal. `String` has its own `[]` and `∷`.
abbrev pub codes : String → Bytes
codes String.[] = []
codes (String.◌∷◌ c s) = code c ∷ codes s

-- strcmp(a, b) == 0
unfoldable pub str_eq : Bytes → Bytes → Bool
str_eq [] [] = true
str_eq (x ∷ a) (y ∷ b) = (x == y) && str_eq a b
str_eq _ _ = false

pub str_eq_iff : (a b : Bytes) → (str_eq a b ≡ true) ↔ (a ≡ b)
unfolding str_eq
str_eq_iff [] [] = (λ _. refl, λ _. refl)
str_eq_iff [] (y ∷ b) = ground arith
str_eq_iff (x ∷ a) [] = ground arith
str_eq_iff (x ∷ a) (y ∷ b) = ground (arith, str_eq_iff a b)

-- What is left of a text behind a literal prefix: strncmp(a, p, strlen(p)) == 0, then a + strlen(p).
unfoldable pub strip_prefix : Bytes → Bytes → Option Bytes
strip_prefix [] b = some b
strip_prefix (x ∷ p) [] = none
strip_prefix (x ∷ p) (y ∷ b) = if x == y then strip_prefix p b else none

pub strip_prefix-append : (p b : Bytes) → strip_prefix p (p ++ b) ≡ some b
unfolding strip_prefix
strip_prefix-append [] b = refl
strip_prefix-append (x ∷ p) b = ground (arith, strip_prefix-append p b)

-- strncmp(b, p, strlen(p)) == 0
unfoldable pub starts_with : Bytes → Bytes → Bool
unfolding strip_prefix
starts_with p b = elim (strip_prefix p b) [ none ↦ false | some _ ↦ true ]

-- strchr(b, c): the text before the first `c`, and the text behind it.
unfoldable pub split_at : ℕ → Bytes → Option (Bytes × Bytes)
split_at c [] = none
split_at c (x ∷ b) =
    if x == c
    then some ([], b)
    else elim (split_at c b) [ none ↦ none | some (before, after) ↦ some (x ∷ before, after) ]

-- No byte of the text is `c`.
abbrev pub Free : ℕ → Bytes → Type 0
Free c b = All (λ x. x ≢ c) b

pub split_at-append : (c : ℕ) (a b : Bytes) → Free c a → split_at c (a ++ c ∷ b) ≡ some (a, b)
unfolding split_at
split_at-append c [] b h = ground arith
split_at-append c (x ∷ a) b h = ground (arith, split_at-append c a b)

pub split_at-none : (c : ℕ) (a : Bytes) → Free c a → split_at c a ≡ none
unfolding split_at
split_at-none c [] h = refl
split_at-none c (x ∷ a) h = ground (arith, split_at-none c a)

-- The C string at the start of a buffer, up to its first zero byte.
unfoldable pub c_str : Bytes → Bytes
c_str [] = []
c_str (x ∷ b) = if x == 0 then [] else x ∷ c_str b

pub c_str-Free : (a : Bytes) → Free 0 a → c_str a ≡ a
unfolding c_str
c_str-Free [] h = refl
c_str-Free (x ∷ a) h = ground (arith, c_str-Free a)

-- Zeros behind a text end it.
pub c_str-append_zeros : (a : Bytes) (n : ℕ) → Free 0 a → c_str (a ++ replicate n 0) ≡ a
unfolding c_str
c_str-append_zeros [] zero h = refl
c_str-append_zeros [] (suc n) h = refl
c_str-append_zeros (x ∷ a) n h = ground (arith, c_str-append_zeros a n)
