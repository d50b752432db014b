-- ===== src/Prelude/Lists.antt =====
-- Arrays as lists measured and indexed by native numbers, under the library's names: reading a
-- range (`slice`), and overwriting one in place (`overwrite`, the effect of memset and memcpy).
use Prim.Native.Nat.{ℕ, zero, suc, ◌+◌, ◌≤◌, ◌<◌, min}
use mathlib.Core.Path.{◌≡◌, refl, ap}
use mathlib.Core.Logic.{◌⊎◌, inl, inr}
use mathlib.Core.List.{List, [], ◌∷◌, ◌++◌}
use mathlib.Core.Option.{Option, none, some}
use native.Mathlib.Omega.{arith}

-- No value, at any level.
pub data Never {ℓ} : Type ℓ where

module _ {ℓ} {A : Type ℓ} where
  abbrev pub length : List A → ℕ
  length [] = 0
  length (x ∷ xs) = suc (length xs)

  abbrev pub get_elem? : List A → ℕ → Option A
  get_elem? [] i = none
  get_elem? (x ∷ xs) zero = some x
  get_elem? (x ∷ xs) (suc i) = get_elem? xs i

  abbrev pub take : ℕ → List A → List A
  take zero xs = []
  take (suc n) [] = []
  take (suc n) (x ∷ xs) = x ∷ take n xs

  abbrev pub drop : ℕ → List A → List A
  drop zero xs = xs
  drop (suc n) [] = []
  drop (suc n) (x ∷ xs) = drop n xs

  abbrev pub replicate : ℕ → A → List A
  replicate zero a = []
  replicate (suc n) a = a ∷ replicate n a

  abbrev pub head? : List A → Option A
  head? [] = none
  head? (x ∷ xs) = some x

  -- A predicate of every member.
  abbrev pub All {κ} : (A → Type κ) → List A → Type κ
  All P [] = Unit
  All P (x ∷ xs) = P x × All P xs

  -- Membership as data, which the tactics take apart.
  abbrev pub Member : A → List A → Type ℓ
  Member a [] = Never
  Member a (x ∷ xs) = (a ≡ x) ⊎ Member a xs

  pub length-append : (xs ys : List A) → length (xs ++ ys) ≡ length xs + length ys
  length-append [] ys = omega arith
  length-append (x ∷ xs) ys = omega (arith, length-append xs ys)

  pub length-take : (n : ℕ) (xs : List A) → length (take n xs) ≡ min n (length xs)
  length-take zero xs = omega arith
  length-take (suc n) [] = omega arith
  length-take (suc n) (x ∷ xs) = omega (arith, length-take n xs)

  pub take-all : (n : ℕ) (xs : List A) → length xs ≤ n → take n xs ≡ xs
  take-all zero [] h = refl
  take-all zero (x ∷ xs) h = absurd (omega arith)
  take-all (suc n) [] h = refl
  take-all (suc n) (x ∷ xs) h = ap (◌∷◌ x) (take-all n xs (omega arith))

  pub length-replicate : (n : ℕ) (a : A) → length (replicate n a) ≡ n
  length-replicate zero a = refl
  length-replicate (suc n) a = ap suc (length-replicate n a)

  -- The `n` cells from offset `o` on.
  unfoldable pub slice : List A → ℕ → ℕ → List A
  slice m o n = take n (drop o m)

  -- `d` written over the cells from offset `o` on.
  unfoldable pub overwrite : List A → ℕ → List A → List A
  overwrite m zero d = d ++ drop (length d) m
  overwrite [] (suc o) d = []
  overwrite (x ∷ m) (suc o) d = x ∷ overwrite m o d

  pub get_elem?-lt : (xs : List A) (i : ℕ) {a : A} → get_elem? xs i ≡ some a → i < length xs
  get_elem?-lt [] i h = cc
  get_elem?-lt (x ∷ xs) zero h = omega arith
  get_elem?-lt (x ∷ xs) (suc i) h = omega (arith, get_elem?-lt xs i h)

  pub get_elem?-snoc :
      (xs : List A) (i : ℕ) (y : A) → i < length xs → get_elem? (xs ++ y ∷ []) i ≡ get_elem? xs i
  get_elem?-snoc [] i y h = absurd (omega arith)
  get_elem?-snoc (x ∷ xs) zero y h = refl
  get_elem?-snoc (x ∷ xs) (suc i) y h = get_elem?-snoc xs i y (omega arith)

  pub get_elem?-snoc_last : (xs : List A) (y : A) → get_elem? (xs ++ y ∷ []) (length xs) ≡ some y
  get_elem?-snoc_last [] y = refl
  get_elem?-snoc_last (x ∷ xs) y = get_elem?-snoc_last xs y

  -- What stands in a list with one more entry at its end.
  pub get_elem?-snoc_cases :
      (xs : List A) (i : ℕ) (y a : A)
      → get_elem? (xs ++ y ∷ []) i ≡ some a
      → (get_elem? xs i ≡ some a) ⊎ ((i ≡ length xs) × (y ≡ a))
  get_elem?-snoc_cases [] zero y a h = inr (refl, ground arith)
  get_elem?-snoc_cases [] (suc i) y a h = cc
  get_elem?-snoc_cases (x ∷ xs) zero y a h = inl h
  get_elem?-snoc_cases (x ∷ xs) (suc i) y a h = elim (get_elem?-snoc_cases xs i y a h) [
    | inl e ↦ inl e
    | inr (e, f) ↦ inr (ap suc e, f)
  ]

module _ {ℓ} {A : Type ℓ} where
  length-drop_over :
      (d m : List A) → length d ≤ length m → length (d ++ drop (length d) m) ≡ length m
  length-drop_over [] m h = refl
  length-drop_over (y ∷ d) [] h = absurd (omega arith)
  length-drop_over (y ∷ d) (x ∷ m) h = ap suc (length-drop_over d m (omega arith))

  -- A write inside the array keeps the array's length.
  pub length-overwrite :
      (m : List A) (o : ℕ) (d : List A)
      → o + length d ≤ length m
      → length (overwrite m o d) ≡ length m
  unfolding overwrite
  length-overwrite m zero d h = length-drop_over d m (omega arith)
  length-overwrite [] (suc o) d h = refl
  length-overwrite (x ∷ m) (suc o) d h = ap suc (length-overwrite m o d (omega arith))

  take-append : (d m : List A) → take (length d) (d ++ m) ≡ d
  take-append [] m = refl
  take-append (y ∷ d) m = ap (◌∷◌ y) (take-append d m)

  -- What was written is read back.
  pub slice-overwrite_self :
      (m : List A) (o : ℕ) (d : List A)
      → o + length d ≤ length m
      → slice (overwrite m o d) o (length d) ≡ d
  unfolding slice overwrite
  slice-overwrite_self m zero d h = take-append d (drop (length d) m)
  slice-overwrite_self [] (suc o) d h = absurd (omega arith)
  slice-overwrite_self (x ∷ m) (suc o) d h = slice-overwrite_self m o d (omega arith)

  drop_past :
      (d m : List A) (o : ℕ)
      → length d ≤ length m
      → length d ≤ o
      → drop o (d ++ drop (length d) m) ≡ drop o m
  drop_past [] m o h k = refl
  drop_past (y ∷ d) [] o h k = absurd (omega arith)
  drop_past (y ∷ d) (x ∷ m) zero h k = absurd (omega arith)
  drop_past (y ∷ d) (x ∷ m) (suc o) h k = drop_past d m o (omega arith) (omega arith)

  -- A range that the write does not meet is left as it was.
  pub slice-overwrite_ne :
      (m : List A) (o : ℕ) (d : List A) (k n : ℕ)
      → o + length d ≤ length m
      → (k + n ≤ o) ⊎ (o + length d ≤ k)
      → slice (overwrite m o d) k n ≡ slice m k n
  unfolding slice overwrite
  slice-overwrite_ne m zero d k n h (inr past) =
      ap (take n) (drop_past d m k (omega arith) (omega arith))
  slice-overwrite_ne m zero d zero zero h (inl before) = refl
  slice-overwrite_ne m zero d (suc k) n h (inl before) = absurd (omega arith)
  slice-overwrite_ne m zero d zero (suc n) h (inl before) = absurd (omega arith)
  slice-overwrite_ne [] (suc o) d k n h e = refl
  slice-overwrite_ne (x ∷ m) (suc o) d zero n h (inr past) = absurd (omega arith)
  slice-overwrite_ne (x ∷ m) (suc o) d zero zero h (inl before) = refl
  slice-overwrite_ne (x ∷ m) (suc o) d zero (suc n) h (inl before) =
      ap (◌∷◌ x) (slice-overwrite_ne m o d zero n (omega arith) (inl (omega arith)))
  slice-overwrite_ne (x ∷ m) (suc o) d (suc k) n h (inl before) =
      slice-overwrite_ne m o d k n (omega arith) (inl (omega arith))
  slice-overwrite_ne (x ∷ m) (suc o) d (suc k) n h (inr past) =
      slice-overwrite_ne m o d k n (omega arith) (inr (omega arith))
