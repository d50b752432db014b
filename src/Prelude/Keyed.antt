-- ===== src/Prelude/Keyed.antt =====
-- A table that is searched by name from its start: the loops that compare names with strcmp, and those
-- that change the entry they find.
use mathlib.Core.Path.{◌≡◌, refl, ◌∙◌}
use mathlib.Core.Logic.{◌≢◌, inl, inr}
use mathlib.Core.Option.{Option, none, some}
use mathlib.Core.List.{List, [], ◌∷◌, ◌++◌}
use native.Mathlib.Omega.{arith}
use so_distribuidos.Prelude.Tests.{Bool-cases, if◌then◌else◌}
use so_distribuidos.Prelude.Lists.{length}
use so_distribuidos.Prelude.Text.{Bytes, str_eq, str_eq_iff}

abbrev pub map_some {ℓ κ} : {A : Type ℓ} {B : Type κ} → (A → B) → Option A → Option B
map_some f none = none
map_some f (some a) = some (f a)

module _ {ℓ} {A : Type ℓ} (name : A → Bytes) where
  unfoldable pub find : Bytes → List A → Option A
  find n [] = none
  find n (x ∷ t) = if str_eq (name x) n then some x else find n t

  -- `f` on the first entry with this name.
  unfoldable pub modify : Bytes → (A → A) → List A → List A
  modify n f [] = []
  modify n f (x ∷ t) = let rest = modify n f t in if str_eq (name x) n then f x ∷ t else x ∷ rest

  -- No name stands twice.
  abbrev pub Unique : List A → Type ℓ
  Unique [] = Unit
  Unique (x ∷ t) = (find (name x) t ≡ none) × Unique t

  pub find-name : (n : Bytes) (t : List A) {x : A} → find n t ≡ some x → name x ≡ n
  unfolding find
  find-name n [] h = cc
  find-name n (y ∷ t) {x} h = ground (arith, str_eq_iff (name y) n, find-name n t {x = x})

  pub length-modify : (n : Bytes) (f : A → A) (t : List A) → length (modify n f t) ≡ length t
  unfolding modify
  length-modify n f [] = refl
  length-modify n f (x ∷ t) = ground (arith, length-modify n f t)

  pub find-modify_self :
      (n : Bytes) (f : A → A) (t : List A)
      → ((x : A) → name (f x) ≡ name x)
      → find n (modify n f t) ≡ map_some f (find n t)
  unfolding find modify
  find-modify_self n f [] k = refl
  find-modify_self n f (x ∷ t) k = elim (Bool-cases (str_eq (name x) n)) [
    | inl e ↦ rw (e, k x, e) refl
    | inr e ↦ rw (e, e) (find-modify_self n f t k)
  ]

  pub find-modify_ne :
      (n m : Bytes) (f : A → A) (t : List A)
      → ((x : A) → name (f x) ≡ name x)
      → n ≢ m
      → find m (modify n f t) ≡ find m t
  unfolding find modify
  find-modify_ne n m f [] k d = refl
  find-modify_ne n m f (x ∷ t) k d =
      ground (arith, k x, str_eq_iff (name x) n, str_eq_iff (name x) m, find-modify_ne n m f t k d)

  pub find-modify_const :
      (n m : Bytes) (y : A) (t : List A)
      → name y ≡ n
      → n ≢ m
      → find m (modify n (λ x. y) t) ≡ find m t
  unfolding find modify
  find-modify_const n m y [] k d = refl
  find-modify_const n m y (x ∷ t) k d = ground (
    arith,
    str_eq_iff (name x) n,
    str_eq_iff (name x) m,
    str_eq_iff (name y) m,
    find-modify_const n m y t k d,
  )

  pub find-snoc_self :
      (t : List A) (x : A) → find (name x) t ≡ none → find (name x) (t ++ x ∷ []) ≡ some x
  unfolding find
  find-snoc_self [] x h = ground (arith, str_eq_iff (name x) (name x))
  find-snoc_self (y ∷ t) x h = ground (arith, find-snoc_self t x)

  pub find-snoc_ne : (m : Bytes) (t : List A) (x : A) → name x ≢ m → find m (t ++ x ∷ []) ≡ find m t
  unfolding find
  find-snoc_ne m [] x d = ground (arith, str_eq_iff (name x) m)
  find-snoc_ne m (y ∷ t) x d = ground (arith, find-snoc_ne m t x d)

  pub Unique-snoc : (t : List A) (x : A) → find (name x) t ≡ none → Unique t → Unique (t ++ x ∷ [])
  unfolding find
  Unique-snoc [] x h u = ground arith
  Unique-snoc (y ∷ t) x h u = (
    find-snoc_ne (name y) t x (λ e. ground (arith, str_eq_iff (name y) (name x))) ∙ u.0,
    Unique-snoc t x (ground arith) u.1,
  )

  pub Unique-modify :
      (n : Bytes) (f : A → A) (t : List A)
      → ((x : A) → name (f x) ≡ name x)
      → Unique t
      → Unique (modify n f t)
  unfolding modify
  Unique-modify n f [] k u = tt
  Unique-modify n f (x ∷ t) k u = elim (Bool-cases (str_eq (name x) n)) [
    | inl e ↦ rw e (rw (k x) u.0, u.1)
    | inr e ↦ rw e (
      find-modify_ne n (name x) f t k (λ d. ground (arith, str_eq_iff (name x) n)) ∙ u.0,
      Unique-modify n f t k u.1,
    )
  ]
