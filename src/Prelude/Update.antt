-- ===== src/Prelude/Update.antt =====
-- Tables as functions from numbers.
use Prim.Native.Nat.{ℕ}
use mathlib.Core.Path.{◌≡◌, refl, ap, subst, fun_ext}
use mathlib.Core.Logic.{◌≢◌, ◌⊎◌, inl, inr}
use mathlib.Core.Bool.{true, false}
use native.Mathlib.Omega.{arith}
use so_distribuidos.Prelude.Tests.{◌==◌, if◌then◌else◌, Bool-cases}

abbrev pub update {ℓ} : {A : Type ℓ} → (ℕ → A) → ℕ → A → ℕ → A
update f k a j = if k == j then a else f j

module _ {ℓ} {A : Type ℓ} (f : ℕ → A) (k : ℕ) where
  pub update_self : (a : A) → update f k a k ≡ a
  update_self a = ground arith

  pub update-ne : (j : ℕ) (a : A) → k ≢ j → update f k a j ≡ f j
  update-ne j a d = ground arith

  pub update_same : update f k (f k) ≡ f
  update_same = fun_ext (λ j. kept j (Bool-cases (k == j)))
    where
      kept : (j : ℕ) → (((k == j) ≡ true) ⊎ ((k == j) ≡ false)) → update f k (f k) j ≡ f j
      kept j (inl e) = rw e (ap f (ground (arith, e)))
      kept j (inr e) = rw e refl

  -- What holds of the new value, and of the old ones elsewhere, holds everywhere.
  pub update_lem {κ} :
      (P : ℕ → A → Type κ) (a : A)
      → P k a
      → ((j : ℕ) → k ≢ j → P j (f j))
      → (j : ℕ) → P j (update f k a j)
  update_lem P a p q j = elim (Bool-cases (k == j)) [
    | inl e ↦ rw e (subst (λ i. P i a) (ground (arith, e)) p)
    | inr e ↦ rw e (q j (λ d. ground (arith, e, d)))
  ]
