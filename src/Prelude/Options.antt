-- ===== src/Prelude/Options.antt =====
-- Options as the results of steps that may fail.
use mathlib.Core.Path.{◌≡◌, refl}
use mathlib.Core.Logic.{◌⊎◌, inl, inr}
use mathlib.Core.Bool.{Bool, true, false}
use mathlib.Core.Option.{Option, none, some}
use so_distribuidos.Prelude.Tests.{if◌then◌else◌}
use so_distribuidos.Prelude.Scan.{◌>>=◌}

pub some_inj {ℓ} : {A : Type ℓ} {x y : A} → some x ≡ some y → x ≡ y
some_inj h = cc h

-- Both steps of a chain that has a result have one.
pub bind_inv {ℓ κ} :
    {A : Type ℓ} {B : Type κ} (m : Option A) (f : A → Option B) {b : B}
    → (m >>= f) ≡ some b
    → (a : A) × (m ≡ some a) × (f a ≡ some b)
bind_inv none f e = absurd (cc e)
bind_inv (some a) f e = (a, refl, e)

-- A test that guards a step: the step is taken, or nothing changes.
pub guarded {ℓ} : {A : Type ℓ} (b : Bool) {x y z : A} → (if b then x else y) ≡ z → (x ≡ z) ⊎ (y ≡ z)
guarded true e = inl e
guarded false e = inr e
