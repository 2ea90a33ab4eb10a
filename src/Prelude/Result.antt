-- ===== src/Prelude/Result.antt =====
-- Go's `(value, error)` results.
use mathlib.Core.Path.{◌≡◌, refl}
use mathlib.Core.Bool.{Bool, true, false}

pub data Result {ℓ κ} (E : Type ℓ) (A : Type κ) : Type (ℓ ⊔ κ) where
  ok : A → Result E A
  err : E → Result E A

infixl 5 ◌>>=◌ ◌>>◌
abbrev pub ◌>>=◌ {ℓ κ ρ} :
    {E : Type ℓ} {A : Type κ} {B : Type ρ} → Result E A → (A → Result E B) → Result E B
ok a >>= f = f a
err e >>= f = err e

abbrev pub ◌>>◌ {ℓ ρ} : {E : Type ℓ} {B : Type ρ} → Result E (Unit {0}) → Result E B → Result E B
ok a >> k = k
err e >> k = err e

-- `if test { return error }`
abbrev pub refuse_if {ℓ} : {E : Type ℓ} → Bool → E → Result E (Unit {0})
refuse_if true e = err e
refuse_if false e = ok tt

-- A chain that succeeds has a first step that does.
pub bind_eq_ok {ℓ κ ρ} :
    {E : Type ℓ} {A : Type κ} {B : Type ρ} (m : Result E A) (f : A → Result E B) {b : B}
    → (m >>= f) ≡ ok b
    → (a : A) × (m ≡ ok a) × (f a ≡ ok b)
bind_eq_ok (ok a) f h = (a, refl, h)
bind_eq_ok (err e) f h = cc
