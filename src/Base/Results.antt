-- ===== src/Base/Results.antt =====
-- Python exceptions: a result is a value or the exception that was raised.
use mathlib.Core.Path.{◌≡◌, refl}

pub data Result {ℓ κ} (E : Type ℓ) (A : Type κ) : Type (ℓ ⊔ κ) where
  ok : A → Result E A
  err : E → Result E A

infixl 5 ◌>>=◌
abbrev pub ◌>>=◌ {ℓ κ ρ} :
    {E : Type ℓ} {A : Type κ} {B : Type ρ} → Result E A → (A → Result E B) → Result E B
ok a >>= f = f a
err e >>= f = err e

-- A chain that succeeds has succeeded in its first step.
pub bind-ok {ℓ κ ρ} :
    {E : Type ℓ} {A : Type κ} {B : Type ρ} (m : Result E A) (f : A → Result E B) {b : B}
    → (m >>= f) ≡ ok b
    → (a : A) × (m ≡ ok a) × (f a ≡ ok b)
bind-ok (ok a) f h = (a, refl, h)
bind-ok (err e) f h = cc
