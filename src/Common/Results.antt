-- ===== src/Common/Results.antt =====
-- What a call of a Go function does: it returns, or it panics (a division by zero, an index out of
-- range, Logger.Panicf). `stuck` means that a loop of the model ran out of fuel.
use mathlib.Core.Path.{◌≡◌, refl}

pub data Outcome {ℓ} (A : Type ℓ) : Type ℓ where
  returned : A → Outcome A
  panicked : Outcome A
  stuck : Outcome A

infixl 5 ◌>>=◌
abbrev pub ◌>>=◌ {ℓ κ} : {A : Type ℓ} {B : Type κ} → Outcome A → (A → Outcome B) → Outcome B
returned a >>= f = f a
panicked >>= f = panicked
stuck >>= f = stuck

-- A chain that returns is one whose first call returns.
pub bind-returned {ℓ κ} :
    {A : Type ℓ} {B : Type κ} (o : Outcome A) (f : A → Outcome B) (b : B)
    → (o >>= f) ≡ returned b
    → (a : A) × ((o ≡ returned a) × (f a ≡ returned b))
bind-returned (returned a) f b h = (a, (refl, h))
bind-returned panicked f b h = cc
bind-returned stuck f b h = cc
