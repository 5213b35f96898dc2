-- ===== src/Common/Outcomes.antt =====
-- A Go result `(value, error)`: the value, or the message of the error.
use mathlib.Core.Path.{◌≡◌, refl}
use mathlib.Core.Logic.{◌⊎◌, inl, inr}
use authorino.Common.Text.{Bytes}

pub data Outcome {ℓ} (A : Type ℓ) : Type ℓ where
  ok : A → Outcome A
  err : Bytes → Outcome A

pub Outcome-cases {ℓ} :
    {A : Type ℓ} (o : Outcome A) → ((a : A) × (o ≡ ok a)) ⊎ ((m : Bytes) × (o ≡ err m))
Outcome-cases (ok a) = inl (a, refl)
Outcome-cases (err m) = inr (m, refl)
