-- ===== src/Base/Ends.antt =====
-- How a call of the code ends: by returning, by a Go panic, or by `log.Fatal` or a failed test,
-- which end the process or the test. `stuck` is a loop of the model that ran out of fuel.
use mathlib.Core.Path.{◌≡◌, refl}
use mathlib.Core.Logic.{◌⊎◌, inl, inr}

pub data Outcome {ℓ} (A : Type ℓ) : Type ℓ where
  ok : A → Outcome A
  panic fatal stuck : Outcome A

pub Outcome-cases {ℓ} :
    {A : Type ℓ} (o : Outcome A)
    → ((a : A) × (o ≡ ok a)) ⊎ ((o ≡ panic) ⊎ ((o ≡ fatal) ⊎ (o ≡ stuck)))
Outcome-cases (ok a) = inl (a, refl)
Outcome-cases panic = inr (inl refl)
Outcome-cases fatal = inr (inr (inl refl))
Outcome-cases stuck = inr (inr (inr refl))
