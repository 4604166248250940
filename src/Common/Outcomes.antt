-- ===== src/Common/Outcomes.antt =====
-- How a call ends: it returns, its behaviour is undefined in C (a NULL or out-of-bounds access, a
-- buffer overrun), it throws a C++ exception, or its loop has not ended within the model's fuel.
use mathlib.Core.Path.{◌≡◌, refl}
use mathlib.Core.Logic.{◌⊎◌, inl, inr}
use mathlib.Core.Path.{◌≡◌, refl}
use mathlib.Core.Logic.{◌⊎◌, inl, inr}

pub data Outcome {ℓ} (A : Type ℓ) : Type ℓ where
  ok : A → Outcome A
  fault : Outcome A
  thrown : Outcome A
  unfinished : Outcome A

infixl 5 ◌>>=◌
abbrev pub ◌>>=◌ {ℓ κ} : {A : Type ℓ} {B : Type κ} → Outcome A → (A → Outcome B) → Outcome B
ok a >>= f = f a
fault >>= f = fault
thrown >>= f = thrown
unfinished >>= f = unfinished

-- To split on how a call ended.
pub Outcome-cases {ℓ} :
    {A : Type ℓ} (m : Outcome A)
    → ((a : A) × (m ≡ ok a)) ⊎ (m ≡ fault) ⊎ (m ≡ thrown) ⊎ (m ≡ unfinished)
Outcome-cases (ok a) = inl (a, refl)
Outcome-cases fault = inr (inl refl)
Outcome-cases thrown = inr (inr (inl refl))
Outcome-cases unfinished = inr (inr (inr refl))
