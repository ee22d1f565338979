-- ===== src/Base/Results.antt =====
-- The pair `(value, error)` of a fallible Go function: a value, or an error and no value.
use mathlib.Core.Path.{◌≡◌, refl}
use mathlib.Core.Logic.{◌⊎◌, inl, inr}

pub data Result {ℓ κ} (E : Type ℓ) (A : Type κ) : Type (ℓ ⊔ κ) where
  err : E → Result E A
  ok : A → Result E A

module _ {ℓ κ ι} {E : Type ℓ} {A : Type κ} {B : Type ι} where
  infixl 5 ◌>>=◌
  -- `if err != nil { return err }` behind each step.
  abbrev pub ◌>>=◌ : Result E A → (A → Result E B) → Result E B
  step >>= next = elim step [ err e ↦ err e | ok a ↦ next a ]

pub Result-cases {ℓ κ} :
    {E : Type ℓ} {A : Type κ} (r : Result E A) → ((e : E) × (r ≡ err e)) ⊎ ((a : A) × (r ≡ ok a))
Result-cases (err e) = inl (e, refl)
Result-cases (ok a) = inr (a, refl)
