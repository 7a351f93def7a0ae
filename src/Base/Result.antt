-- ===== src/Base/Result.antt =====
-- Python functions that may raise: a value, or the exception that left the function.
use mathlib.Core.Path.{◌≡◌, refl, ap}
use mathlib.Core.Logic.{◌⊎◌, inl, inr}
use mathlib.Core.Bool.{Bool, true, false}

pub data Result {ℓ κ} (E : Type ℓ) (A : Type κ) : Type (ℓ ⊔ κ) where
  err : E → Result E A
  ok : A → Result E A

module _ {ℓ κ μ} {E : Type ℓ} {A : Type κ} {B : Type μ} where
  infixl 8 ◌>>=◌ ◌>>◌
  -- The next statement of a function body.
  abbrev pub ◌>>=◌ : Result E A → (A → Result E B) → Result E B
  r >>= next = elim r [ err e ↦ err e | ok a ↦ next a ]

  abbrev pub ◌>>◌ : Result E A → Result E B → Result E B
  r >> next = elim r [ err e ↦ err e | ok _ ↦ next ]

-- `if test: raise e`
abbrev pub raise_if {ℓ} : {E : Type ℓ} → Bool → E → Result E (Unit {0})
raise_if test e = elim test [ true ↦ err e | false ↦ ok tt ]

pub Result-cases {ℓ κ} :
    {E : Type ℓ} {A : Type κ} (r : Result E A) → ((a : A) × (r ≡ ok a)) ⊎ ((e : E) × (r ≡ err e))
Result-cases (err e) = inr (e, refl)
Result-cases (ok a) = inl (a, refl)

module _ {ℓ κ} {E : Type ℓ} {A : Type κ} where
  -- The value of a function that returned.
  abbrev pub value_or : A → Result E A → A
  value_or a (err e) = a
  value_or a (ok b) = b

  pub ok-injective : (a b : A) → Path (Result E A) (ok a) (ok b) → a ≡ b
  ok-injective a b h = ap (value_or a) h
