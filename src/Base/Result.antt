-- ===== src/Base/Result.antt =====
-- C's convention for fallible functions: 0 or a count, or a negative errno value.
use mathlib.Core.Path.{◌≡◌, refl}
use mathlib.Core.Logic.{◌⊎◌, inl, inr}

pub data Errno : Type 0 where
  einval e2big : Errno

pub data Result {ℓ} (A : Type ℓ) : Type ℓ where
  ok : A → Result A
  err : Errno → Result A

-- The rest of a function runs where the call succeeded.
infixl 5 ◌>>=◌
abbrev pub ◌>>=◌ {ℓ κ} : {A : Type ℓ} {B : Type κ} → Result A → (A → Result B) → Result B
call >>= rest = elim call [ err code ↦ err code | ok value ↦ rest value ]

pub Result-cases {ℓ} :
    {A : Type ℓ} (r : Result A) → ((code : Errno) × (r ≡ err code)) ⊎ ((value : A) × (r ≡ ok value))
Result-cases (err code) = inl (code, refl)
Result-cases (ok value) = inr (value, refl)

pub ok-injective {ℓ} : {A : Type ℓ} {x y : A} → ok x ≡ ok y → x ≡ y
ok-injective same = cc
