-- ===== src/Base/Tests.antt =====
-- Boolean tests on the native numbers, the conditional, and checks of every value below a bound.
use Prim.Native.Char.{code}
use Prim.Native.String.{String}
use Prim.Native.Nat.{ℕ, zero, suc, ◌+◌, ◌≤◌, ◌<◌, compare, Ordering}
use mathlib.Core.Path.{◌≡◌, refl}
use mathlib.Core.Logic.{◌↔◌, ◌⊎◌, inl, inr}
use mathlib.Core.Bool.{Bool, true, false, ◌&&◌}
use mathlib.Core.List.{List, [], ◌∷◌}
use mathlib.Core.Option.{Option, none, some}
use native.Mathlib.Omega.{arith}

abbrev pub ltb : ℕ → ℕ → Bool
ltb a b = elim (compare a b) [ Ordering.lt ↦ true | _ ↦ false ]

abbrev pub leb : ℕ → ℕ → Bool
leb a b = elim (compare a b) [ Ordering.gt ↦ false | _ ↦ true ]

infix 50 ◌==◌
abbrev pub ◌==◌ : ℕ → ℕ → Bool
a == b = elim (compare a b) [ Ordering.eq ↦ true | _ ↦ false ]

infix 1 if◌then◌else◌
abbrev pub if◌then◌else◌ {ℓ} : {A : Type ℓ} → Bool → A → A → A
if true then x else y = x
if false then x else y = y

pub ltb→lt : (a b : ℕ) → ltb a b ≡ true → a < b
ltb→lt a b h = ground arith

pub leb→le : (a b : ℕ) → leb a b ≡ true → a ≤ b
leb→le a b h = ground arith

pub ==_iff : (a b : ℕ) → ((a == b) ≡ true) ↔ (a ≡ b)
==_iff a b = ground arith

pub Bool-cases : (b : Bool) → (b ≡ true) ⊎ (b ≡ false)
Bool-cases true = inl refl
Bool-cases false = inr refl

pub Option-cases {ℓ} : {A : Type ℓ} (o : Option A) → (o ≡ none) ⊎ ((a : A) × (o ≡ some a))
Option-cases none = inl refl
Option-cases (some a) = inr (a, refl)

-- The check `good` on every value below `n`, by evaluation, counting up from `from`.
unfoldable pub holds_from : (ℕ → Bool) → ℕ → ℕ → Bool
holds_from good zero from = true
holds_from good (suc n) from = holds_from good n (suc from) && good from

holds_from_sound :
    (good : ℕ → Bool) (n from x : ℕ)
    → holds_from good n from ≡ true
    → from ≤ x
    → x < from + n
    → good x ≡ true
unfolding holds_from
holds_from_sound good zero from x checked above below = absurd (omega arith)
holds_from_sound good (suc n) from x checked above below =
    ground (arith, holds_from_sound good n (suc from) x)

abbrev pub holds_below : ℕ → (ℕ → Bool) → Bool
holds_below n good = holds_from good n 0

pub holds_below_sound :
    (n : ℕ) (good : ℕ → Bool) (x : ℕ) → holds_below n good ≡ true → x < n → good x ≡ true
holds_below_sound n good x checked below =
    holds_from_sound good n 0 x checked (omega arith) (omega arith)

-- The bytes of an ASCII text.
abbrev pub codes : String → List ℕ
codes String.[] = []
codes (String.◌∷◌ c s) = code c ∷ codes s
