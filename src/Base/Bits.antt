-- ===== src/Base/Bits.antt =====
-- C's shifts, masks and casts. `|` of disjoint fields is a sum and `&` with a low mask is a
-- remainder, at every width.
use Prim.Native.Nat.{
  ℕ, zero, suc, ◌+◌, ◌-◌, ◌*◌, ◌/◌, ◌%◌, ◌^◌, ◌≤◌, ◌<◌, min, max, digits, bit_and, bit_or,
  bit_and-bitwise, bit_or-bitwise,
}
use mathlib.Core.Path.{◌≡◌, refl, sym, ap, ◌∙◌}
use native.Mathlib.Nat.{pow-suc, one-le-pow}
use native.Mathlib.Omega.{arith}

abbrev pub u8 : ℕ → ℕ
u8 n = n % 256

infixl 75 ◌<<<◌ ◌>>>◌
abbrev pub ◌<<<◌ : ℕ → ℕ → ℕ
x <<< k = x * 2 ^ k

abbrev pub ◌>>>◌ : ℕ → ℕ → ℕ
x >>> k = x / 2 ^ k

-- The native operations go through the binary digits of the left operand `x` on a count, for which
-- any number that is no smaller than `x` serves.
module _ (tail_of : ℕ → ℕ) (op : ℕ → ℕ → ℕ) where
  digits-agree : (x y p q : ℕ) → x ≤ p → x ≤ q → digits tail_of op p x y ≡ digits tail_of op q x y
  digits-agree (suc x) y zero q hp hq = absurd (omega arith)
  digits-agree (suc x) y (suc p) zero hp hq = absurd (omega arith)
  digits-agree (suc x) y (suc p) (suc q) hp hq =
      let half = digits-agree (suc x / 2) (y / 2) p q (omega arith) (omega arith) in
      omega (arith, half)
  digits-agree zero y zero zero hp hq = refl
  digits-agree zero y zero (suc q) hp hq = refl
  digits-agree zero y (suc p) zero hp hq = refl
  digits-agree zero y (suc p) (suc q) hp hq = refl

pub bit_or-halves : (x y : ℕ) → bit_or x y ≡ 2 * bit_or (x / 2) (y / 2) + max (x % 2) (y % 2)
bit_or-halves (suc x) y =
    let count =
      digits-agree (λ r. r) max (suc x / 2) (y / 2) x (suc x / 2) (omega arith) (omega arith) in
    omega (arith, count, bit_or-bitwise (suc x / 2) (y / 2), bit_or-bitwise (suc x) y)
bit_or-halves zero y = omega (arith, bit_or-bitwise 0 (y / 2), bit_or-bitwise 0 y)

pub bit_and-halves : (x y : ℕ) → bit_and x y ≡ 2 * bit_and (x / 2) (y / 2) + min (x % 2) (y % 2)
bit_and-halves (suc x) y =
    let count =
      digits-agree (λ r. 0) min (suc x / 2) (y / 2) x (suc x / 2) (omega arith) (omega arith) in
    omega (arith, count, bit_and-bitwise (suc x / 2) (y / 2), bit_and-bitwise (suc x) y)
bit_and-halves zero y = omega (arith, bit_and-bitwise 0 (y / 2), bit_and-bitwise 0 y)

-- Both at 0, below any bound on the left operand.
or-zero_below : (n a : ℕ) → a < n → bit_or a 0 ≡ a
or-zero_below zero a h = absurd (omega arith)
or-zero_below (suc n) zero h = refl
or-zero_below (suc n) (suc a) h =
    omega (arith, bit_or-halves (suc a) 0, or-zero_below n (suc a / 2) (omega arith))

and-zero_below : (n a : ℕ) → a < n → bit_and a 0 ≡ 0
and-zero_below zero a h = absurd (omega arith)
and-zero_below (suc n) zero h = refl
and-zero_below (suc n) (suc a) h =
    omega (arith, bit_and-halves (suc a) 0, and-zero_below n (suc a / 2) (omega arith))

double-shift : (q k : ℕ) → q * 2 ^ suc k ≡ 2 * (q * 2 ^ k)
double-shift q k = omega (arith, ap (λ (t : ℕ). q * t) (pow-suc 2 k))

-- `(q << k) | r`, where `r` has `k` bits.
pub or-shift : (k q r : ℕ) → r < 2 ^ k → bit_or (q <<< k) r ≡ q * 2 ^ k + r
or-shift zero q r h = ground (arith, or-zero_below (suc q) q)
or-shift (suc k) q r h =
    ground
      (arith, bit_or-halves (q * 2 ^ suc k) r, double-shift q k, pow-suc 2 k, or-shift k q (r / 2))

and-mask_split : (k q r : ℕ) → r < 2 ^ k → bit_and (q <<< k + r) (2 ^ k - 1) ≡ r
and-mask_split zero q r h = ground (arith, and-zero_below (suc q) q)
and-mask_split (suc k) q r h =
    let low : r / 2 < 2 ^ k = omega (arith, pow-suc 2 k) in
    let halves = bit_and-halves (q * 2 ^ suc k + r) (2 ^ suc k - 1) in
    ground (arith, halves, double-shift q k, pow-suc 2 k, and-mask_split k q (r / 2) low)

-- `a & ((1 << k) - 1)`.
pub and-mask : (k a : ℕ) → bit_and a (2 ^ k - 1) ≡ a % 2 ^ k
and-mask k a = ground (arith, one-le-pow k 2, and-mask_split k (a / 2 ^ k) (a % 2 ^ k))

or-comm_below : (n x y : ℕ) → x < n → y < n → bit_or x y ≡ bit_or y x
or-comm_below zero x y hx hy = absurd (omega arith)
or-comm_below (suc n) zero zero hx hy = refl
or-comm_below (suc n) zero (suc y) hx hy =
    bit_or-bitwise 0 (suc y) ∙ sym (or-zero_below (suc (suc y)) (suc y) (omega arith))
or-comm_below (suc n) (suc x) y hx hy =
    let half = or-comm_below n (suc x / 2) (y / 2) (omega arith) (omega arith) in
    omega (arith, bit_or-halves (suc x) y, bit_or-halves y (suc x), half)

pub or_comm : (x y : ℕ) → bit_or x y ≡ bit_or y x
or_comm x y = or-comm_below (x + y + 1) x y (omega arith) (omega arith)
