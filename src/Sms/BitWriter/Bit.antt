-- ===== src/Sms/BitWriter/Bit.antt =====
-- One bit of a buffer: what a write changes, and how a window of seven bits is read.
use openwrt_fm.Base.{
  ℕ, zero, suc, ◌+◌, ◌-◌, ◌*◌, ◌/◌, ◌%◌, ◌^◌, ◌<◌, Bool, true, ◌≡◌, refl, sym, ap, ◌∙◌, inl, inr,
  arith, bit_or, ltb, ltb→lt, ◌==◌, ==_iff, if◌then◌else◌, get_or, Bytes, Bool-cases, All,
  All-get_or, holds_below, holds_from, holds_below_sound,
}
use openwrt_fm.Base.Bits.{◌<<<◌}
use openwrt_fm.Sms.Hex.Laws.{IsByte}

-- Bit `k` of a number.
abbrev pub digit : ℕ → ℕ → ℕ
digit x k = x / 2 ^ k % 2

-- Bit `j` of a buffer, the lowest bit of each octet first.
abbrev pub bit_at : Bytes → ℕ → ℕ
bit_at buf j = digit (get_or buf (j / 8) 0) (j % 8)

abbrev or_check : ℕ → Bool
or_check x =
    let byte = x / 64 in
    let m = x / 8 % 8 in
    let k = x % 8 in (digit (bit_or byte (1 <<< m)) k == (if k == m then 1 else digit byte k))

or_table : holds_below 16384 or_check ≡ true
unfolding holds_from
or_table = refl

-- Setting bit `m` of an octet sets that bit and no other.
pub digit-or :
    (byte m k : ℕ)
    → byte < 256
    → m < 8
    → k < 8
    → digit (bit_or byte (1 <<< m)) k ≡ (if k == m then 1 else digit byte k)
digit-or byte m k hb hm hk =
    let x = byte * 64 + m * 8 + k in
    let checked = (==_iff _ _).0 (holds_below_sound 16384 or_check x or_table (omega arith)) in
    let high : x / 64 ≡ byte = omega arith in
    let middle : x / 8 % 8 ≡ m = omega arith in
    let low : x % 8 ≡ k = omega arith in rw (high, middle, low) at checked

or_byte_table : holds_below 2048 (λ x. ltb (bit_or (x / 8) (1 <<< (x % 8))) 256) ≡ true
unfolding holds_from
or_byte_table = refl

pub or-IsByte : (byte m : ℕ) → byte < 256 → m < 8 → bit_or byte (1 <<< m) < 256
or-IsByte byte m hb hm =
    let x = byte * 8 + m in
    let checked = ltb→lt _ _ (
      holds_below_sound 2048 (λ x. ltb (bit_or (x / 8) (1 <<< (x % 8))) 256) x or_byte_table
        (omega arith)) in
    let high : x / 8 ≡ byte = omega arith in
    let low : x % 8 ≡ m = omega arith in rw (high, low) at checked

-- A property of the numbers below eight, one by one.
pub below_eight {ℓ} :
    (P : ℕ → Type ℓ) → P 0 → P 1 → P 2 → P 3 → P 4 → P 5 → P 6 → P 7 → (k : ℕ) → k < 8 → P k
below_eight P p0 p1 p2 p3 p4 p5 p6 p7 zero h = p0
below_eight P p0 p1 p2 p3 p4 p5 p6 p7 (suc zero) h = p1
below_eight P p0 p1 p2 p3 p4 p5 p6 p7 (suc (suc zero)) h = p2
below_eight P p0 p1 p2 p3 p4 p5 p6 p7 (suc (suc (suc zero))) h = p3
below_eight P p0 p1 p2 p3 p4 p5 p6 p7 (suc (suc (suc (suc zero)))) h = p4
below_eight P p0 p1 p2 p3 p4 p5 p6 p7 (suc (suc (suc (suc (suc zero))))) h = p5
below_eight P p0 p1 p2 p3 p4 p5 p6 p7 (suc (suc (suc (suc (suc (suc zero)))))) h = p6
below_eight P p0 p1 p2 p3 p4 p5 p6 p7 (suc (suc (suc (suc (suc (suc (suc zero))))))) h = p7
below_eight P p0 p1 p2 p3 p4 p5 p6 p7 (suc (suc (suc (suc (suc (suc (suc (suc k)))))))) h =
    absurd (omega arith)

-- The number with the lowest seven bits `f 0` to `f 6`.
abbrev pub seven : (ℕ → ℕ) → ℕ
seven f = f 0 + 2 * f 1 + 4 * f 2 + 8 * f 3 + 16 * f 4 + 32 * f 5 + 64 * f 6

pub seven-digit : (x : ℕ) → seven (digit x) ≡ x % 128
seven-digit x = omega arith

pub seven_ext : (f g : ℕ → ℕ) → ((i : ℕ) → i < 7 → f i ≡ g i) → seven f ≡ seven g
seven_ext f g h = omega (
  arith,
  h 0 (omega arith),
  h 1 (omega arith),
  h 2 (omega arith),
  h 3 (omega arith),
  h 4 (omega arith),
  h 5 (omega arith),
  h 6 (omega arith),
)

-- Two octets as one number, the first in the low bits.
pair-low : (a b k : ℕ) → k < 8 → digit (a + b * 256) k ≡ digit a k
pair-low a b =
    below_eight (λ k. digit (a + b * 256) k ≡ digit a k) (omega arith) (omega arith) (omega arith)
      (omega arith) (omega arith) (omega arith) (omega arith) (omega arith)

pair-high : (a b k : ℕ) → a < 256 → k < 8 → digit (a + b * 256) (8 + k) ≡ digit b k
pair-high a b k h =
    below_eight (λ k. digit (a + b * 256) (8 + k) ≡ digit b k) (omega arith) (omega arith)
      (omega arith) (omega arith) (omega arith) (omega arith) (omega arith) (omega arith) k

bit_at-split :
    (buf : Bytes) (at k : ℕ) → k < 8 → bit_at buf (8 * at + k) ≡ digit (get_or buf at 0) k
bit_at-split buf at k h =
    let octet : (8 * at + k) / 8 ≡ at = omega arith in
    let place : (8 * at + k) % 8 ≡ k = omega arith in rw (octet, place) refl

bit_at-pair :
    (buf : Bytes) (at k : ℕ)
    → All IsByte buf
    → k < 16
    → bit_at buf (8 * at + k) ≡ digit (get_or buf at 0 + get_or buf (at + 1) 0 * 256) k
bit_at-pair buf at k bs h = elim (Bool-cases (ltb k 8)) [
  | inl first ↦
      bit_at-split buf at k (ground arith)
      ∙ sym (pair-low (get_or buf at 0) (get_or buf (at + 1) 0) k (ground arith))
  | inr second ↦
      let over : k ≡ 8 + (k - 8) = ground arith in
      let at_next : 8 * at + k ≡ 8 * (at + 1) + (k - 8) = ground arith in
      let small = All-get_or IsByte buf at 0 (omega arith) bs in
      ap (bit_at buf) at_next
      ∙ bit_at-split buf (at + 1) (k - 8) (ground arith)
      ∙ sym (pair-high (get_or buf at 0) (get_or buf (at + 1) 0) (k - 8) small (ground arith))
      ∙ ap (digit (get_or buf at 0 + get_or buf (at + 1) 0 * 256)) (sym over)
]

-- Seven bits of a number from bit `off` on.
window : (x off : ℕ) → off < 8 → x / 2 ^ off % 128 ≡ seven (λ i. digit x (off + i))
window x =
    below_eight (λ off. x / 2 ^ off % 128 ≡ seven (λ i. digit x (off + i))) (omega arith)
      (omega arith) (omega arith) (omega arith) (omega arith) (omega arith) (omega arith)
      (omega arith)

-- The septet at bit `8 * at + off` of a buffer, read from two octets.
pub window-bit_at :
    (buf : Bytes) (at off : ℕ)
    → All IsByte buf
    → off < 8
    → (get_or buf at 0 + get_or buf (at + 1) 0 * 256) / 2 ^ off % 128
      ≡ seven (λ i. bit_at buf (8 * at + off + i))
window-bit_at buf at off bs h =
    window (get_or buf at 0 + get_or buf (at + 1) 0 * 256) off h
    ∙ seven_ext _ _ (λ i lt.
      let regroup : 8 * at + off + i ≡ 8 * at + (off + i) = omega arith in
      sym (ap (bit_at buf) regroup ∙ bit_at-pair buf at (off + i) bs (omega arith)))
