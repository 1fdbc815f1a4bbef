-- ===== src/Text/Decimal.antt =====
-- Decimal numbers: `%d` and `strtol` over the same text.
use openwrt_fm.Text.{ltrim, is_blank, is_num, digits_loop, decimal_loop, strtol, decimal}
use openwrt_fm.Base.{
  ℕ, zero, suc, ◌+◌, ◌-◌, ◌*◌, ◌/◌, ◌%◌, ◌≤◌, ◌<◌, Bool, true, false, ◌≡◌, refl, ◌∙◌, ap, [], ◌∷◌,
  ◌++◌, inl, inr, arith, ltb, Bool-cases, Bytes, length, All,
}

-- A byte that ends a number, or the end of the string.
abbrev pub Ends : (ℕ → Bool) → Bytes → Type 0
Ends inside [] = Unit
Ends inside (c ∷ s) = inside c ≡ false

pub digits_loop-end : (value : ℕ) (s : Bytes) → Ends is_num s → digits_loop value s ≡ (value, s)
unfolding digits_loop
digits_loop-end value [] h = refl
digits_loop-end value (c ∷ s) h = rw h refl

pub is_num-digit : (d : ℕ) → d < 10 → is_num (b'0' + d) ≡ true
is_num-digit d h = ground arith

digits_loop-digit :
    (value d : ℕ) (s : Bytes)
    → d < 10
    → digits_loop value ((b'0' + d) ∷ s) ≡ digits_loop (value * 10 + d) s
unfolding digits_loop
digits_loop-digit value d s h =
    let back : (b'0' + d - b'0' ≡ d) = omega arith in rw (is_num-digit d h) (rw back refl)

digits_loop-decimal_loop :
    (fuel n : ℕ) (tail : Bytes)
    → n < fuel
    → digits_loop 0 (decimal_loop fuel n tail) ≡ digits_loop n tail
unfolding decimal_loop
digits_loop-decimal_loop zero n tail h = absurd (omega arith)
digits_loop-decimal_loop (suc fuel) n tail h = elim (Bool-cases (ltb n 10)) [
  | inl small ↦
      let low : n < 10 = ground arith in
      let same : (0 * 10 + n ≡ n) = omega arith in
      rw small (digits_loop-digit 0 n tail low ∙ ap (λ k. digits_loop k tail) same)
  | inr large ↦
      let less : (n / 10 < fuel) = ground arith in
      let last : n % 10 < 10 = omega arith in
      let whole : (n / 10 * 10 + n % 10 ≡ n) = omega arith in
      rw large (
        digits_loop-decimal_loop fuel (n / 10) ((b'0' + n % 10) ∷ tail) less
        ∙ digits_loop-digit (n / 10) (n % 10) tail last
        ∙ ap (λ k. digits_loop k tail) whole)
]

-- `strtol` reads back what `%d` printed, up to a byte that is no digit.
pub strtol-decimal : (n : ℕ) (tail : Bytes) → Ends is_num tail → strtol (decimal n tail) ≡ (n, tail)
strtol-decimal n tail h =
    digits_loop-decimal_loop (suc n) n tail (omega arith) ∙ digits_loop-end n tail h

-- A printed number opens with a digit.
decimal_loop_head :
    (fuel n : ℕ) (tail : Bytes)
    → n < fuel
    → (d : ℕ) × ((rest : Bytes) × ((d < 10)
          × ((decimal_loop fuel n tail ≡ (b'0' + d) ∷ rest) × (length tail ≤ length rest))))
unfolding decimal_loop
decimal_loop_head zero n tail h = absurd (omega arith)
decimal_loop_head (suc fuel) n tail h = elim (Bool-cases (ltb n 10)) [
  | inl small ↦ (n, (tail, (ground arith, (rw small refl, omega arith))))
  | inr large ↦
      let less : (n / 10 < fuel) = ground arith in
      let (d, (rest, (low, (same, size)))) =
        decimal_loop_head fuel (n / 10) ((b'0' + n % 10) ∷ tail) less in
      (d, (rest, (low, (rw large same, omega (arith, size)))))
]

pub decimal_head :
    (n : ℕ) (tail : Bytes)
    → (d : ℕ) × ((rest : Bytes) × ((d < 10)
          × ((decimal n tail ≡ (b'0' + d) ∷ rest) × (length tail ≤ length rest))))
decimal_head n tail = decimal_loop_head (suc n) n tail (omega arith)

-- The number stands in front of the tail.
decimal_loop-append :
    (fuel n : ℕ) (tail more : Bytes)
    → decimal_loop fuel n (tail ++ more) ≡ decimal_loop fuel n tail ++ more
unfolding decimal_loop
decimal_loop-append zero n tail more = refl
decimal_loop-append (suc fuel) n tail more = elim (Bool-cases (ltb n 10)) [
  | inl small ↦ rw small refl
  | inr large ↦ rw large (decimal_loop-append fuel (n / 10) ((b'0' + n % 10) ∷ tail) more)
]

pub decimal-append : (n : ℕ) (tail : Bytes) → decimal n tail ≡ decimal n [] ++ tail
decimal-append n tail = decimal_loop-append (suc n) n [] tail

-- It consists of digits.
decimal_loop-All :
    (fuel n : ℕ) (tail : Bytes)
    → All (λ c. is_num c ≡ true) tail
    → All (λ c. is_num c ≡ true) (decimal_loop fuel n tail)
unfolding decimal_loop
decimal_loop-All zero n tail h = h
decimal_loop-All (suc fuel) n tail h = elim (Bool-cases (ltb n 10)) [
  | inl small ↦ rw small (is_num-digit n (ground arith), h)
  | inr large ↦ rw large (
      decimal_loop-All fuel (n / 10) ((b'0' + n % 10) ∷ tail)
        (is_num-digit (n % 10) (omega arith), h))
]

pub decimal-All : (n : ℕ) → All (λ c. is_num c ≡ true) (decimal n [])
decimal-All n = decimal_loop-All (suc n) n [] tt

length-decimal_loop :
    (fuel n : ℕ) (tail : Bytes) → length (decimal_loop fuel n tail) ≤ fuel + length tail
unfolding decimal_loop
length-decimal_loop zero n tail = omega arith
length-decimal_loop (suc fuel) n tail = elim (Bool-cases (ltb n 10)) [
  | inl small ↦ rw small (omega arith)
  | inr large ↦ rw large (omega (arith, length-decimal_loop fuel (n / 10) ((b'0' + n % 10) ∷ tail)))
]

pub length-decimal : (n : ℕ) → length (decimal n []) ≤ n + 1
length-decimal n = omega (arith, length-decimal_loop (suc n) n [])

-- Any fuel above the number prints the same.
decimal_loop-fuel :
    (fuel fuel' n : ℕ) (tail : Bytes)
    → n < fuel
    → n < fuel'
    → decimal_loop fuel n tail ≡ decimal_loop fuel' n tail
unfolding decimal_loop
decimal_loop-fuel zero fuel' n tail h h' = absurd (omega arith)
decimal_loop-fuel (suc fuel) zero n tail h h' = absurd (omega arith)
decimal_loop-fuel (suc fuel) (suc fuel') n tail h h' = elim (Bool-cases (ltb n 10)) [
  | inl small ↦ rw small refl
  | inr large ↦
      let less : (n / 10 < fuel) = ground arith in
      let less' : (n / 10 < fuel') = ground arith in
      rw large (decimal_loop-fuel fuel fuel' (n / 10) ((b'0' + n % 10) ∷ tail) less less')
]

pub decimal-digit : (d : ℕ) (tail : Bytes) → d < 10 → decimal d tail ≡ (b'0' + d) ∷ tail
unfolding decimal_loop
decimal-digit d tail h = let small : ltb d 10 ≡ true = ground arith in rw small refl

decimal_loop-next :
    (fuel n d : ℕ) (tail : Bytes)
    → 0 < n
    → d < 10
    → decimal_loop (suc fuel) (n * 10 + d) tail ≡ decimal_loop fuel n ((b'0' + d) ∷ tail)
unfolding decimal_loop
decimal_loop-next fuel n d tail h low =
    let large : ltb (n * 10 + d) 10 ≡ false = ground arith in
    let whole : (n * 10 + d) / 10 ≡ n = omega arith in
    let last : (n * 10 + d) % 10 ≡ d = omega arith in rw large (rw (whole, last) refl)

-- A digit more.
pub decimal-next :
    (n d : ℕ) (tail : Bytes)
    → 0 < n
    → d < 10
    → decimal (n * 10 + d) tail ≡ decimal n ((b'0' + d) ∷ tail)
decimal-next n d tail h low =
    decimal_loop-next (n * 10 + d) n d tail h low
    ∙ decimal_loop-fuel (n * 10 + d) (suc n) n ((b'0' + d) ∷ tail) (omega arith) (omega arith)

pub ltrim-decimal : (n : ℕ) (tail : Bytes) → ltrim (decimal n tail) ≡ decimal n tail
unfolding ltrim
ltrim-decimal n tail =
    let (d, (rest, (low, (same, size)))) = decimal_head n tail in
    let solid : is_blank (b'0' + d) ≡ false = ground arith in rw same (rw solid refl)
