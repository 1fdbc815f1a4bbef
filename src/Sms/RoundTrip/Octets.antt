-- ===== src/Sms/RoundTrip/Octets.antt =====
-- Whole octets in the bit writer: what `bw_header` writes is a list of octets.
use openwrt_fm.Base.{
  ℕ, suc, ◌+◌, ◌*◌, ◌/◌, ◌%◌, ◌≤◌, ◌<◌, ◌≡◌, refl, ap, ap₂, ◌∙◌, List, [], ◌∷◌, arith, length,
  get_or, get_or-take, length-take_le, take, Bytes, All, All-get_or, All-take,
}
use openwrt_fm.Sms.BitWriter.Bit.{digit, bit_at}
use openwrt_fm.Sms.Hex.Laws.{IsByte}
use openwrt_fm.Sms.RoundTrip.UserData.{octet_stream}

octet_ext : (a b : ℕ) → a < 256 → b < 256 → ((k : ℕ) → k < 8 → digit a k ≡ digit b k) → a ≡ b
octet_ext a b ha hb h = omega (
  arith,
  h 0 (omega arith),
  h 1 (omega arith),
  h 2 (omega arith),
  h 3 (omega arith),
  h 4 (omega arith),
  h 5 (omega arith),
  h 6 (omega arith),
  h 7 (omega arith),
)

list_ext :
    (xs ys : List ℕ)
    → length xs ≡ length ys
    → ((i : ℕ) → i < length xs → get_or xs i 0 ≡ get_or ys i 0)
    → xs ≡ ys
list_ext [] [] e h = refl
list_ext [] (y ∷ ys) e h = absurd (omega arith)
list_ext (x ∷ xs) [] e h = absurd (omega arith)
list_ext (x ∷ xs) (y ∷ ys) e h =
    ap₂ (λ (z : ℕ) (zs : List ℕ). z ∷ zs) (h 0 (omega arith))
      (list_ext xs ys (omega arith) (λ i lt. h (suc i) (omega arith)))

-- Octets are equal where their bits are.
pub octets_ext :
    (xs ys : Bytes)
    → All IsByte xs
    → All IsByte ys
    → length xs ≡ length ys
    → ((j : ℕ) → j < 8 * length xs → bit_at xs j ≡ octet_stream ys j)
    → xs ≡ ys
octets_ext xs ys bx by e h = list_ext xs ys e (λ i lt.
    octet_ext _ _ (All-get_or IsByte xs i 0 (omega arith) bx)
      (All-get_or IsByte ys i 0 (omega arith) by)
      (λ k lk.
        let octet : (8 * i + k) / 8 ≡ i = omega arith in
        let place : (8 * i + k) % 8 ≡ k = omega arith in
        let bit = h (8 * i + k) (omega arith) in rw (octet, place) at bit))

-- The octets at the front of a buffer, bit by bit.
pub take-octets :
    (buf bs : Bytes)
    → All IsByte buf
    → All IsByte bs
    → length bs ≤ length buf
    → ((j : ℕ) → j < 8 * length bs → bit_at buf j ≡ octet_stream bs j)
    → take (length bs) buf ≡ bs
take-octets buf bs bb by room h =
    let size = length-take_le (length bs) buf room in
    octets_ext _ bs (All-take IsByte (length bs) buf bb) by size (λ j lt.
      ap (λ b. digit b (j % 8)) (get_or-take (length bs) (j / 8) buf 0 (omega (arith, size)))
      ∙ h j (omega (arith, size)))
