-- ===== src/Sms/Bcd.antt =====
-- fm160d/src/pdu.c, `bcd_encode`, `bcd_decode` and `scts_pair`: semi-octets, the first digit in the
-- low nibble. Digits are ASCII bytes; the caller's `ndigits` is the length of `digits`.
pub mod Laws
use openwrt_fm.Base.{
  ℕ, zero, suc, ◌+◌, ◌-◌, ◌*◌, Bool, true, false, not, ◌&&◌, ◌||◌, [], ◌∷◌, ◌++◌, bit_and, bit_or,
  ◌==◌, ltb, leb, if◌then◌else◌, length, Bytes,
}
use openwrt_fm.Base.Bits.{u8, ◌<<<◌, ◌>>>◌}
use openwrt_fm.Base.Result.{Errno, einval, Result, ok, err}

-- One round takes two digits, or the last one with the filler 0x0f.
unfoldable pub bcd_encode : Bytes → Bytes
bcd_encode [] = []
bcd_encode (d ∷ []) = u8 (bit_or (0x0f <<< 4) (d - b'0')) ∷ []
bcd_encode (d ∷ e ∷ digits) = u8 (bit_or ((e - b'0') <<< 4) (d - b'0')) ∷ bcd_encode digits

-- The loop of `bcd_decode`: `octets` are those left, `out` the digits written, so that its length
-- is `n`.
unfoldable pub bcd_decode_loop : Bytes → ℕ → ℕ → Bytes → Result Bytes
bcd_decode_loop [] ndigits outlen out = if length out == ndigits then ok out else err einval
bcd_decode_loop (o ∷ octets) ndigits outlen out =
    let lo = bit_and o 0x0f in
    let hi = bit_and (o >>> 4) 0x0f in
    let n = length out in
    let one = bcd_decode_loop octets ndigits outlen (out ++ ((b'0' + lo) ∷ [])) in
    let two = bcd_decode_loop octets ndigits outlen (out ++ ((b'0' + lo) ∷ (b'0' + hi) ∷ [])) in
    if leb ndigits n
    then (if n == ndigits then ok out else err einval)
    else if ltb 9 lo || (ltb (n + 1) ndigits && ltb 9 hi)
    then err einval
    else if leb outlen (n + 1)
    then err einval
    else if ltb (n + 1) ndigits
    then (if ltb 9 hi then err einval else two)
    else one

unfoldable pub bcd_decode : Bytes → ℕ → ℕ → Result Bytes
unfolding bcd_decode_loop
bcd_decode octets ndigits outlen = bcd_decode_loop octets ndigits outlen []

-- The digits that stand in the output behind the loop, whether it fails or not.
unfoldable pub bcd_written : Bytes → ℕ → ℕ → Bytes → Bytes
bcd_written [] ndigits outlen out = out
bcd_written (o ∷ octets) ndigits outlen out =
    let lo = bit_and o 0x0f in
    let hi = bit_and (o >>> 4) 0x0f in
    let n = length out in
    let one = bcd_written octets ndigits outlen (out ++ ((b'0' + lo) ∷ [])) in
    let two = bcd_written octets ndigits outlen (out ++ ((b'0' + lo) ∷ (b'0' + hi) ∷ [])) in
    if leb ndigits n
    then out
    else if ltb 9 lo || (ltb (n + 1) ndigits && ltb 9 hi)
    then out
    else if leb outlen (n + 1)
    then out
    else if ltb (n + 1) ndigits
    then (if ltb 9 hi then out ++ ((b'0' + lo) ∷ []) else two)
    else one

-- The value and the sign of the octet; without `use_sign` the sign is false.
unfoldable pub scts_pair : ℕ → Bool → Result (ℕ × Bool)
scts_pair o use_sign =
    let low = bit_and o 0x0f in
    let hi = bit_and (o >>> 4) 0x0f in
    let neg = if use_sign then not (bit_and low 0x08 == 0) else false in
    let lo = if use_sign then bit_and low 0x07 else low in
    if ltb 9 hi || ltb 9 lo then err einval else ok (lo * 10 + hi, neg)
