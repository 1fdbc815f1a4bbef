-- ===== src/Sms/Hex.antt =====
-- fm160d/src/pdu.c, `hexval`, `parse_hex` and `put_hex`. The NUL that `put_hex` writes is the end of
-- the list, and the NULL text that `parse_hex` refuses has no counterpart.
pub mod Laws
use openwrt_fm.Base.{
  ℕ, ◌+◌, ◌-◌, Bool, ◌&&◌, ◌||◌, [], ◌∷◌, ◌++◌, Option, none, some, bit_and, bit_or, ◌==◌, ltb, leb,
  if◌then◌else◌, get_or, length, Bytes, codes,
}
use openwrt_fm.Base.Bits.{u8, ◌<<<◌, ◌>>>◌}
use openwrt_fm.Base.Result.{Errno, einval, Result, ok, err}

-- The -1 is `none`.
unfoldable pub hexval : ℕ → Option ℕ
hexval c =
    if leb b'0' c && leb c b'9'
    then some (c - b'0')
    else if leb b'a' c && leb c b'f'
    then some (c - b'a' + 10)
    else if leb b'A' c && leb c b'F'
    then some (c - b'A' + 10)
    else none

unfoldable pub is_separator : ℕ → Bool
is_separator c =
    c == b' ' || c == b'\t' || c == b'\r' || c == b'\n' || c == b'"' || c == b',' || c == b':'

-- The loop of `parse_hex`: `hi` is the pending digit (`none` for -1), and `out` what is written,
-- so that its length is `n`.
unfoldable pub parse_hex_loop : Bytes → ℕ → Option ℕ → Bytes → Result Bytes
parse_hex_loop [] outmax none out = ok out
parse_hex_loop [] outmax (some hi) out = err einval
parse_hex_loop (c ∷ text) outmax hi out =
    let skipped = parse_hex_loop text outmax hi out in
    let pend = λ (v : ℕ). parse_hex_loop text outmax (some v) out in
    let store =
      λ (h v : ℕ). parse_hex_loop text outmax none (out ++ (u8 (bit_or (h <<< 4) v) ∷ [])) in
    if is_separator c then skipped else elim (hexval c) [
      | none ↦ err einval
      | some v ↦ elim hi [
        | none ↦ pend v
        | some h ↦ if leb outmax (length out) then err einval else store h v
      ]
    ]

unfoldable pub parse_hex : Bytes → ℕ → Result Bytes
unfolding parse_hex_loop hexval is_separator
parse_hex text outmax = parse_hex_loop text outmax none []

abbrev pub hex_digits : Bytes
hex_digits = codes "0123456789ABCDEF"

unfoldable pub put_hex : Bytes → Bytes
put_hex [] = []
put_hex (b ∷ src) =
    get_or hex_digits (b >>> 4) 0 ∷ get_or hex_digits (bit_and b 0x0f) 0 ∷ put_hex src
