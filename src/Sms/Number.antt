-- ===== src/Sms/Number.antt =====
-- fm160d/src/pdu.c, `sms_number_clean` and `sms_number_plausible`. The number is a C string; the NULL
-- that both refuse has no counterpart.
pub mod Laws
use openwrt_fm.Base.{
  ℕ, ◌+◌, Bool, true, false, not, ◌&&◌, ◌||◌, [], ◌∷◌, ◌++◌, ◌==◌, ltb, leb, if◌then◌else◌, length,
  Bytes,
}
use openwrt_fm.Base.Result.{Errno, einval, Result, ok, err}

unfoldable pub is_digit : ℕ → Bool
is_digit c = leb b'0' c && leb c b'9'

unfoldable pub is_formatting : ℕ → Bool
is_formatting c = c == b' ' || c == b'-' || c == b'(' || c == b')' || c == b'.' || c == b'/'

-- The loop of `sms_number_clean`: `out` holds the `n` digits written, `intl` is the flag.
unfoldable pub number_clean_loop : Bytes → ℕ → Bytes → Bool → Result (Bytes × Bool)
number_clean_loop [] outlen [] intl = err einval
number_clean_loop [] outlen (d ∷ ds) intl = ok (d ∷ ds, intl)
number_clean_loop (c ∷ text) outlen out intl =
    let plus =
      number_clean_loop text outlen out (if length out == 0 && not intl then true else intl) in
    let keep = number_clean_loop text outlen (out ++ (c ∷ [])) intl in
    let drop = number_clean_loop text outlen out intl in
    if c == b'+'
    then plus
    else if is_digit c
    then (if ltb outlen (length out + 2) then err einval else keep)
    else if is_formatting c
    then drop
    else err einval

-- The digits, and whether a leading `+` made the number international.
unfoldable pub sms_number_clean : Bytes → ℕ → Result (Bytes × Bool)
unfolding number_clean_loop is_digit is_formatting
sms_number_clean text outlen =
    if outlen == 0 then err einval else number_clean_loop text outlen [] false

unfoldable pub all_digits : Bytes → Bool
all_digits [] = true
all_digits (d ∷ ds) = is_digit d && all_digits ds

unfoldable pub sms_number_plausible : Bytes → Bool
unfolding all_digits is_digit
sms_number_plausible d = if ltb (length d) 2 || ltb 20 (length d) then false else all_digits d
