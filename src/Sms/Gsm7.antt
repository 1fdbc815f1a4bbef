-- ===== src/Sms/Gsm7.antt =====
-- fm160d/src/pdu.c, the GSM 7-bit alphabet: the two tables of TS 23.038 and the look-ups in both
-- directions. The -1 of `sms_gsm7_from_ucs` is `none`.
pub mod Laws
use openwrt_fm.Base.{
  ℕ, zero, suc, ◌+◌, Bool, not, ◌&&◌, List, [], ◌∷◌, Option, none, some, bit_and, bit_or, ◌==◌,
  if◌then◌else◌, get_or,
}

abbrev pub gsm7_esc : ℕ
gsm7_esc = 0x1b

abbrev pub gsm7_ext_flag : ℕ
gsm7_ext_flag = 0x1b00

-- The index is the septet, the value its code point; 0xffff marks the escape slot.
unfoldable pub gsm7_default : List ℕ
gsm7_default =
    0x0040 ∷ 0x00a3 ∷ 0x0024 ∷ 0x00a5 ∷ 0x00e8 ∷ 0x00e9 ∷ 0x00f9 ∷ 0x00ec ∷ 0x00f2 ∷ 0x00c7 ∷ 0x000a
    ∷ 0x00d8 ∷ 0x00f8 ∷ 0x000d ∷ 0x00c5 ∷ 0x00e5 ∷ 0x0394 ∷ 0x005f ∷ 0x03a6 ∷ 0x0393 ∷ 0x039b
    ∷ 0x03a9 ∷ 0x03a0 ∷ 0x03a8 ∷ 0x03a3 ∷ 0x0398 ∷ 0x039e ∷ 0xffff ∷ 0x00c6 ∷ 0x00e6 ∷ 0x00df
    ∷ 0x00c9 ∷ 0x0020 ∷ 0x0021 ∷ 0x0022 ∷ 0x0023 ∷ 0x00a4 ∷ 0x0025 ∷ 0x0026 ∷ 0x0027 ∷ 0x0028
    ∷ 0x0029 ∷ 0x002a ∷ 0x002b ∷ 0x002c ∷ 0x002d ∷ 0x002e ∷ 0x002f ∷ 0x0030 ∷ 0x0031 ∷ 0x0032
    ∷ 0x0033 ∷ 0x0034 ∷ 0x0035 ∷ 0x0036 ∷ 0x0037 ∷ 0x0038 ∷ 0x0039 ∷ 0x003a ∷ 0x003b ∷ 0x003c
    ∷ 0x003d ∷ 0x003e ∷ 0x003f ∷ 0x00a1 ∷ 0x0041 ∷ 0x0042 ∷ 0x0043 ∷ 0x0044 ∷ 0x0045 ∷ 0x0046
    ∷ 0x0047 ∷ 0x0048 ∷ 0x0049 ∷ 0x004a ∷ 0x004b ∷ 0x004c ∷ 0x004d ∷ 0x004e ∷ 0x004f ∷ 0x0050
    ∷ 0x0051 ∷ 0x0052 ∷ 0x0053 ∷ 0x0054 ∷ 0x0055 ∷ 0x0056 ∷ 0x0057 ∷ 0x0058 ∷ 0x0059 ∷ 0x005a
    ∷ 0x00c4 ∷ 0x00d6 ∷ 0x00d1 ∷ 0x00dc ∷ 0x00a7 ∷ 0x00bf ∷ 0x0061 ∷ 0x0062 ∷ 0x0063 ∷ 0x0064
    ∷ 0x0065 ∷ 0x0066 ∷ 0x0067 ∷ 0x0068 ∷ 0x0069 ∷ 0x006a ∷ 0x006b ∷ 0x006c ∷ 0x006d ∷ 0x006e
    ∷ 0x006f ∷ 0x0070 ∷ 0x0071 ∷ 0x0072 ∷ 0x0073 ∷ 0x0074 ∷ 0x0075 ∷ 0x0076 ∷ 0x0077 ∷ 0x0078
    ∷ 0x0079 ∷ 0x007a ∷ 0x00e4 ∷ 0x00f6 ∷ 0x00f1 ∷ 0x00fc ∷ 0x00e0 ∷ []

-- The single-shift table, by designated initialisers; every other slot is 0.
unfoldable pub gsm7_ext : ℕ → ℕ
gsm7_ext i =
    if i == 0x0a
    then 0x000c
    else if i == 0x14
    then 0x005e
    else if i == 0x28
    then 0x007b
    else if i == 0x29
    then 0x007d
    else if i == 0x2f
    then 0x005c
    else if i == 0x3c
    then 0x005b
    else if i == 0x3d
    then 0x007e
    else if i == 0x3e
    then 0x005d
    else if i == 0x40
    then 0x007c
    else if i == 0x65
    then 0x20ac
    else 0

-- The first loop of `sms_gsm7_from_ucs` at index `i`, with `left` rounds to go.
unfoldable pub find_default : ℕ → ℕ → ℕ → Option ℕ
find_default zero i cp = none
find_default (suc left) i cp =
    let rest = find_default left (i + 1) cp in
    if i == gsm7_esc then rest else if get_or gsm7_default i 0 == cp then some i else rest

-- The second loop.
unfoldable pub find_ext : ℕ → ℕ → ℕ → Option ℕ
find_ext zero i cp = none
find_ext (suc left) i cp =
    let rest = find_ext left (i + 1) cp in
    if not (gsm7_ext i == 0) && gsm7_ext i == cp then some (bit_or gsm7_ext_flag i) else rest

unfoldable pub or_else : Option ℕ → Option ℕ → Option ℕ
or_else (some s) rest = some s
or_else none rest = rest

unfoldable pub sms_gsm7_from_ucs : ℕ → Option ℕ
unfolding gsm7_default gsm7_ext find_default find_ext or_else
sms_gsm7_from_ucs cp = or_else (find_default 128 0 cp) (find_ext 128 0 cp)

unfoldable pub sms_gsm7_to_ucs : ℕ → Bool → ℕ
sms_gsm7_to_ucs septet ext =
    let septet = bit_and septet 0x7f in
    if ext
    then if gsm7_ext septet == 0 then 0xfffd else gsm7_ext septet
    else if septet == gsm7_esc
    then 0xfffd
    else get_or gsm7_default septet 0

-- The test `(s & GSM7_EXT_FLAG) == GSM7_EXT_FLAG` of the callers.
unfoldable pub is_ext : ℕ → Bool
is_ext s = bit_and s gsm7_ext_flag == gsm7_ext_flag
