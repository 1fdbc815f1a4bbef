-- ===== src/Sms/Decode/UserData.antt =====
-- fm160d/src/pdu.c, the user data of `sms_pdu_decode`: the header, the septets and the UCS2 units.
use openwrt_fm.Base.{
  ℕ, zero, suc, ◌+◌, ◌-◌, ◌*◌, Bool, true, false, ◌&&◌, List, [], ◌∷◌, none, some, bit_and, bit_or,
  ◌==◌, ltb, leb, if◌then◌else◌, get_or, length, Bytes,
}
use openwrt_fm.Base.Bits.{u8, ◌<<<◌, ◌>>>◌}
use openwrt_fm.Sms.Gsm7.{gsm7_esc, sms_gsm7_to_ucs}
use openwrt_fm.Sms.Utf8.{utf8_put}

-- `SMS_PDU_TEXT_MAX`.
abbrev pub text_max : ℕ
text_max = 1024

-- What `parse_udh` stores.
pub record Concat : Type 0 where
  pub concat : Bool
  pub ref : ℕ
  pub parts : ℕ
  pub part : ℕ

abbrev pub no_concat : Concat
no_concat = record { concat = false; ref = 0; parts = 0; part = 0 }

-- One information element: its type, its length and where it stands.
unfoldable pub read_element : Bytes → ℕ → ℕ → ℕ → Concat → Concat
read_element udh i iei iel c =
    if iei == 0x00 && iel == 3
    then record {
      concat = true;
      ref = get_or udh (i + 2) 0;
      parts = get_or udh (i + 3) 0;
      part = get_or udh (i + 4) 0;
    }
    else if iei == 0x08 && iel == 4
    then record {
      concat = true;
      ref = bit_or (get_or udh (i + 2) 0 <<< 8) (get_or udh (i + 3) 0);
      parts = get_or udh (i + 4) 0;
      part = get_or udh (i + 5) 0;
    }
    else c

-- The loop at index `i`; the header's length is fuel enough, as each round passes over two octets.
unfoldable pub parse_udh_loop : ℕ → Bytes → ℕ → ℕ → Concat → Concat
parse_udh_loop zero udh len i c = c
parse_udh_loop (suc fuel) udh len i c =
    let iei = get_or udh i 0 in
    let iel = get_or udh (i + 1) 0 in
    let rest = parse_udh_loop fuel udh len (i + 2 + iel) (read_element udh i iei iel c) in
    if ltb len (i + 2) then c else if ltb len (i + 2 + iel) then c else rest

unfoldable pub parse_udh : Bytes → ℕ → Concat
parse_udh udh len = parse_udh_loop len udh len 1 no_concat

-- `sept[k]` for the rounds from `k` on. `stale` is what the array holds before: once the octets run
-- out the loop stops, and the slots behind it are read as they are.
unfoldable pub unpack : ℕ → ℕ → Bytes → ℕ → (ℕ → ℕ) → Bool → List ℕ
unpack zero k ud start stale stopped = []
unpack (suc left) k ud start stale stopped =
    let bit = k * 7 + start in
    let byte = bit >>> 3 in
    let off = bit_and bit 7 in
    let b0 = get_or ud byte 0 in
    let v = if ltb (byte + 1) (length ud) then bit_or b0 (get_or ud (byte + 1) 0 <<< 8) else b0 in
    let over = if stopped then true else leb (length ud) byte in
    (if over then stale k else u8 (bit_and (v >>> off) 0x7f))
    ∷ unpack left (k + 1) ud start stale over

-- The text so far and its characters; `esc` is the pending escape.
unfoldable pub septets_text : List ℕ → Bool → Bytes → ℕ → Bytes × ℕ
septets_text [] esc text text_len = (text, text_len)
septets_text (s ∷ sept) esc text text_len =
    let cp = sms_gsm7_to_ucs s esc in
    let escaped = septets_text sept true text text_len in
    let skipped = septets_text sept false text text_len in
    let stored = λ (t : Bytes). septets_text sept false t (text_len + 1) in
    if s == gsm7_esc
    then escaped
    else if cp == 0
    then skipped
    else elim (utf8_put text text_max cp) [ none ↦ (text, text_len) | some t ↦ stored t ]

-- A lone surrogate becomes U+FFFD.
abbrev pub no_surrogate : ℕ → ℕ
no_surrogate cp = if leb 0xd800 cp && leb cp 0xdfff then 0xfffd else cp

abbrev pub unit : ℕ → ℕ → ℕ
unit hi lo = bit_or (hi <<< 8) lo

-- `cp` and `lo` are the two halves of one character.
abbrev pub is_pair : ℕ → ℕ → Bool
is_pair cp lo = leb 0xd800 cp && leb cp 0xdbff && leb 0xdc00 lo && leb lo 0xdfff

unfoldable pub ucs2_text : Bytes → Bytes → ℕ → Bytes × ℕ
ucs2_text (h ∷ l ∷ h' ∷ l' ∷ ud) text text_len =
    let cp = unit h l in
    let lo = unit h' l' in
    let joined = 0x10000 + ((cp - 0xd800) <<< 10) + (lo - 0xdc00) in
    let after_pair = λ (t : Bytes). ucs2_text ud t (text_len + 1) in
    let after_one = λ (t : Bytes). ucs2_text (h' ∷ l' ∷ ud) t (text_len + 1) in
    if is_pair cp lo
    then elim (utf8_put text text_max (no_surrogate joined)) [
      | none ↦ (text, text_len)
      | some t ↦ after_pair t
    ]
    else elim (utf8_put text text_max (no_surrogate cp)) [
      | none ↦ (text, text_len)
      | some t ↦ after_one t
    ]
ucs2_text (h ∷ l ∷ []) text text_len = elim (utf8_put text text_max (no_surrogate (unit h l))) [
  | none ↦ (text, text_len)
  | some t ↦ (t, text_len + 1)
]
ucs2_text (h ∷ l ∷ x ∷ []) text text_len = elim (utf8_put text text_max (no_surrogate (unit h l))) [
  | none ↦ (text, text_len)
  | some t ↦ (t, text_len + 1)
]
ucs2_text (x ∷ []) text text_len = (text, text_len)
ucs2_text [] text text_len = (text, text_len)
