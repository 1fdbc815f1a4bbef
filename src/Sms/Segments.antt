-- ===== src/Sms/Segments.antt =====
-- fm160d/src/pdu.c, alphabet selection and segmentation: `scan_text`, `dcs_encoding`,
-- `dcs_encode_for`, `plan_segments` and `sms_pdu_plan`. A `while` loop over the bytes of a text takes
-- fuel, the length of the text: every round reads at least one byte.
pub mod Scan
pub mod Tiles
pub mod Estimate
use openwrt_fm.Base.{
  ℕ, zero, suc, ◌+◌, ◌/◌, Bool, true, false, [], ◌∷◌, List, Option, none, some, bit_and, ◌==◌, ltb,
  leb, if◌then◌else◌, length, Bytes,
}
use openwrt_fm.Base.Bits.{◌>>>◌}
use openwrt_fm.Base.Result.{Errno, einval, e2big, Result, ok, err, ◌>>=◌}
use openwrt_fm.Sms.Gsm7.{sms_gsm7_from_ucs, is_ext}
use openwrt_fm.Sms.Utf8.{text_step}

pub data Encoding : Type 0 where
  gsm7 ucs2 bit8 : Encoding

pub record TextScan : Type 0 where
  pub chars : ℕ
  pub septets : ℕ
  pub gsm7_ok : Bool
  pub first_bad : ℕ

-- The body of the loop of `scan_text`, on one character.
unfoldable pub scan_char : TextScan → ℕ → TextScan
scan_char sc cp =
    let sc' = record sc { chars = sc.chars + 1 } in
    if sc.gsm7_ok
    then elim (sms_gsm7_from_ucs cp) [
      | none ↦ record sc' {
        gsm7_ok = false;
        first_bad = if sc.first_bad == 0 then cp else sc.first_bad;
      }
      | some s ↦ record sc' { septets = sc.septets + (if is_ext s then 2 else 1) }
    ]
    else sc'

unfoldable pub scan_loop : ℕ → Bytes → TextScan → TextScan
scan_loop zero s sc = sc
scan_loop (suc fuel) s sc = elim (text_step s) [
  | none ↦ sc
  | some (cp, rest) ↦ scan_loop fuel rest (scan_char sc cp)
]

abbrev pub scan_start : TextScan
scan_start = record { chars = 0; septets = 0; gsm7_ok = true; first_bad = 0 }

unfoldable pub scan_text : Bytes → TextScan
scan_text text = scan_loop (length text) text scan_start

abbrev pub encoding_of : TextScan → Encoding
encoding_of sc = if sc.gsm7_ok then gsm7 else ucs2

unfoldable pub dcs_encoding : ℕ → Encoding
dcs_encoding dcs =
    let bits = bit_and (dcs >>> 2) 3 in
    if bits == 0 then gsm7 else if bits == 1 then bit8 else if bits == 2 then ucs2 else gsm7

unfoldable pub dcs_encode_for : Encoding → ℕ
dcs_encode_for ucs2 = 0x08
dcs_encode_for bit8 = 0x04
dcs_encode_for gsm7 = 0x00

pub record SegPlan : Type 0 where
  pub offset : ℕ
  pub chars : ℕ

-- What a character costs in a segment.
unfoldable pub cost : Encoding → ℕ → ℕ
cost gsm7 cp = elim (sms_gsm7_from_ucs cp) [ none ↦ 1 | some s ↦ if is_ext s then 2 else 1 ]
cost _ cp = 1

-- The inner loop: the characters that go into this segment, counted from `used_chars`, and the
-- cursor after them. A character that does not fit is put back.
unfoldable pub fill : ℕ → Encoding → ℕ → Bytes → ℕ → ℕ → ℕ × Bytes
fill zero enc per s used used_chars = (used_chars, s)
fill (suc fuel) enc per s used used_chars = elim (text_step s) [
  | none ↦ (used_chars, s)
  | some (cp, rest) ↦
      if ltb per (used + cost enc cp)
      then (used_chars, s)
      else fill fuel enc per rest (used + cost enc cp) (used_chars + 1)
]

-- The outer loop at character `i`, with `left` segments still allowed.
unfoldable pub plan_loop : ℕ → Encoding → ℕ → ℕ → Bytes → Result (List SegPlan)
plan_loop left enc per i [] = ok []
plan_loop zero enc per i (c ∷ s) = err e2big
plan_loop (suc left) enc per i (c ∷ s) =
    let (used_chars, rest) = fill (length (c ∷ s)) enc per (c ∷ s) 0 0 in
    let later = plan_loop left enc per (i + used_chars) rest in
    if used_chars == 0
    then err e2big
    else do plan ← later; ok ((record { offset = i; chars = used_chars }) ∷ plan)

abbrev pub per_segment : Encoding → ℕ
per_segment gsm7 = 153
per_segment _ = 67

abbrev pub fits_one : Encoding → ℕ → ℕ → Bool
fits_one gsm7 septets chars = leb septets 160
fits_one _ septets chars = leb chars 70

unfoldable pub plan_segments : Bytes → Encoding → ℕ → ℕ → ℕ → Result (List SegPlan)
plan_segments text enc septets chars max_segments =
    if fits_one enc septets chars
    then ok ((record { offset = 0; chars = chars }) ∷ [])
    else plan_loop max_segments enc (per_segment enc) 0 text

-- The number of segments, the encoding and the characters. `max_segments` is not read.
unfoldable pub sms_pdu_plan : Bytes → ℕ → Result (ℕ × Encoding × ℕ)
sms_pdu_plan [] max_segments = err einval
sms_pdu_plan (c ∷ text) max_segments =
    let sc = scan_text (c ∷ text) in
    let n =
      if sc.gsm7_ok
      then (if leb sc.septets 160 then 1 else (sc.septets + 152) / 153)
      else if leb sc.chars 70
      then 1
      else (sc.chars + 66) / 67 in
    ok (n, encoding_of sc, sc.chars)
