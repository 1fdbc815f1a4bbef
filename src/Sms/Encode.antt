-- ===== src/Sms/Encode.antt =====
-- fm160d/src/pdu.c, `sms_pdu_encode`; fm160d/src/pdu.h, `struct sms_pdu_out`. The reference is not
-- negative. What `out` holds after an error is left out, and so are the NULL arguments.
use openwrt_fm.Base.{
  ℕ, zero, suc, ◌+◌, ◌*◌, ◌/◌, Bool, true, false, not, ◌&&◌, List, [], ◌∷◌, ◌++◌, Option, none,
  some, bit_and, bit_or, ◌==◌, ltb, leb, if◌then◌else◌, length, take, Bytes,
}
use openwrt_fm.Base.Bits.{u8, ◌>>>◌}
use openwrt_fm.Base.Result.{einval, e2big, Result, ok, err, ◌>>=◌}
use openwrt_fm.Sms.Bcd.{bcd_encode}
use openwrt_fm.Sms.BitWriter.{
  BitWriter, ud_max, bw_init, bw_bits, bw_septets, bw_octets, udh_fill_bits, udh_septets,
}
use openwrt_fm.Sms.Gsm7.{gsm7_esc, sms_gsm7_from_ucs, is_ext}
use openwrt_fm.Sms.Hex.{put_hex}
use openwrt_fm.Sms.Number.{sms_number_clean, sms_number_plausible}
use openwrt_fm.Sms.Segments.{
  Encoding, gsm7, SegPlan, encoding_of, scan_text, dcs_encode_for, plan_segments,
}
use openwrt_fm.Sms.Utf8.{text_step, text_skip}

-- `SMS_PDU_SEG_MAX` and `SMS_PDU_HEX_MAX`.
abbrev pub seg_max : ℕ
seg_max = 4

abbrev pub hex_max : ℕ
hex_max = 512

pub record Segment : Type 0 where
  pub hex : Bytes
  pub tpdu_len : ℕ
  pub udl : ℕ
  pub ud_octets : ℕ

pub record PduOut : Type 0 where
  pub seg : List Segment
  pub encoding : Encoding
  pub ref : ℕ
  pub ref16 : Bool
  pub chars : ℕ
  pub septets : ℕ

abbrev pub ref_used : ℕ → ℕ
ref_used ref = if ref == 0 then 1 else ref

-- The header of segment `j` of `nseg`, its own length octet included.
unfoldable pub header : ℕ → Bool → ℕ → ℕ → Bytes
header ref true nseg j =
    6
    ∷ 0x08
    ∷ 0x04
    ∷ u8 (ref_used ref >>> 8)
    ∷ u8 (bit_and (ref_used ref) 0xff)
    ∷ u8 nseg
    ∷ u8 (j + 1)
    ∷ []
header ref false nseg j =
    5 ∷ 0x00 ∷ 0x03 ∷ u8 (bit_and (ref_used ref) 0xff) ∷ u8 nseg ∷ u8 (j + 1) ∷ []

-- `for (i = 0; i <= hl; i++) bw_bits(&w, hdr[i], 8)`.
unfoldable pub bw_header : BitWriter → Bytes → BitWriter
bw_header w [] = w
bw_header w (h ∷ hdr) = bw_header (bw_bits w h 8) hdr

-- A character with no septet is sent as a question mark.
unfoldable pub or_question : Option ℕ → ℕ
or_question (some s) = s
or_question none = elim (sms_gsm7_from_ucs 0x3f) [ some q ↦ q | none ↦ 0 ]

-- The septets of one character.
unfoldable pub char_septets : ℕ → Bytes
unfolding or_question
char_septets cp =
    let s = or_question (sms_gsm7_from_ucs cp) in
    if is_ext s then gsm7_esc ∷ u8 (bit_and s 0x7f) ∷ [] else u8 s ∷ []

-- The septets of `left` characters from the cursor on.
unfoldable pub text_septets : ℕ → Bytes → Bytes
text_septets zero s = []
text_septets (suc left) s = elim (text_step s) [
  | none ↦ []
  | some (cp, rest) ↦ char_septets cp ++ text_septets left rest
]

-- The UCS2 units of `left` characters from the cursor on.
unfoldable pub bw_units : ℕ → Bytes → BitWriter → BitWriter
bw_units zero s w = w
bw_units (suc left) s w = elim (text_step s) [
  | none ↦ w
  | some (cp, rest) ↦
      let unit = if ltb 0xffff cp then 0xfffd else cp in
      bw_units left rest (bw_bits (bw_bits w (bit_and (unit >>> 8) 0xff) 8) (bit_and unit 0xff) 8)
]

-- The header and the fill bits in front of the septets.
unfoldable pub bw_udh : Bytes → BitWriter
bw_udh udh =
    let w = bw_header bw_init udh in
    if length udh == 0 then w else bw_bits w 0 (udh_fill_bits (length udh))

-- TP-UD and TP-UDL of one segment; `udh` is empty in an unsplit message.
unfoldable pub user_data : Encoding → Bytes → SegPlan → Bytes → BitWriter × ℕ
user_data gsm7 text sg udh =
    let sept = text_septets sg.chars (text_skip sg.offset text) in
    (bw_septets (bw_udh udh) sept, udh_septets (length udh) + length sept)
user_data _ text sg udh = (
  bw_units sg.chars (text_skip sg.offset text) (bw_header bw_init udh),
  length udh + sg.chars * 2,
)

-- TP-DA up to TP-DCS.
unfoldable pub tpdu_head : Bytes → Bool → Encoding → Bool → Bytes
tpdu_head digits intl enc concat =
    bit_or 0x01 (if concat then 0x40 else 0x00)
    ∷ 0x00
    ∷ u8 (length digits)
    ∷ (if intl then 0x91 else 0x81)
    ∷ (bcd_encode digits ++ (0x00 ∷ u8 (dcs_encode_for enc) ∷ []))

unfoldable pub encode_segment : Bytes → Bool → Encoding → Bytes → Bytes → SegPlan → Result Segment
encode_segment digits intl enc udh text sg =
    let (w, udl) = user_data enc text sg udh in
    let ud_oct = bw_octets w in
    let tpdu = tpdu_head digits intl enc (not (length udh == 0)) ++ (u8 udl ∷ take ud_oct w.buf) in
    if ltb ud_max ud_oct
    then err e2big
    else if leb (hex_max / 2) (1 + length tpdu)
    then err e2big
    else ok (record {
      hex = put_hex (0x00 ∷ tpdu);
      tpdu_len = length tpdu;
      udl = udl;
      ud_octets = ud_oct;
    })

-- The loop over the segments from number `j` on.
unfoldable pub encode_segments :
    Bytes → Bool → Encoding → ℕ → Bool → ℕ → Bytes → ℕ → List SegPlan → Result (List Segment)
encode_segments digits intl enc ref ref16 nseg text j [] = ok []
encode_segments digits intl enc ref ref16 nseg text j (sg ∷ plan) =
    let udh = if ltb 1 nseg then header ref ref16 nseg j else [] in
    let rest = encode_segments digits intl enc ref ref16 nseg text (j + 1) plan in
    do first ← encode_segment digits intl enc udh text sg; others ← rest; ok (first ∷ others)

abbrev pub clamp : ℕ → ℕ
clamp max_segments =
    if ltb max_segments 1 then 1 else if ltb seg_max max_segments then seg_max else max_segments

-- Behind the checks on the number.
unfoldable pub encode_text : Bytes → Bool → Bytes → ℕ → ℕ → Bool → Result PduOut
encode_text digits intl text max_segments ref ref16 =
    let sc = scan_text text in
    let enc = encoding_of sc in
    if not sc.gsm7_ok && sc.first_bad == 0 then err einval else do
      plan ← plan_segments text enc sc.septets sc.chars (clamp max_segments)
      seg ← encode_segments digits intl enc ref ref16 (length plan) text 0 plan
      ok (record {
        seg = seg;
        encoding = enc;
        ref = if ltb 1 (length plan) then ref_used ref else 0;
        ref16 = if ltb 1 (length plan) then ref16 else false;
        chars = sc.chars;
        septets = if sc.gsm7_ok then sc.septets else 0;
      })

unfoldable pub sms_pdu_encode : Bytes → Bytes → ℕ → ℕ → Bool → Result PduOut
sms_pdu_encode number [] max_segments ref ref16 = err einval
sms_pdu_encode number (c ∷ text) max_segments ref ref16 = do
  (digits, intl) ← sms_number_clean number 25
  (if not (sms_number_plausible digits)
      then err einval
      else encode_text digits intl (c ∷ text) max_segments ref ref16)
