-- ===== src/Sms/RoundTrip/Whole.antt =====
-- `sms_pdu_encode` on a number and a text, with the 8-bit reference that the caller asks for.
use openwrt_fm.Base.{
  ℕ, ◌≤◌, ◌<◌, Bool, true, false, not, ◌&&◌, ◌≡◌, refl, ◌⊎◌, inl, inr, List, [], ◌∷◌, arith, ltb,
  ◌==◌, if◌then◌else◌, length, Bytes, Bool-cases, All,
}
use openwrt_fm.Base.Result.{ok, err, e2big, einval}
use openwrt_fm.Sms.Bcd.Laws.{IsDigit}
use openwrt_fm.Sms.Encode.{PduOut, encode_text, sms_pdu_encode, clamp, ref_used}
use openwrt_fm.Sms.Number.Laws.{sms_number_plausible_iff}
use openwrt_fm.Sms.Number.{sms_number_clean, sms_number_plausible}
use openwrt_fm.Sms.RoundTrip.Delivery.{Delivery, TooLong, Ends, many-Ends, one-Ends}
use openwrt_fm.Sms.RoundTrip.Plan.{Suits, septets, units, total_units}
use openwrt_fm.Sms.Segments.Scan.{all_septets, total, scan_text-Scanned}
use openwrt_fm.Sms.Segments.Tiles.{plan_segments-Outcome}
use openwrt_fm.Sms.Segments.{
  Encoding, gsm7, ucs2, SegPlan, fits_one, plan_segments, scan_text, encoding_of,
}
use openwrt_fm.Sms.Utf8.Step.{Chars}

-- The alphabet that a text is sent in.
abbrev pub alphabet_of : List ℕ → Encoding
alphabet_of cps = if all_septets cps then gsm7 else ucs2

clamp-bounds : (n : ℕ) → (1 ≤ clamp n) × (clamp n ≤ 4)
clamp-bounds n = ground arith

module _ {digits : Bytes} {intl : Bool} {text : Bytes} {cps : List ℕ} (ds : All IsDigit digits)
    (some_digit : 0 < length digits) (fits : length digits ≤ 20) (c : Chars text cps) where
  plan_segments-Ends :
      {enc : Encoding} (chars sept limit ref : ℕ)
      → Suits cps enc
      → 1 ≤ limit
      → limit ≤ 4
      → chars ≡ length cps
      → (enc ≡ gsm7 → sept ≡ total gsm7 cps)
      → Ends digits intl enc cps limit ref text (plan_segments text enc sept chars limit)
  plan_segments-Ends chars sept limit ref (septets has) some_room small n count =
      let (one, many) = plan_segments-Outcome text cps gsm7 sept chars limit c in
      elim (Bool-cases (fits_one gsm7 sept chars)) [
        | inl in_one ↦
            rw (one in_one, n)
              (one-Ends ds some_digit fits c limit ref (septets has) some_room
                (λ e. ground (arith, count refl)) (λ e. absurd (cc)))
        | inr in_many ↦
            many-Ends ds some_digit fits c limit ref _ (septets has) small
              (ground (arith, count refl)) (many in_many)
      ]
  plan_segments-Ends chars sept limit ref units some_room small n count =
      let (one, many) = plan_segments-Outcome text cps ucs2 sept chars limit c in
      elim (Bool-cases (fits_one ucs2 sept chars)) [
        | inl in_one ↦
            rw (one in_one, n)
              (one-Ends ds some_digit fits c limit ref units some_room (λ e. absurd (cc))
                (λ e. ground arith))
        | inr in_many ↦
            many-Ends ds some_digit fits c limit ref _ units small (ground (arith, total_units cps))
              (many in_many)
      ]

-- What the caller gets back.
pub record Sending (digits : Bytes) (intl : Bool) (cps : List ℕ) (limit ref : ℕ) (out : PduOut)
    : Type 0 where
  pub plan : List SegPlan
  pub delivery : Delivery digits intl (alphabet_of cps) cps limit ref plan out.seg
  pub alphabet : out.encoding ≡ alphabet_of cps
  pub chars : out.chars ≡ length cps

-- The alphabet chosen suits the characters, and the scan's counts are theirs.
record Chosen (text : Bytes) (cps : List ℕ) : Type 0 where
  test : (not (scan_text text).gsm7_ok && (scan_text text).first_bad == 0) ≡ false
  enc : encoding_of (scan_text text) ≡ alphabet_of cps
  suits : Suits cps (alphabet_of cps)
  chars : (scan_text text).chars ≡ length cps
  septets : alphabet_of cps ≡ gsm7 → (scan_text text).septets ≡ total gsm7 cps

scan-Chosen : (text : Bytes) (cps : List ℕ) → Chars text cps → Chosen text cps
scan-Chosen text cps c =
    let s = scan_text-Scanned c in
    elim (Bool-cases (all_septets cps)) [
      | inl has ↦ record {
        test = rw (s.flag, has) refl;
        enc = rw (s.flag, has) refl;
        suits = rw has (septets has);
        chars = s.chars;
        septets = λ e. s.count has;
      }
      | inr lacks ↦ record {
        test = rw (s.flag, lacks) (ground (arith, s.bad lacks));
        enc = rw (s.flag, lacks) refl;
        suits = rw lacks units;
        chars = s.chars;
        septets = λ e. absurd (cc (rw lacks at e));
      }
    ]

module _ {digits : Bytes} {intl : Bool} {text : Bytes} {cps : List ℕ} (ds : All IsDigit digits)
    (some_digit : 0 < length digits) (fits : length digits ≤ 20) (c : Chars text cps) where
  -- Behind the checks on the number, encoding a text either sends all of it or is E2BIG, and E2BIG
  -- only where the segments allowed do not hold the text.
  pub encode_text-Sending :
      (max_segments ref : ℕ)
      → ((encode_text digits intl text max_segments ref false ≡ err e2big)
          × TooLong (alphabet_of cps) cps (clamp max_segments))
        ⊎ ((out : PduOut) × (encode_text digits intl text max_segments ref false ≡ ok out)
            × Sending digits intl cps (clamp max_segments) ref out)
  unfolding encode_text
  encode_text-Sending max_segments ref =
      let ch = scan-Chosen text cps c in
      let (low, high) = clamp-bounds max_segments in
      let ends =
        plan_segments-Ends {intl = intl} ds some_digit fits c (scan_text text).chars
          (scan_text text).septets (clamp max_segments) ref ch.suits low high ch.chars ch.septets in
      elim ends [
        | inl (e, long) ↦ inl (rw (ch.test, ch.enc) (rw e refl), long)
        | inr (plan, segs, e, coded, d) ↦
            let sc = scan_text text in
            let out : PduOut = record {
              seg = segs;
              encoding = alphabet_of cps;
              ref = if ltb 1 (length plan) then ref_used ref else 0;
              ref16 = if ltb 1 (length plan) then false else false;
              chars = sc.chars;
              septets = if sc.gsm7_ok then sc.septets else 0;
            } in
            inr (
              out,
              rw (ch.test, ch.enc) (rw e (rw coded refl)),
              record { plan = plan; delivery = d; alphabet = refl; chars = ch.chars },
            )
      ]

-- A message to a number that passes the checks is sent whole, in a PDU or several that the decoder
-- reads back field by field, or is E2BIG because the segments allowed do not hold it. In UCS2 the text
-- that is read back has U+FFFD in place of each character beyond U+FFFF.
pub sms_pdu_encode-Sending :
    (number text : Bytes) (cps : List ℕ) (max_segments ref : ℕ) (digits : Bytes) (intl : Bool)
    → Chars text cps
    → 0 < length text
    → sms_number_clean number 25 ≡ ok (digits, intl)
    → sms_number_plausible digits ≡ true
    → ((sms_pdu_encode number text max_segments ref false ≡ err e2big)
        × TooLong (alphabet_of cps) cps (clamp max_segments))
      ⊎ ((out : PduOut) × (sms_pdu_encode number text max_segments ref false ≡ ok out)
          × Sending digits intl cps (clamp max_segments) ref out)
unfolding sms_pdu_encode
sms_pdu_encode-Sending number [] cps max_segments ref digits intl c some_text clean plausible =
    absurd (omega arith)
sms_pdu_encode-Sending number (b ∷ text) cps max_segments ref digits intl c some_text clean
      plausible =
    let (long, short, ds) = (sms_number_plausible_iff digits).0 plausible in
    rw (clean, plausible) (encode_text-Sending ds (omega arith) short c max_segments ref)

-- What is refused before any segment is cut: an empty text and a number that is no number.
pub sms_pdu_encode-einval :
    (number text : Bytes) (max_segments ref : ℕ) (ref16 : Bool)
    → (length text ≡ 0)
      ⊎ ((sms_number_clean number 25 ≡ err einval)
          ⊎ ((digits : Bytes) × (intl : Bool) × (sms_number_clean number 25 ≡ ok (digits, intl))
              × (sms_number_plausible digits ≡ false)))
    → sms_pdu_encode number text max_segments ref ref16 ≡ err einval
unfolding sms_pdu_encode
sms_pdu_encode-einval number [] max_segments ref ref16 h = refl
sms_pdu_encode-einval number (b ∷ text) max_segments ref ref16 (inl none_left) =
    absurd (omega arith)
sms_pdu_encode-einval number (b ∷ text) max_segments ref ref16 (inr (inl bad)) = rw bad refl
sms_pdu_encode-einval number (b ∷ text) max_segments ref ref16
      (inr (inr (digits, intl, clean, odd))) =
    rw (clean, odd) refl
