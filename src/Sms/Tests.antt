-- ===== src/Sms/Tests.antt =====
-- fm160d/src/pdu.c: runs of the small routines, and their theorems at concrete inputs.
use openwrt_fm.Base.{
  length, ◌<◌, ℕ, ◌≤◌, true, false, ◌≡◌, ◌≢◌, refl, inl, List, [], ◌∷◌, ◌++◌, some, none, arith,
  Bytes, codes, All, replicate,
}
use openwrt_fm.Base.Result.{ok, err, einval}
use openwrt_fm.Sms.Bcd.{bcd_encode, scts_pair}
use openwrt_fm.Sms.Gsm7.{sms_gsm7_from_ucs, is_ext}
use openwrt_fm.Sms.Hex.{parse_hex, put_hex}
use openwrt_fm.Sms.Number.Laws.{judge, all_allowed, digits_of, leads_plus, sms_number_clean-judge}
use openwrt_fm.Sms.Number.{sms_number_clean}
use openwrt_fm.Sms.Segments.Estimate.{sms_pdu_plan-plan_segments}
use openwrt_fm.Sms.Segments.Scan.{scan_text-first_bad}
use openwrt_fm.Sms.Segments.Tiles.{Outcome, plan_segments-Outcome}
use openwrt_fm.Sms.Segments.{
  gsm7, encoding_of, scan_text, scan_loop, scan_char, cost, fill, plan_loop, per_segment, fits_one,
  plan_segments, sms_pdu_plan,
}
use openwrt_fm.Sms.Utf8.Laws.{IsScalar}
use openwrt_fm.Sms.Utf8.Step.{Chars, Chars-text_of, text_of}
use openwrt_fm.Sms.Utf8.Strict.{utf8_next_strict}
use openwrt_fm.Sms.Utf8.{
  char, malformed, lead, continuation, is_rejected, utf8_next, utf8_bytes, text_step,
}

-- The alphabet.
septets :
    (sms_gsm7_from_ucs 0x40 ≡ some 0)
    × (sms_gsm7_from_ucs 0x20ac ≡ some 0x1b65)
    × (sms_gsm7_from_ucs 0x4e2d ≡ none)
unfolding sms_gsm7_from_ucs
septets = (refl, refl, refl)

-- Hex.
abbrev three : Bytes
three = 0x00 ∷ 0xa5 ∷ 0xff ∷ []

hex_runs :
    (put_hex three ≡ codes "00A5FF")
    × (parse_hex (codes "\"00 a5,fF\"") 4 ≡ ok three)
    × (parse_hex (codes "00a") 4 ≡ err einval)
unfolding put_hex parse_hex
hex_runs = (refl, refl, refl)

-- Semi-octets.
bcd_runs :
    (bcd_encode (codes "12345") ≡ 0x21 ∷ 0x43 ∷ 0xf5 ∷ [])
    × (scts_pair 0x21 false ≡ ok (12, false))
    × (scts_pair 0x4a true ≡ ok (24, true))
unfolding bcd_encode scts_pair
bcd_runs = (refl, refl, refl)

-- Numbers.
number_runs : sms_number_clean (codes "(+49) 1-7") 25 ≡ ok (codes "4917", true)
unfolding sms_number_clean
number_runs = refl

sms_number_clean-judge_example :
    sms_number_clean (codes "+49 x") 25
    ≡ judge
        (all_allowed (codes "+49 x"))
        (digits_of (codes "+49 x"))
        25
        (leads_plus (codes "+49 x"))
sms_number_clean-judge_example = sms_number_clean-judge (codes "+49 x") 25

-- UTF-8.
utf8_runs :
    (utf8_next (0xe2 ∷ 0x82 ∷ 0xac ∷ 0x21 ∷ []) ≡ char 0x20ac (0x21 ∷ []))
    × (utf8_next (0xc0 ∷ 0x80 ∷ []) ≡ malformed)
    × (text_step (0xff ∷ 0x21 ∷ []) ≡ some (0xfffd, 0x21 ∷ []))
unfolding utf8_next lead continuation is_rejected text_step
utf8_runs = (refl, refl, refl)

utf8_next_strict_example :
    IsScalar 0x20ac × (0xe2 ∷ 0x82 ∷ 0xac ∷ 0x21 ∷ [] ≡ utf8_bytes 0x20ac ++ (0x21 ∷ []))
utf8_next_strict_example =
    utf8_next_strict (0xe2 ∷ 0x82 ∷ 0xac ∷ 0x21 ∷ []) 0x20ac (0x21 ∷ []) (omega arith) utf8_runs.0

abbrev greeting : List ℕ
greeting = 0x48 ∷ 0x20ac ∷ 0x5b ∷ []

greeting_valid : All (λ cp. IsScalar cp × (cp ≢ 0)) greeting
greeting_valid = (
  (inl (omega arith), omega arith),
  ((inl (omega arith), omega arith), ((inl (omega arith), omega arith), tt)),
)

bad_text : (scan_text (0xff ∷ 0x21 ∷ [])).gsm7_ok ≡ false
unfolding scan_text scan_loop scan_char text_step utf8_next lead sms_gsm7_from_ucs
bad_text = refl

scan_text-first_bad_example : (scan_text (0xff ∷ 0x21 ∷ [])).first_bad ≢ 0
scan_text-first_bad_example = scan_text-first_bad (0xff ∷ 0x21 ∷ []) (omega arith) bad_text

greeting-Chars : Chars (text_of greeting) greeting
greeting-Chars = Chars-text_of greeting greeting_valid

plan_segments-Outcome_example :
    (fits_one gsm7 5 3 ≡ true
      → plan_segments (text_of greeting) gsm7 5 3 4 ≡ ok (record { offset = 0; chars = 3 } ∷ []))
    × (fits_one gsm7 5 3 ≡ false
        → Outcome 4 gsm7
            (per_segment gsm7)
            0
            greeting
            (plan_segments (text_of greeting) gsm7 5 3 4))
plan_segments-Outcome_example =
    plan_segments-Outcome (text_of greeting) greeting gsm7 5 3 4 greeting-Chars

greeting_plan :
    plan_segments
      (text_of greeting)
      (encoding_of (scan_text (text_of greeting)))
      (scan_text (text_of greeting)).septets
      (scan_text (text_of greeting)).chars
      4
    ≡ ok (record { offset = 0; chars = 3 } ∷ [])
unfolding plan_segments scan_text scan_loop scan_char text_step utf8_next utf8_bytes lead
    continuation is_rejected sms_gsm7_from_ucs is_ext
greeting_plan = refl

greeting_nonempty : 0 < length (text_of greeting)
unfolding utf8_bytes lead continuation
greeting_nonempty = omega arith

sms_pdu_plan-plan_segments_example :
    let sc = scan_text (text_of greeting) in
    let enc = encoding_of sc in
    (n : ℕ) × ((sms_pdu_plan (text_of greeting) 6 ≡ ok (n, enc, sc.chars))
      × ((n ≤ 1) × (All (λ cp. cost enc cp ≡ 1) greeting → n ≡ 1)))
sms_pdu_plan-plan_segments_example =
    sms_pdu_plan-plan_segments (text_of greeting) greeting 4 6
      (record { offset = 0; chars = 3 } ∷ []) greeting-Chars greeting_nonempty greeting_plan

-- Two letters short of two segments, and a bracket that no segment takes: the estimate is 2.
abbrev awkward : Bytes
awkward = replicate 152 0x61 ++ (0x7b ∷ replicate 152 0x61)

awkward_estimate : sms_pdu_plan awkward 4 ≡ ok (2, gsm7, 305)
unfolding sms_pdu_plan scan_text scan_loop scan_char text_step utf8_next sms_gsm7_from_ucs is_ext
awkward_estimate = refl

awkward_plan :
    plan_segments awkward gsm7 306 305 4
    ≡ ok (
        record { offset = 0; chars = 152 }
        ∷ record { offset = 152; chars = 152 }
        ∷ record { offset = 304; chars = 1 }
        ∷ [])
unfolding plan_segments plan_loop fill cost text_step utf8_next sms_gsm7_from_ucs is_ext
awkward_plan = refl
