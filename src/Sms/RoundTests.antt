-- ===== src/Sms/RoundTests.antt =====
-- fm160d/src/pdu.c: the theorems about packing and whole messages at concrete inputs.
use openwrt_fm.Base.{
  ℕ, zero, suc, ◌+◌, ◌*◌, ◌/◌, ◌≤◌, ◌<◌, true, false, ◌≡◌, ◌≢◌, refl, inl, inr, ◌⊎◌, List, [], ◌∷◌,
  arith, length, codes, All, replicate,
}
use openwrt_fm.Base.Result.{ok, err, e2big, einval}
use openwrt_fm.Sms.BitWriter.{udh_septets, udh_fill_bits}
use openwrt_fm.Sms.Decode.Stale.{held, unpack-stale}
use openwrt_fm.Sms.Decode.UserData.{unpack}
use openwrt_fm.Sms.Encode.{PduOut, clamp, encode_segment, header, sms_pdu_encode, user_data}
use openwrt_fm.Sms.Gsm7.{sms_gsm7_from_ucs, is_ext}
use openwrt_fm.Sms.Number.{sms_number_clean, sms_number_plausible}
use openwrt_fm.Sms.RoundTrip.Carries.{Carries, gsm7-Carries}
use openwrt_fm.Sms.RoundTrip.Delivery.{TooLong}
use openwrt_fm.Sms.RoundTrip.LongHeader.{encode_segment-long_header}
use openwrt_fm.Sms.RoundTrip.Ucs2.{PackedUnits, user_data-PackedUnits}
use openwrt_fm.Sms.RoundTrip.UserData.{Packed, user_data-Packed}
use openwrt_fm.Sms.RoundTrip.Whole.{Sending, alphabet_of, sms_pdu_encode-Sending}
use openwrt_fm.Sms.Segments.Scan.{all_septets, total}
use openwrt_fm.Sms.Segments.{gsm7, ucs2, SegPlan, cost}
use openwrt_fm.Sms.Utf8.Laws.{IsScalar}
use openwrt_fm.Sms.Utf8.Step.{Chars, Chars-text_of, text_of}
use openwrt_fm.Sms.Utf8.{utf8_bytes}

-- The text "h{", and a text for UCS2.
abbrev brace : List ℕ
brace = 0x68 ∷ 0x7b ∷ []

brace-Chars : Chars (text_of brace) brace
brace-Chars =
    Chars-text_of brace ((inl (omega arith), omega arith), ((inl (omega arith), omega arith), tt))

abbrev wide : List ℕ
wide = 0x4e2d ∷ 0x1f600 ∷ []

wide-Chars : Chars (text_of wide) wide
wide-Chars =
    Chars-text_of wide ((inl (omega arith), omega arith), ((inr (omega arith), omega arith), tt))

brace_septets : (all_septets brace ≡ true) × (total gsm7 brace ≡ 3)
unfolding sms_gsm7_from_ucs cost is_ext
brace_septets = (refl, refl)

abbrev whole_brace : SegPlan
whole_brace = record { offset = 0; chars = 2 }

no_header : udh_septets 0 ≡ 0
unfolding udh_septets udh_fill_bits
no_header = refl

unpack-stale_example :
    (1 ≤ (1 * 7 + 0) / 8 → unpack 2 1 (0x41 ∷ []) 0 (λ k. k) false ≡ held (λ k. k) 2 1)
    × (1 * 7 + 2 * 7 + 0 ≤ 8 * 1
        → unpack 2 1 (0x41 ∷ []) 0 (λ k. k) false ≡ unpack 2 1 (0x41 ∷ []) 0 (λ k. 0) false)
unpack-stale_example = unpack-stale 2 1 (0x41 ∷ []) 0 (λ k. k) (λ k. 0)

user_data-Packed_example : Packed brace [] (user_data gsm7 (text_of brace) whole_brace [])
user_data-Packed_example =
    user_data-Packed whole_brace [] brace-Chars brace_septets.0
      (omega (arith, no_header, brace_septets.1))

user_data-PackedUnits_example : PackedUnits wide [] (user_data ucs2 (text_of wide) whole_brace [])
user_data-PackedUnits_example =
    user_data-PackedUnits whole_brace [] wide-Chars tt refl (omega arith)

brace-Carries : Carries gsm7 [] (text_of brace) 2 (user_data gsm7 (text_of brace) whole_brace [])
brace-Carries =
    gsm7-Carries whole_brace [] brace-Chars tt brace_septets.0
      (omega (arith, no_header, brace_septets.1))

-- 153 times the letter a.
abbrev full_text : List ℕ
full_text = replicate 153 0x61

abbrev IsText : ℕ → Type 0
IsText cp = IsScalar cp × (cp ≢ 0)

letter_a : IsText 0x61
letter_a = (inl (omega arith), omega arith)

All-a : (n : ℕ) → All IsText (replicate n 0x61)
All-a zero = tt
All-a (suc n) = (letter_a, All-a n)

full_Chars : Chars (text_of full_text) full_text
full_Chars = Chars-text_of full_text (All-a 153)

full_septets : total gsm7 full_text ≡ 153
unfolding cost sms_gsm7_from_ucs is_ext
full_septets = refl

abbrev full_segment : SegPlan
full_segment = record { offset = 0; chars = 153 }

encode_segment-long_header_example :
    encode_segment (codes "112") false gsm7 (header 7 true 2 0) (text_of full_text) full_segment
    ≡ err e2big
encode_segment-long_header_example =
    encode_segment-long_header (codes "112") false full_segment 7 2 0 full_Chars full_septets

clean_112 :
    (sms_number_clean (codes "+11-2") 25 ≡ ok (codes "112", true))
    × (sms_number_plausible (codes "112") ≡ true)
unfolding sms_number_clean sms_number_plausible
clean_112 = (refl, refl)

clean_bad : sms_number_clean (codes "1a2") 25 ≡ err einval
unfolding sms_number_clean
clean_bad = refl

length-brace : 0 < length (text_of brace)
unfolding utf8_bytes
length-brace = omega arith

sms_pdu_encode-Sending_example :
    ((sms_pdu_encode (codes "+11-2") (text_of brace) 4 0 false ≡ err e2big)
      × TooLong (alphabet_of brace) brace (clamp 4))
    ⊎ ((out : PduOut) × (sms_pdu_encode (codes "+11-2") (text_of brace) 4 0 false ≡ ok out)
        × Sending (codes "112") true brace (clamp 4) 0 out)
sms_pdu_encode-Sending_example =
    sms_pdu_encode-Sending (codes "+11-2") (text_of brace) brace 4 0 (codes "112") true brace-Chars
      length-brace clean_112.0 clean_112.1
