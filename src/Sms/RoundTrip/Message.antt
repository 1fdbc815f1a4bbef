-- ===== src/Sms/RoundTrip/Message.antt =====
-- All segments of a message.
use openwrt_fm.Base.{
  ℕ, ◌+◌, ◌%◌, ◌≤◌, ◌<◌, Bool, true, false, ◌≡◌, refl, inl, inr, List, [], ◌∷◌, arith, ltb,
  if◌then◌else◌, length, take, drop, Bytes, Bool-cases, All,
}
use openwrt_fm.Base.Result.{ok}
use openwrt_fm.Sms.Bcd.Laws.{IsDigit}
use openwrt_fm.Sms.Decode.UserData.{Concat, no_concat}
use openwrt_fm.Sms.Encode.{Segment, header, ref_used, user_data, encode_segments}
use openwrt_fm.Sms.RoundTrip.Carries.{Carries}
use openwrt_fm.Sms.RoundTrip.Segment.{Udh, unsplit, split, Sent, encode_segment-Sent}
use openwrt_fm.Sms.RoundTrip.Units.{in_units}
use openwrt_fm.Sms.Segments.{Encoding, gsm7, ucs2, bit8, SegPlan}
use openwrt_fm.Sms.Utf8.Step.{text_of}

abbrev pub piece : List ℕ → SegPlan → List ℕ
piece cps sg = take sg.chars (drop sg.offset cps)

-- The text that arrives for the characters of a segment.
abbrev pub body_of : Encoding → List ℕ → Bytes
body_of gsm7 cs = text_of cs
body_of ucs2 cs = text_of (in_units cs)
body_of bit8 cs = []

abbrev pub udh_for : ℕ → ℕ → ℕ → Bytes
udh_for ref nseg j = if ltb 1 nseg then header ref false nseg j else []

abbrev pub concat_for : ℕ → ℕ → ℕ → Concat
concat_for ref nseg j =
    if ltb 1 nseg
    then record { concat = true; ref = ref_used ref % 256; parts = nseg; part = j + 1 }
    else no_concat

udh_for-Udh :
    (ref nseg j : ℕ)
    → nseg < 256
    → j < nseg
    → Udh (udh_for ref nseg j) (ltb 1 nseg) (concat_for ref nseg j)
udh_for-Udh ref nseg j hn hj = elim (Bool-cases (ltb 1 nseg)) [
  | inl several ↦ rw several (split ref nseg j hn hj)
  | inr one ↦ rw one unsplit
]

-- Each segment of the plan, from number `j` on, is delivered with its piece of the characters.
pub data Delivered (digits : Bytes) (intl : Bool) (enc : Encoding) (ref nseg : ℕ) (cps : List ℕ)
    : ℕ → List SegPlan → List Segment → Type 0 where
  done : {j : ℕ} → Delivered digits intl enc ref nseg cps j [] []
  next :
      {j : ℕ} {plan : List SegPlan} {segs : List Segment} (sg : SegPlan) (seg : Segment)
      → Sent digits intl enc
          (udh_for ref nseg j)
          (concat_for ref nseg j)
          (body_of enc (piece cps sg))
          (length (piece cps sg))
          seg
      → Delivered digits intl enc ref nseg cps (j + 1) plan segs
      → Delivered digits intl enc ref nseg cps j (sg ∷ plan) (seg ∷ segs)

-- The user data of a planned segment carries its piece, whatever its number.
abbrev pub Ready : Encoding → ℕ → ℕ → Bytes → List ℕ → SegPlan → Type 0
Ready enc ref nseg text cps sg =
    (j : ℕ)
    → Carries enc (udh_for ref nseg j) (body_of enc (piece cps sg)) (length (piece cps sg))
        (user_data enc text sg (udh_for ref nseg j))

module _ {digits : Bytes} {intl : Bool} {enc : Encoding} (ref nseg : ℕ) (text : Bytes)
    (cps : List ℕ) (ds : All IsDigit digits) (some_digit : 0 < length digits)
    (fits : length digits ≤ 20) (few : nseg < 256) where
  pub encode_segments-Delivered :
      (plan : List SegPlan) (j : ℕ)
      → All (Ready enc ref nseg text cps) plan
      → j + length plan ≡ nseg
      → (segs : List Segment) × (encode_segments digits intl enc ref false nseg text j plan
          ≡ ok segs)
        × Delivered digits intl enc ref nseg cps j plan segs
  unfolding encode_segments
  encode_segments-Delivered [] j ready count = ([], refl, done)
  encode_segments-Delivered (sg ∷ plan) j ready count =
      let below : j < nseg = omega arith in
      let left : j + 1 + length plan ≡ nseg = omega arith in
      let (seg, first, sent) =
        encode_segment-Sent ds some_digit fits (udh_for-Udh ref nseg j few below) text sg
          (ready.0 j) in
      let (segs, others, later) = encode_segments-Delivered plan (j + 1) ready.1 left in
      (seg ∷ segs, rw (first, others) refl, next sg seg sent later)
