-- ===== src/Sms/RoundTrip/LongHeader.antt =====
-- fm160d/src/pdu.c: a segment with a 16-bit reference, whose header has seven octets.
use openwrt_fm.Base.{
  ℕ, ◌+◌, ◌*◌, ◌/◌, ◌≤◌, Bool, true, ◌≡◌, refl, ap, List, arith, ltb, length, Bytes,
}
use openwrt_fm.Base.Result.{err, e2big}
use openwrt_fm.Sms.BitWriter.Laws.{bw_septets-Wrote}
use openwrt_fm.Sms.BitWriter.{bw_octets, udh_septets, udh_fill_bits, ud_max}
use openwrt_fm.Sms.Encode.{header, bw_udh, user_data, encode_segment}
use openwrt_fm.Sms.RoundTrip.Alphabet.{septets_of, septets_of-length, text_septets-Chars}
use openwrt_fm.Sms.RoundTrip.Message.{piece}
use openwrt_fm.Sms.RoundTrip.UserData.{bw_udh-Aligned, fill_lt, fill-septets}
use openwrt_fm.Sms.Segments.Scan.{total}
use openwrt_fm.Sms.Segments.{gsm7, SegPlan}
use openwrt_fm.Sms.Utf8.Step.{Chars, text_skip-Chars}

long_header : (ref nseg j : ℕ) → (length (header ref true nseg j) ≡ 7) × (udh_septets 7 ≡ 8)
unfolding header udh_septets udh_fill_bits
long_header ref nseg j = (refl, refl)

-- The octets used by a segment in the GSM alphabet.
used_octets :
    {text : Bytes} {cps : List ℕ} (sg : SegPlan) (udh : Bytes)
    → Chars text cps
    → length udh ≤ 7
    → total gsm7 (piece cps sg) ≤ 160
    → bw_octets (user_data gsm7 text sg udh).0
      ≡ ((udh_septets (length udh) + total gsm7 (piece cps sg)) * 7 + 7) / 8
unfolding user_data bw_octets
used_octets {text} {cps} sg udh c short small =
    let here = text_skip-Chars sg.offset c in
    let whole = fill-septets (length udh) in
    let size = septets_of-length (piece cps sg) in
    let front = bw_udh-Aligned udh (omega arith) in
    let sent =
      bw_septets-Wrote (septets_of (piece cps sg)) (bw_udh udh) front.clean
        (omega (arith, front.position, front.room, whole, size, fill_lt (length udh))) in
    rw (text_septets-Chars sg.chars here) (omega (arith, sent.advanced, front.position, size))

-- A segment filled up to 153 septets is refused behind it, whatever the number and the text.
pub encode_segment-long_header :
    (digits : Bytes) (intl : Bool) {text : Bytes} {cps : List ℕ} (sg : SegPlan) (ref nseg j : ℕ)
    → Chars text cps
    → total gsm7 (piece cps sg) ≡ 153
    → encode_segment digits intl gsm7 (header ref true nseg j) text sg ≡ err e2big
unfolding encode_segment
encode_segment-long_header digits intl {text} {cps} sg ref nseg j c full =
    let (octets, septets) = long_header ref nseg j in
    let used =
      used_octets sg (header ref true nseg j) c (omega (arith, octets)) (omega (arith, full)) in
    let over : ltb ud_max (bw_octets (user_data gsm7 text sg (header ref true nseg j)).0) ≡ true =
      ground (arith, used, full, septets, ap udh_septets octets) in
    rw over refl
