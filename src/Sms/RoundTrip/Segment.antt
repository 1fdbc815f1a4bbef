-- ===== src/Sms/RoundTrip/Segment.antt =====
-- One segment: the PDU that `sms_pdu_encode` prints, under `sms_pdu_decode`.
use mathlib.Core.List.{append_assoc}
use openwrt_fm.Base.{
  ℕ, ◌+◌, ◌*◌, ◌/◌, ◌%◌, ◌≤◌, ◌<◌, Bool, true, false, not, ◌≡◌, refl, ap, ap₂, ◌∙◌, ◌⊎◌, [], ◌∷◌,
  ◌++◌, arith, bit_and, bit_or, ◌==◌, ltb, leb, if◌then◌else◌, length, length-append, Bytes, All,
  All-append,
}
use openwrt_fm.Base.Bits.{u8, and-mask}
use openwrt_fm.Base.Result.{ok}
use openwrt_fm.Sms.Bcd.Laws.{IsDigit, bcd_encode-IsByte, length-bcd_encode}
use openwrt_fm.Sms.Bcd.{bcd_encode}
use openwrt_fm.Sms.BitWriter.{BitWriter, bw_octets, ud_max}
use openwrt_fm.Sms.Decode.Defs.{PduIn, more, blank, read_udh, sms_pdu_decode}
use openwrt_fm.Sms.Decode.UserData.{Concat, no_concat, parse_udh, parse_udh_loop, read_element}
use openwrt_fm.Sms.Encode.{Segment, header, ref_used, tpdu_head, user_data, encode_segment, hex_max}
use openwrt_fm.Sms.Hex.Laws.{IsByte, parse_hex-put_hex}
use openwrt_fm.Sms.Hex.{put_hex}
use openwrt_fm.Sms.RoundTrip.Carries.{Carries, ud_of}
use openwrt_fm.Sms.RoundTrip.Tpdu.{submit_octets, sized, decode_octets-front}
use openwrt_fm.Sms.Segments.{Encoding, gsm7, ucs2, bit8, SegPlan, dcs_encode_for, dcs_encoding}

-- The header that goes with a segment, and what the decoder is to make of it.
pub data Udh : Bytes → Bool → Concat → Type 0 where
  unsplit : Udh [] false no_concat
  split :
      (ref nseg j : ℕ)
      → nseg < 256
      → j < nseg
      → Udh
          (header ref false nseg j)
          true
          (record { concat = true; ref = ref_used ref % 256; parts = nseg; part = j + 1 })

-- The decoder finds the header at the front of the user data.
read_udh-Udh :
    {udh : Bytes} {udhi : Bool} {c : Concat} (p : ℕ) (rest : Bytes) (out : PduIn)
    → Udh udh udhi c
    → out.udh ≡ no_concat
    → out.udh_octets ≡ 0
    → read_udh udhi p (udh ++ rest) out
      ≡ more (length udh, record out { udh_octets = length udh; udh = c })
unfolding read_udh parse_udh parse_udh_loop read_element header
read_udh-Udh p rest out unsplit e z =
    ap₂ (λ (c : Concat) (n : ℕ). more (0, record out { udh = c; udh_octets = n })) e z
read_udh-Udh p rest out (split ref nseg j hn hj) e z =
    let enough : ltb (length (header ref false nseg j ++ rest)) 6 ≡ false = ground arith in
    let some_octets : ltb (length (header ref false nseg j ++ rest)) 1 ≡ false = ground arith in
    let low : u8 (bit_and (ref_used ref) 255) ≡ ref_used ref % 256 =
      omega (arith, and-mask 8 (ref_used ref)) in
    let parts : u8 nseg ≡ nseg = omega arith in
    let part : u8 (j + 1) ≡ j + 1 = omega arith in
    rw (enough, some_octets, low) (rw (parts, part) refl)

-- What a receiver is to find in a segment.
abbrev pub received : Bytes → Bool → Encoding → Bytes → Concat → Bytes → ℕ → ℕ → ℕ → PduIn
received digits intl enc udh c text count udl ud_octets = record blank {
  valid = true;
  mti = 1;
  number = digits;
  number_international = intl;
  dcs = dcs_encode_for enc;
  encoding = enc;
  text = text;
  text_len = count;
  udh = c;
  udh_octets = length udh;
  udl = udl;
  ud_octets = ud_octets;
}

-- The PDU of a segment, and what the decoder reads from it whatever its array of septets held.
pub record Sent (digits : Bytes) (intl : Bool) (enc : Encoding) (udh : Bytes) (c : Concat)
    (text : Bytes) (count : ℕ) (sg : Segment) : Type 0 where
  pub octets_in : sg.ud_octets ≤ 140
  pub tpdu_octets : sg.tpdu_len ≡ 7 + (length digits + 1) / 2 + sg.ud_octets
  pub printed : length sg.hex ≡ 2 * (1 + sg.tpdu_len)
  pub decoded :
      (stale : ℕ → ℕ)
      → sms_pdu_decode stale sg.hex
        ≡ more (received digits intl enc udh c text count sg.udl sg.ud_octets)

-- The first octet: SMS-SUBMIT without a validity period, and the header flag.
abbrev first_octet : Bool → ℕ
first_octet concat = bit_or 0x01 (if concat then 0x40 else 0x00)

record FirstOctet (concat : Bool) : Type 0 where
  submit : bit_and (first_octet concat) 0x03 ≡ 1
  no_vp : bit_and (first_octet concat / 8) 3 ≡ 0
  flag : not (bit_and (first_octet concat) 0x40 == 0) ≡ concat
  small : first_octet concat < 256

FirstOctet-laws : (concat : Bool) → FirstOctet concat
FirstOctet-laws true = record { submit = refl; no_vp = refl; flag = refl; small = omega arith }
FirstOctet-laws false = record { submit = refl; no_vp = refl; flag = refl; small = omega arith }

abbrev toa_of : Bool → ℕ
toa_of intl = if intl then 0x91 else 0x81

toa_laws : (intl : Bool) → (bit_and (toa_of intl) 0x70 == 0x10) ≡ intl
toa_laws true = refl
toa_laws false = refl

-- The alphabets that the encoder uses.
abbrev pub IsSent : Encoding → Type 0
IsSent enc = (enc ≡ gsm7) ⊎ (enc ≡ ucs2)

dcs_back :
    (enc : Encoding)
    → (dcs_encoding (dcs_encode_for enc) ≡ enc) × (u8 (dcs_encode_for enc) ≡ dcs_encode_for enc)
unfolding dcs_encoding dcs_encode_for
dcs_back gsm7 = (refl, refl)
dcs_back ucs2 = (refl, refl)
dcs_back bit8 = (refl, refl)

tpdu_octets_lem :
    (digits : Bytes) (intl : Bool) (enc : Encoding) (concat : Bool) (udl : ℕ) (ud : Bytes)
    → length digits ≤ 20
    → 0x00 ∷ (tpdu_head digits intl enc concat ++ (udl ∷ ud))
      ≡ submit_octets (first_octet concat) (toa_of intl) (dcs_encode_for enc) udl digits ud
unfolding tpdu_head
tpdu_octets_lem digits intl enc concat udl ud fits =
    let (_, dcs_small) = dcs_back enc in
    let count : u8 (length digits) ≡ length digits = omega arith in
    rw (count, dcs_small)
      (ap (λ (t : Bytes). 0x00 ∷ first_octet concat ∷ 0x00 ∷ length digits ∷ toa_of intl ∷ t)
        (append_assoc (bcd_encode digits) (0x00 ∷ dcs_encode_for enc ∷ []) (udl ∷ ud)))

put_hex-length : (bytes : Bytes) → length (put_hex bytes) ≡ 2 * length bytes
unfolding put_hex
put_hex-length [] = refl
put_hex-length (b ∷ bytes) = omega (arith, put_hex-length bytes)

submit_octets-length :
    (o toa dcs udl : ℕ) (digits ud : Bytes)
    → length (submit_octets o toa dcs udl digits ud) ≡ 8 + (length digits + 1) / 2 + length ud
submit_octets-length o toa dcs udl digits ud =
    omega (arith, length-append (bcd_encode digits) (0 ∷ dcs ∷ udl ∷ ud), length-bcd_encode digits)

submit_octets-IsByte :
    (concat intl : Bool) (enc : Encoding) (udl : ℕ) (digits ud : Bytes)
    → length digits ≤ 20
    → udl < 256
    → All IsByte ud
    → All IsByte
        (submit_octets (first_octet concat) (toa_of intl) (dcs_encode_for enc) udl digits ud)
submit_octets-IsByte concat intl enc udl digits ud fits small bytes =
    let o = FirstOctet-laws concat in
    let (_, dcs_small) = dcs_back enc in
    let toa_small : toa_of intl < 256 = ground arith in
    (
      omega arith,
      (
        o.small,
        (
          omega arith,
          (
            omega arith,
            (
              toa_small,
              All-append IsByte (bcd_encode digits) _ (bcd_encode-IsByte digits)
                  (omega arith, (omega (arith, dcs_small), (small, bytes))),
            ),
          ),
        ),
      ),
    )

Udh-flag : {udh : Bytes} {udhi : Bool} {c : Concat} → Udh udh udhi c → not (length udh == 0) ≡ udhi
unfolding header
Udh-flag unsplit = refl
Udh-flag (split ref nseg j hn hj) = refl

-- The octets of a segment's PDU.
abbrev pdu : Bytes → Bool → Encoding → Bool → BitWriter × ℕ → Bytes
pdu digits intl enc udhi out =
    submit_octets (first_octet udhi) (toa_of intl) (dcs_encode_for enc) out.1 digits (ud_of out.0)

module _ {digits : Bytes} {intl : Bool} {enc : Encoding} {udh : Bytes} {udhi : Bool} {c : Concat}
    {body : Bytes} {count : ℕ} (ds : All IsDigit digits) (some_digit : 0 < length digits)
    (fits : length digits ≤ 20) (h : Udh udh udhi c) where
  -- What the decoder makes of the octets.
  decode-submit :
      (out : BitWriter × ℕ) (stale : ℕ → ℕ)
      → Carries enc udh body count out
      → sms_pdu_decode stale (put_hex (pdu digits intl enc udhi out))
        ≡ more (received digits intl enc udh c body count out.1 (bw_octets out.0))
  unfolding sms_pdu_decode
  decode-submit out stale carries =
      let o = FirstOctet-laws udhi in
      let bytes =
        submit_octets-IsByte udhi intl enc out.1 digits (ud_of out.0) fits
          (omega (arith, carries.udl)) carries.bytes in
      let size =
        submit_octets-length (first_octet udhi) (toa_of intl) (dcs_encode_for enc) out.1 digits
          (ud_of out.0) in
      let parsed =
        parse_hex-put_hex (pdu digits intl enc udhi out) (ud_max + 48) bytes
          (omega (arith, size, carries.size, carries.fits)) in
      let known =
        sized (first_octet udhi) (toa_of intl) (dcs_encode_for enc) out.1 digits (ud_of out.0) ds
          some_digit fits enc in
      let read =
        decode_octets-front (first_octet udhi) (toa_of intl) (dcs_encode_for enc) out.1 digits
          (ud_of out.0) ds some_digit fits stale enc udhi (length udh)
          (record known { udh_octets = length udh; udh = c }) body count o.submit o.no_vp o.flag
          (dcs_back enc).0 carries.counted
          (λ p.
            ap (λ (ud : Bytes). read_udh udhi p ud known) carries.front.1
            ∙ read_udh-Udh p carries.front.0 known h refl refl)
          (carries.text_back stale) in
      rw (parsed, sms_pdu_decode) (rw (toa_laws intl, carries.size) at read)

  -- A segment whose user data carries its piece of the text is encoded, and decoded again.
  pub encode_segment-Sent :
      (text : Bytes) (sg : SegPlan)
      → Carries enc udh body count (user_data enc text sg udh)
      → (seg : Segment) × (encode_segment digits intl enc udh text sg ≡ ok seg)
        × Sent digits intl enc udh c body count seg
  unfolding encode_segment
  encode_segment-Sent text sg carries =
      let out = user_data enc text sg udh in
      let layout = tpdu_octets_lem digits intl enc udhi out.1 (ud_of out.0) fits in
      let size =
        submit_octets-length (first_octet udhi) (toa_of intl) (dcs_encode_for enc) out.1 digits
          (ud_of out.0) in
      let tpdu = tpdu_head digits intl enc udhi ++ (out.1 ∷ ud_of out.0) in
      let tpdu_size : length tpdu ≡ 7 + (length digits + 1) / 2 + bw_octets out.0 =
        omega (arith, ap length layout, size, carries.size) in
      let t1 : ltb ud_max (bw_octets out.0) ≡ false = ground (arith, carries.fits) in
      let t2 : leb (hex_max / 2) (1 + length tpdu) ≡ false =
        ground (arith, carries.fits, tpdu_size) in
      (
        record {
          hex = put_hex (0x00 ∷ tpdu);
          tpdu_len = length tpdu;
          udl = out.1;
          ud_octets = bw_octets out.0;
        },
        rw (Udh-flag h, carries.udl) (rw (t1, t2) refl),
        record {
          octets_in = carries.fits;
          tpdu_octets = tpdu_size;
          printed = omega (arith, put_hex-length (0x00 ∷ tpdu));
          decoded = λ stale. rw layout (decode-submit out stale carries);
        },
      )
