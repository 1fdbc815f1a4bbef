-- ===== src/Sms/PduTests.antt =====
-- fm160d/src/pdu.c: whole messages, encoded and decoded.
use openwrt_fm.Base.{ℕ, Bool, true, false, ◌≡◌, refl, [], ◌∷◌, Bytes, codes, replicate, length}
use openwrt_fm.Base.Result.{Result, ok, err, e2big}
use openwrt_fm.Sms.Bcd.{bcd_encode, bcd_decode, bcd_written, scts_pair}
use openwrt_fm.Sms.BitWriter.{
  bw_init, bw_bit, bw_bits_loop, bw_bits, bw_septets, bw_octets, udh_fill_bits, udh_septets,
  septets_to_octets,
}
use openwrt_fm.Sms.Decode.Defs.{
  PduIn, Stage, more, failed, sms_pdu_decode, decode_octets, read_header, read_body, read_submit,
  read_deliver, read_scts, decode_addr, partial, read_text, read_udh,
}
use openwrt_fm.Sms.Decode.UserData.{
  unpack, septets_text, ucs2_text, parse_udh, parse_udh_loop, read_element,
}
use openwrt_fm.Sms.Encode.{
  PduOut, sms_pdu_encode, encode_text, encode_segments, encode_segment, tpdu_head, user_data,
  bw_units, text_septets, char_septets, bw_header, bw_udh, header,
}
use openwrt_fm.Sms.Gsm7.{sms_gsm7_from_ucs, sms_gsm7_to_ucs, is_ext, gsm7_default, gsm7_ext}
use openwrt_fm.Sms.Hex.{parse_hex, put_hex}
use openwrt_fm.Sms.Number.{sms_number_clean, sms_number_plausible}
use openwrt_fm.Sms.Segments.{
  scan_text, scan_loop, scan_char, dcs_encoding, dcs_encode_for, plan_segments, plan_loop, fill,
  cost,
}
use openwrt_fm.Sms.Utf8.{
  lead, continuation, is_rejected, utf8_next, utf8_bytes, utf8_put, text_step, text_skip,
}

abbrev first_hex : Result PduOut → Bytes
first_hex (ok out) = elim out.seg [ [] ↦ [] | sg ∷ _ ↦ sg.hex ]
first_hex (err e) = []

encoder : Bytes → Bytes → Bool → Result PduOut
unfolding sms_pdu_encode encode_text encode_segments encode_segment tpdu_head user_data bw_units
    text_septets char_septets bw_header bw_udh header scan_text scan_loop scan_char dcs_encode_for
    plan_segments plan_loop fill cost bw_init bw_bit bw_bits_loop bw_bits bw_septets bw_octets
    udh_fill_bits udh_septets bcd_encode put_hex sms_number_clean sms_number_plausible text_step
    text_skip utf8_next lead continuation is_rejected sms_gsm7_from_ucs is_ext
encoder number text ref16 = sms_pdu_encode number text 4 0 ref16

decoder : Bytes → Stage PduIn
unfolding sms_pdu_decode decode_octets read_header read_body read_submit read_deliver read_scts
    decode_addr read_text read_udh unpack septets_text ucs2_text parse_udh parse_udh_loop
    read_element parse_hex bcd_decode scts_pair dcs_encoding udh_septets septets_to_octets
    sms_gsm7_to_ucs gsm7_default gsm7_ext utf8_put utf8_bytes
decoder hex = sms_pdu_decode (λ _. 0) hex

abbrev text_in : Stage PduIn → Bytes
text_in (more out) = out.text
text_in (failed out) = out.text

hello_hex :
    first_hex (encoder (codes "+49 171") (codes "hello [x]") false)
    ≡ codes "00010005919471F100000BE8329BFD066D78F88D0F"
unfolding encoder
hello_hex = refl

hello_back :
    text_in (decoder (codes "00010005919471F100000BE8329BFD066D78F88D0F")) ≡ codes "hello [x]"
unfolding decoder
hello_back = refl

euro_back :
    text_in (decoder (first_hex (encoder (codes "112") (0xe4 ∷ 0xb8 ∷ 0xad ∷ 0x21 ∷ []) false)))
    ≡ 0xe4 ∷ 0xb8 ∷ 0xad ∷ 0x21 ∷ []
unfolding decoder encoder
euro_back = refl

abbrev long_text : Bytes
long_text = replicate 161 0x61

abbrev segments_of : Result PduOut → ℕ
segments_of (ok out) = length out.seg
segments_of (err e) = 0

-- With an 8-bit reference a long text takes two segments; with a 16-bit one it is refused.
long_runs :
    (segments_of (encoder (codes "112") long_text false) ≡ 2)
    × (encoder (codes "112") long_text true ≡ err e2big)
unfolding encoder
long_runs = (refl, refl)

-- An address of four digits with a bad one in the second octet: -EINVAL, with two digits written.
half_address : decode_addr (4 ∷ 0x91 ∷ 0x21 ∷ 0xa3 ∷ []) 4 0 25 ≡ partial (codes "12") true
unfolding decode_addr bcd_decode bcd_written
half_address = refl
