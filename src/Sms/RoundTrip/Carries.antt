-- ===== src/Sms/RoundTrip/Carries.antt =====
-- What both alphabets promise of the user data of a segment.
use openwrt_fm.Base.{
  ℕ, zero, suc, ◌+◌, ◌-◌, ◌*◌, ◌/◌, ◌≤◌, true, ◌≡◌, refl, sym, ap, ◌∙◌, List, [], ◌∷◌, ◌++◌, arith,
  length, length-append, length-take_le, take, drop, Bytes, All, All-take,
}
use openwrt_fm.Base.Bits.{u8}
use openwrt_fm.Sms.BitWriter.{BitWriter, bw_octets, udh_septets, septets_to_octets}
use openwrt_fm.Sms.Decode.Defs.{read_text, ud_octets_of}
use openwrt_fm.Sms.Encode.{user_data}
use openwrt_fm.Sms.Hex.Laws.{IsByte}
use openwrt_fm.Sms.RoundTrip.Octets.{take-octets}
use openwrt_fm.Sms.RoundTrip.Tpdu.{take-all}
use openwrt_fm.Sms.RoundTrip.Ucs2.{user_data-PackedUnits}
use openwrt_fm.Sms.RoundTrip.Units.{in_units, octets_of, octets_of-length, in_units-length}
use openwrt_fm.Sms.RoundTrip.UserData.{user_data-Packed, fill-septets}
use openwrt_fm.Sms.Segments.Scan.{all_septets, total}
use openwrt_fm.Sms.Segments.{Encoding, gsm7, ucs2, SegPlan}
use openwrt_fm.Sms.Utf8.Step.{Chars, text_of}

abbrev pub ud_of : BitWriter → Bytes
ud_of w = take (bw_octets w) w.buf

pub record Carries (enc : Encoding) (udh text : Bytes) (count : ℕ) (out : BitWriter × ℕ)
    : Type 0 where
  pub fits : bw_octets out.0 ≤ 140
  pub udl : u8 out.1 ≡ out.1
  pub bytes : All IsByte (ud_of out.0)
  pub size : length (ud_of out.0) ≡ bw_octets out.0
  pub counted : ud_octets_of enc out.1 ≡ length (ud_of out.0)
  pub front : (rest : Bytes) × (ud_of out.0 ≡ udh ++ rest)
  pub text_back :
      (stale : ℕ → ℕ) → read_text stale enc (ud_of out.0) out.1 (length udh) ≡ (text, count)

take-split : (m n : ℕ) (xs : Bytes) → m ≤ n → take n xs ≡ take m xs ++ take (n - m) (drop m xs)
take-split zero n xs h = ap (λ k. take k xs) (omega arith)
take-split (suc m) zero xs h = absurd (omega arith)
take-split (suc m) (suc n) [] h = sym (take-all (suc n - suc m) [] (omega arith))
take-split (suc m) (suc n) (x ∷ xs) h =
    let less : suc n - suc m ≡ n - m = omega arith in
    rw less (ap (λ (ys : Bytes). x ∷ ys) (take-split m n xs (omega arith)))

module _ {text : Bytes} {cps : List ℕ} (sg : SegPlan) (udh : Bytes) (c : Chars text cps)
    (bs : All IsByte udh) where
  abbrev piece : List ℕ
  piece = take sg.chars (drop sg.offset cps)

  pub gsm7-Carries :
      all_septets piece ≡ true
      → udh_septets (length udh) + total gsm7 piece ≤ 160
      → Carries gsm7 udh (text_of piece) (length piece) (user_data gsm7 text sg udh)
  gsm7-Carries has room =
      let p = user_data-Packed sg udh c has room in
      let out = user_data gsm7 text sg udh in
      let used : bw_octets out.0 ≡ (out.0.bitpos + 7) / 8 = unfold bw_octets in refl in
      let whole = fill-septets (length udh) in
      let size = length-take_le (bw_octets out.0) out.0.buf (omega (arith, p.octets, p.room)) in
      let covered : length udh ≤ bw_octets out.0 = omega (arith, used, p.position, p.size, whole) in
      let head =
        take-octets out.0.buf udh p.bytes bs (omega (arith, p.room, p.octets, covered)) p.kept in
      let counts : septets_to_octets out.1 ≡ (out.1 * 7 + 7) / 8 =
        unfold septets_to_octets in refl in
      record {
        fits = p.octets;
        udl = omega (arith, p.size, room);
        bytes = All-take IsByte (bw_octets out.0) out.0.buf p.bytes;
        size = size;
        counted = omega (arith, counts, used, p.position, size);
        front = (
          take (bw_octets out.0 - length udh) (drop (length udh) out.0.buf),
          take-split (length udh) (bw_octets out.0) out.0.buf covered
              ∙ ap
                  (λ (ys : Bytes).
                    ys ++ take (bw_octets out.0 - length udh) (drop (length udh) out.0.buf))
                  head,
        );
        text_back = p.text;
      }

  pub ucs2-Carries :
      length piece ≡ sg.chars
      → length udh + 2 * sg.chars ≤ 140
      → Carries ucs2 udh (text_of (in_units piece)) (length piece) (user_data ucs2 text sg udh)
  ucs2-Carries whole room =
      let p = user_data-PackedUnits sg udh c bs whole room in
      let out = user_data ucs2 text sg udh in
      let content = p.content in
      let size : length (ud_of out.0) ≡ length udh + 2 * length piece =
        ap length content
        ∙ omega (
          arith,
          length-append udh (octets_of (in_units piece)),
          octets_of-length (in_units piece),
          in_units-length piece,
        ) in
      record {
        fits = p.octets;
        udl = omega (arith, p.size, whole);
        bytes = rw content p.bytes;
        size = omega (arith, size, p.used);
        counted = omega (arith, size, p.size);
        front = (octets_of (in_units piece), content);
        text_back = p.text;
      }
