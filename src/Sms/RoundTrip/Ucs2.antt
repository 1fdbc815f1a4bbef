-- ===== src/Sms/RoundTrip/Ucs2.antt =====
-- The user data of one segment in UCS2.
use openwrt_fm.Base.{
  ℕ, ◌+◌, ◌*◌, ◌/◌, ◌≤◌, ◌≡◌, refl, sym, ap, ◌∙◌, List, [], ◌∷◌, ◌++◌, arith, length, length-append,
  take, drop, Bytes, All, All-append,
}
use openwrt_fm.Sms.BitWriter.Bit.{bit_at}
use openwrt_fm.Sms.BitWriter.Laws.{bw_init-IsClean}
use openwrt_fm.Sms.BitWriter.{BitWriter, bw_init, bw_octets}
use openwrt_fm.Sms.Decode.Defs.{read_text}
use openwrt_fm.Sms.Decode.UserData.{ucs2_text}
use openwrt_fm.Sms.Encode.{bw_header, user_data}
use openwrt_fm.Sms.Hex.Laws.{IsByte}
use openwrt_fm.Sms.RoundTrip.Alphabet.{text_of_le}
use openwrt_fm.Sms.RoundTrip.Octets.{take-octets}
use openwrt_fm.Sms.RoundTrip.Units.{
  in_units, octets_of, bw_header-append, bw_units-Chars, ucs2_text-octets_of, in_units-length,
  octets_of-length, octets_of-IsByte, in_units-IsUnit,
}
use openwrt_fm.Sms.RoundTrip.UserData.{bw_header-Wrote, bw_init-room}
use openwrt_fm.Sms.Segments.{ucs2, SegPlan}
use openwrt_fm.Sms.Utf8.Step.{Chars, text_of, text_skip-Chars}

-- The octets that the writer has used are those written.
bw_header-octets :
    (bs : Bytes)
    → All IsByte bs
    → length bs ≤ 156
    → (bw_octets (bw_header bw_init bs) ≡ length bs)
      × (take (length bs) (bw_header bw_init bs).buf ≡ bs)
bw_header-octets bs h fits =
    let start = bw_init-room in
    let w = bw_header bw_init bs in
    let wrote = bw_header-Wrote bs bw_init bw_init-IsClean (omega (arith, start)) in
    let used : bw_octets w ≡ (w.bitpos + 7) / 8 = unfold bw_octets in refl in
    (
      omega (arith, used, wrote.advanced, start),
      take-octets w.buf bs wrote.clean.bytes h (omega (arith, wrote.same_room, start))
          (λ j lt. ap (bit_at w.buf) (omega (arith, start)) ∙ wrote.fresh j lt),
    )

-- The text of a segment, its characters beyond U+FFFF replaced.
pub record PackedUnits (cps : List ℕ) (udh : Bytes) (out : BitWriter × ℕ) : Type 0 where
  pub octets : bw_octets out.0 ≤ 140
  pub used : bw_octets out.0 ≡ length udh + 2 * length cps
  pub bytes : All IsByte (udh ++ octets_of (in_units cps))
  pub size : out.1 ≡ length udh + 2 * length cps
  pub content : take (bw_octets out.0) out.0.buf ≡ udh ++ octets_of (in_units cps)
  pub text :
      (stale : ℕ → ℕ)
      → read_text stale ucs2 (take (bw_octets out.0) out.0.buf) out.1 (length udh)
        ≡ (text_of (in_units cps), length cps)

drop-append : (xs ys : Bytes) → drop (length xs) (xs ++ ys) ≡ ys
drop-append [] ys = refl
drop-append (x ∷ xs) ys = drop-append xs ys

pub user_data-PackedUnits :
    {text : Bytes} {cps : List ℕ} (sg : SegPlan) (udh : Bytes)
    → Chars text cps
    → All IsByte udh
    → length (take sg.chars (drop sg.offset cps)) ≡ sg.chars
    → length udh + 2 * sg.chars ≤ 140
    → PackedUnits (take sg.chars (drop sg.offset cps)) udh (user_data ucs2 text sg udh)
unfolding user_data
user_data-PackedUnits {text} {cps} sg udh c octets whole fits =
    let cs = take sg.chars (drop sg.offset cps) in
    let here = text_skip-Chars sg.offset c in
    let us = in_units cs in
    let units = in_units-IsUnit sg.chars here in
    let written =
      bw_units-Chars sg.chars (bw_header bw_init udh) here
      ∙ sym (bw_header-append udh (octets_of us) bw_init) in
    let size : length (octets_of us) ≡ 2 * sg.chars =
      omega (arith, octets_of-length us, in_units-length cs, whole) in
    let both = length-append udh (octets_of us) in
    let (used, content) =
      bw_header-octets (udh ++ octets_of us)
        (All-append IsByte udh (octets_of us) octets (octets_of-IsByte us units))
        (omega (arith, both, size)) in
    rw written (record {
      octets = omega (arith, used, both, size);
      used = omega (arith, used, both, size, whole);
      bytes = All-append IsByte udh (octets_of us) octets (octets_of-IsByte us units);
      size = omega (arith, whole);
      content = rw used content;
      text = λ stale.
          unfold read_text in
          (ap (λ (ud : Bytes). ucs2_text (drop (length udh) ud) [] 0) (rw used content)
            ∙ ap (λ (ud : Bytes). ucs2_text ud [] 0) (drop-append udh (octets_of us))
            ∙ ucs2_text-octets_of us [] 0 units
                (omega (arith, text_of_le us, in_units-length cs, whole))
            ∙ ap (λ (n : ℕ). (text_of us, n)) (omega (arith, in_units-length cs)));
    })
