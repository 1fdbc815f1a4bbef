-- ===== src/Sms/RoundTrip/Plan.antt =====
-- fm160d/src/pdu.c: the budgets of `plan_segments` and the room that the encoder needs.
use mathlib.Core.Path.{subst}
use openwrt_fm.Base.{
  ℕ, zero, suc, ◌+◌, ◌≤◌, ◌<◌, true, false, ◌≡◌, refl, sym, ap, ◌∙◌, List, [], ◌∷◌, arith, ltb,
  length, length-take_le, take, drop, Bytes, All,
}
use openwrt_fm.Sms.BitWriter.{udh_septets, udh_fill_bits}
use openwrt_fm.Sms.Encode.{header}
use openwrt_fm.Sms.Hex.Laws.{IsByte}
use openwrt_fm.Sms.RoundTrip.Carries.{gsm7-Carries, ucs2-Carries}
use openwrt_fm.Sms.RoundTrip.Message.{piece, udh_for, Ready}
use openwrt_fm.Sms.RoundTrip.Tpdu.{take-all}
use openwrt_fm.Sms.Segments.Scan.{all_septets, total}
use openwrt_fm.Sms.Segments.Tiles.{IsSegment, Tiles}
use openwrt_fm.Sms.Segments.{Encoding, gsm7, ucs2, SegPlan, per_segment, cost}
use openwrt_fm.Sms.Utf8.Step.{Chars}

all_septets-drop : (n : ℕ) (cps : List ℕ) → all_septets cps ≡ true → all_septets (drop n cps) ≡ true
all_septets-drop zero cps h = h
all_septets-drop (suc n) [] h = refl
all_septets-drop (suc n) (cp ∷ cps) h = all_septets-drop n cps (ground arith)

all_septets-take : (n : ℕ) (cps : List ℕ) → all_septets cps ≡ true → all_septets (take n cps) ≡ true
all_septets-take zero cps h = refl
all_septets-take (suc n) [] h = refl
all_septets-take (suc n) (cp ∷ cps) h = ground (arith, all_septets-take n cps)

drop-nil : (n : ℕ) → drop {A = ℕ} n [] ≡ []
drop-nil zero = refl
drop-nil (suc n) = refl

pub drop-drop : (m n : ℕ) (cps : List ℕ) → drop n (drop m cps) ≡ drop (m + n) cps
drop-drop zero n cps = ap (λ k. drop k cps) (omega arith)
drop-drop (suc m) n [] = drop-nil n ∙ sym (drop-nil (suc m + n))
drop-drop (suc m) n (cp ∷ cps) =
    let next : suc m + n ≡ suc (m + n) = omega arith in rw next (drop-drop m n cps)

-- A header of six octets, or none: seven septets, or none.
record Front (udh : Bytes) (septets octets : ℕ) : Type 0 where
  bytes : All IsByte udh
  in_septets : udh_septets (length udh) ≡ septets
  in_octets : length udh ≡ octets

split-Front : (ref nseg j : ℕ) → Front (header ref false nseg j) 7 6
unfolding header udh_septets udh_fill_bits
split-Front ref nseg j = record {
  bytes =
      (omega arith, (omega arith, (omega arith, (omega arith, (omega arith, (omega arith, tt))))));
  in_septets = refl;
  in_octets = refl;
}

udh_for-Front : (ref nseg j : ℕ) → 1 < nseg → Front (udh_for ref nseg j) 7 6
udh_for-Front ref nseg j several =
    let test : ltb 1 nseg ≡ true = ground arith in rw test (split-Front ref nseg j)

unsplit-Front : Front [] 0 0
unfolding udh_septets udh_fill_bits
unsplit-Front = record { bytes = tt; in_septets = refl; in_octets = refl }

-- The alphabet suits the characters.
pub data Suits (cps : List ℕ) : Encoding → Type 0 where
  septets : all_septets cps ≡ true → Suits cps gsm7
  units : Suits cps ucs2

pub total_units : (cps : List ℕ) → total ucs2 cps ≡ length cps
unfolding cost
total_units [] = refl
total_units (cp ∷ cps) = omega (arith, total_units cps)

module _ {text : Bytes} {cps : List ℕ} (c : Chars text cps) where
  -- A message in one segment, without a header.
  pub one-Ready :
      {enc : Encoding} (ref : ℕ)
      → Suits cps enc
      → (enc ≡ gsm7 → total gsm7 cps ≤ 160)
      → (enc ≡ ucs2 → length cps ≤ 70)
      → Ready enc ref 1 text cps (record { offset = 0; chars = length cps })
  one-Ready ref (septets has) few _ j =
      let whole = take-all (length cps) cps (omega arith) in
      let f = unsplit-Front in
      gsm7-Carries (record { offset = 0; chars = length cps }) [] c tt (rw whole has)
        (omega (arith, f.in_septets, ap (total gsm7) whole, few refl))
  one-Ready ref units _ few j =
      let whole = take-all (length cps) cps (omega arith) in
      ucs2-Carries (record { offset = 0; chars = length cps }) [] c tt (ap length whole)
        (omega (arith, few refl))

  -- A segment of a longer message, behind a header.
  pub segment-Ready :
      {enc : Encoding} (ref nseg : ℕ) (sg : SegPlan)
      → Suits cps enc
      → 1 < nseg
      → IsSegment enc (per_segment enc) sg.chars (drop sg.offset cps)
      → Ready enc ref nseg text cps sg
  segment-Ready ref nseg sg (septets has) several s j =
      let f = udh_for-Front ref nseg j several in
      gsm7-Carries sg (udh_for ref nseg j) c f.bytes
        (all_septets-take sg.chars _ (all_septets-drop sg.offset cps has))
        (omega (arith, f.in_septets, s.within))
  segment-Ready ref nseg sg units several s j =
      let f = udh_for-Front ref nseg j several in
      let size = length-take_le sg.chars (drop sg.offset cps) s.inside in
      ucs2-Carries sg (udh_for ref nseg j) c f.bytes size
        (omega (arith, f.in_octets, s.within, total_units (piece cps sg), size))

  pub Tiles-Ready :
      {enc : Encoding} (ref nseg : ℕ) (plan : List SegPlan) (i : ℕ) (rest : List ℕ)
      → Suits cps enc
      → 1 < nseg
      → Tiles enc (per_segment enc) i (drop i cps) plan rest
      → All (Ready enc ref nseg text cps) plan
  Tiles-Ready ref nseg [] i rest suits several t = tt
  Tiles-Ready {enc} ref nseg (sg ∷ plan) i rest suits several (at, s, later) =
      let here : drop i cps ≡ drop sg.offset cps = ap (λ k. drop k cps) (sym at) in
      (
        segment-Ready ref nseg sg suits several
            (subst (IsSegment enc (per_segment enc) sg.chars) here s),
        Tiles-Ready ref nseg plan (i + sg.chars) rest suits several (
            subst (λ xs. Tiles enc (per_segment enc) (i + sg.chars) xs plan rest)
              (drop-drop i sg.chars cps) later),
      )
