-- ===== src/Sms/Segments/Estimate.antt =====
-- `sms_pdu_plan` against the segments that `plan_segments` really cuts.
use openwrt_fm.Base.{
  ℕ, zero, suc, ◌+◌, ◌*◌, ◌/◌, ◌≤◌, ◌<◌, true, false, ◌≡◌, refl, sym, ap, ◌∙◌, ◌⊎◌, inl, inr, List,
  [], ◌∷◌, arith, ltb, leb, if◌then◌else◌, length, take, drop, Bytes, Bool-cases, All,
}
use mathlib.Core.Path.{subst₂}
use openwrt_fm.Base.Result.{Result, ok, ok-injective}
use openwrt_fm.Sms.Segments.Scan.{total, scan_text-Scanned}
use openwrt_fm.Sms.Segments.Tiles.{IsSegment, Tiles, Outcome, plan_segments-Outcome}
use openwrt_fm.Sms.Segments.{
  Encoding, gsm7, ucs2, bit8, SegPlan, cost, encoding_of, per_segment, fits_one, plan_segments,
  scan_text, sms_pdu_plan,
}
use openwrt_fm.Sms.Utf8.Step.{Chars}

total-split :
    (enc : Encoding) (n : ℕ) (cps : List ℕ)
    → total enc cps ≡ total enc (take n cps) + total enc (drop n cps)
total-split enc zero cps = omega arith
total-split enc (suc n) [] = omega arith
total-split enc (suc n) (cp ∷ cps) = omega (arith, total-split enc n cps)

-- Segments within the limit hold no more than their number allows.
Tiles-total :
    (enc : Encoding) (per i : ℕ) (cps rest : List ℕ) (plan : List SegPlan)
    → Tiles enc per i cps plan rest
    → total enc cps ≤ per * length plan + total enc rest
Tiles-total enc per i cps rest [] t = rw t (omega arith)
Tiles-total enc per i cps rest (sg ∷ plan) t = omega (
  arith,
  total-split enc sg.chars cps,
  t.1.within,
  Tiles-total enc per (i + sg.chars) (drop sg.chars cps) rest plan t.2,
)

Units : Encoding → List ℕ → Type 0
Units enc = All (λ cp. cost enc cp ≡ 1)

length-drop : (n : ℕ) (cps : List ℕ) → n ≤ length cps → length (drop n cps) + n ≡ length cps
length-drop zero cps h = omega arith
length-drop (suc n) [] h = absurd (omega arith)
length-drop (suc n) (cp ∷ cps) h = omega (arith, length-drop n cps (omega arith))

total-take-Units :
    (enc : Encoding) (n : ℕ) (cps : List ℕ)
    → Units enc cps
    → n ≤ length cps
    → total enc (take n cps) ≡ n
unfolding Units
total-take-Units enc zero cps u h = refl
total-take-Units enc (suc n) [] u h = absurd (omega arith)
total-take-Units enc (suc n) (cp ∷ cps) u h =
    omega (arith, total-take-Units enc n cps u.1 (omega arith))

total-Units : (enc : Encoding) (cps : List ℕ) → Units enc cps → total enc cps ≡ length cps
unfolding Units
total-Units enc [] u = refl
total-Units enc (cp ∷ cps) u = omega (arith, total-Units enc cps u.1)

Units-drop : (enc : Encoding) (n : ℕ) (cps : List ℕ) → Units enc cps → Units enc (drop n cps)
unfolding Units
Units-drop enc zero cps u = u
Units-drop enc (suc n) [] u = u
Units-drop enc (suc n) (cp ∷ cps) u = Units-drop enc n cps u.1

-- A segment of such characters is full unless it is the last.
unit_segment :
    (enc : Encoding) (per n : ℕ) (cps : List ℕ)
    → Units enc cps
    → IsSegment enc per n cps
    → (n ≤ per) × ((n ≡ length cps) ⊎ (n ≡ per))
unit_segment enc per n cps u sg = elim (Bool-cases (ltb n (length cps))) [
  | inl more ↦
      let lt : n < length cps = ground arith in
      let here = total-take-Units enc n cps u sg.inside in
      let next = total-take-Units enc (suc n) cps u lt in
      (omega (arith, sg.within), inr (omega (arith, sg.within, sg.full lt)))
  | inr last ↦ (
    omega (arith, total-take-Units enc n cps u sg.inside, sg.within),
    inl (ground (arith, sg.inside)),
  )
]

scale : (per p : ℕ) → 0 < p → per ≤ per * p
scale per p h = grind arith

Tiles-Units :
    (enc : Encoding) (per i : ℕ) (cps : List ℕ) (plan : List SegPlan)
    → Units enc cps
    → Tiles enc per i cps plan []
    → (length cps ≤ per * length plan) × (0 < length plan → per * length plan < length cps + per)
Tiles-Units enc per i cps [] u t = rw t (omega arith)
Tiles-Units enc per i cps (sg ∷ plan) u t =
    let n = sg.chars in
    let (le, shape) = unit_segment enc per n cps u t.1 in
    let left = length-drop n cps t.1.inside in
    let later = Tiles-Units enc per (i + n) (drop n cps) plan (Units-drop enc n cps u) t.2 in
    (
      omega (arith, later.0),
      λ _. elim (Bool-cases (ltb 0 (length plan))) [
        | inl more ↦ elim shape [
          | inl last ↦
              let full = scale per (length plan) (ground arith) in
              absurd (omega (arith, full, later.1 (ground arith)))
          | inr full ↦ omega (arith, later.1 (ground arith))
        ]
        | inr done ↦
            let e : length plan ≡ 0 = ground arith in rw e (omega (arith, t.1.nonempty, t.1.inside))
      ],
    )

-- What `sms_pdu_plan` computes from the counts.
abbrev estimate : Encoding → ℕ → ℕ
estimate gsm7 septets = if leb septets 160 then 1 else (septets + 152) / 153
estimate _ chars = if leb chars 70 then 1 else (chars + 66) / 67

abbrev count_for : Encoding → ℕ → ℕ → ℕ
count_for gsm7 septets chars = septets
count_for _ septets chars = chars

sms_pdu_plan-estimate :
    (c : ℕ) (text : Bytes) (max_segments : ℕ)
    → let sc = scan_text (c ∷ text) in
      let enc = encoding_of sc in
      sms_pdu_plan (c ∷ text) max_segments
      ≡ ok (estimate enc (count_for enc sc.septets sc.chars), enc, sc.chars)
unfolding sms_pdu_plan
sms_pdu_plan-estimate c text max_segments = elim (Bool-cases (scan_text (c ∷ text)).gsm7_ok) [
  | inl e ↦ rw e refl
  | inr e ↦ rw e refl
]

total-plain : (cps : List ℕ) → total ucs2 cps ≡ length cps
unfolding cost
total-plain [] = refl
total-plain (cp ∷ cps) = omega (arith, total-plain cps)

counted :
    {text : Bytes} {cps : List ℕ}
    → Chars text cps
    → let sc = scan_text text in
      total (encoding_of sc) cps ≡ count_for (encoding_of sc) sc.septets sc.chars
counted {text} {cps} c = elim (Bool-cases (scan_text text).gsm7_ok) [
  | inl e ↦ rw e (sym ((scan_text-Scanned c).count (sym (scan_text-Scanned c).flag ∙ e)))
  | inr e ↦ rw e (total-plain cps ∙ sym (scan_text-Scanned c).chars)
]

-- The two counts for the encodings, from the limits on the segments.
estimate_bound :
    (enc : Encoding) (septets chars p : ℕ)
    → fits_one enc septets chars ≡ false
    → count_for enc septets chars ≤ per_segment enc * p
    → (estimate enc (count_for enc septets chars) ≤ p)
      × ((0 < p → per_segment enc * p < count_for enc septets chars + per_segment enc)
          → estimate enc (count_for enc septets chars) ≡ p)
estimate_bound gsm7 septets chars p many h = ground arith
estimate_bound ucs2 septets chars p many h = ground arith
estimate_bound bit8 septets chars p many h = ground arith

estimate_one :
    (enc : Encoding) (septets chars : ℕ)
    → fits_one enc septets chars ≡ true
    → estimate enc (count_for enc septets chars) ≡ 1
estimate_one gsm7 septets chars h = ground arith
estimate_one ucs2 septets chars h = ground arith
estimate_one bit8 septets chars h = ground arith

-- The whole plan of a text, when there is one.
record Cut (enc : Encoding) (septets chars : ℕ) (cps : List ℕ) (plan : List SegPlan) : Type 0 where
  few : estimate enc (count_for enc septets chars) ≤ length plan
  exact : Units enc cps → estimate enc (count_for enc septets chars) ≡ length plan

one-Cut :
    (enc : Encoding) (septets chars : ℕ) (cps : List ℕ) (plan : List SegPlan)
    → fits_one enc septets chars ≡ true
    → plan ≡ record { offset = 0; chars = chars } ∷ []
    → Cut enc septets chars cps plan
one-Cut enc septets chars cps plan fits e =
    let n : length plan ≡ 1 = ap length e in
    let one = estimate_one enc septets chars fits in
    record { few = omega arith; exact = λ _. one ∙ sym n }

many-Cut :
    (enc : Encoding) (septets chars max_segments : ℕ) (cps : List ℕ) (plan : List SegPlan)
    {result : Result (List SegPlan)}
    → fits_one enc septets chars ≡ false
    → total enc cps ≡ count_for enc septets chars
    → result ≡ ok plan
    → Outcome max_segments enc (per_segment enc) 0 cps result
    → Cut enc septets chars cps plan
many-Cut enc septets chars max_segments cps plan over sum e o = elim o.ends [
  | inr (bad, _, _) ↦ absurd (cc)
  | inl (good, all, _) ↦
      let per = per_segment enc in
      let same : o.plan ≡ plan = ok-injective (sym good ∙ e) in
      let t = subst₂ (λ p r. Tiles enc per 0 cps p r) same all o.tiles in
      let b =
        estimate_bound enc septets chars (length plan) over
          (omega (arith, sum, Tiles-total enc per 0 cps [] plan t)) in
      record {
        few = b.0;
        exact = λ u. b.1 (λ pos.
            omega (arith, sum, total-Units enc cps u, (Tiles-Units enc per 0 cps plan u t).1 pos));
      }
]

plan-Cut :
    (text : Bytes) (cps : List ℕ) (enc : Encoding) (septets chars max_segments : ℕ)
    (plan : List SegPlan)
    → Chars text cps
    → total enc cps ≡ count_for enc septets chars
    → plan_segments text enc septets chars max_segments ≡ ok plan
    → Cut enc septets chars cps plan
plan-Cut text cps enc septets chars max_segments plan c sum e =
    let (one, many) = plan_segments-Outcome text cps enc septets chars max_segments c in
    elim (Bool-cases (fits_one enc septets chars)) [
      | inl fits ↦ one-Cut enc septets chars cps plan fits (ok-injective (sym e ∙ one fits))
      | inr over ↦ many-Cut enc septets chars max_segments cps plan over sum e (many over)
    ]

-- Whenever `plan_segments` finds a plan for a text that is not empty, with the counts that `scan_text`
-- makes, `sms_pdu_plan` succeeds with the same alphabet and number of characters, and the number of
-- segments it reports is at most that of the plan; and it is that number if no character takes two
-- septets, as none does in UCS2.
pub sms_pdu_plan-plan_segments :
    (text : Bytes) (cps : List ℕ) (max_segments limit : ℕ) (plan : List SegPlan)
    → Chars text cps
    → 0 < length text
    → let sc = scan_text text in
      let enc = encoding_of sc in
      plan_segments text enc sc.septets sc.chars max_segments ≡ ok plan
      → (n : ℕ) × ((sms_pdu_plan text limit ≡ ok (n, enc, sc.chars))
          × ((n ≤ length plan) × (All (λ cp. cost enc cp ≡ 1) cps → n ≡ length plan)))
unfolding Units
sms_pdu_plan-plan_segments [] cps max_segments limit plan c some_text e = absurd (omega arith)
sms_pdu_plan-plan_segments (b ∷ text) cps max_segments limit plan c some_text e =
    let sc = scan_text (b ∷ text) in
    let enc = encoding_of sc in
    let cut = plan-Cut (b ∷ text) cps enc sc.septets sc.chars max_segments plan c (counted c) e in
    (
      estimate enc (count_for enc sc.septets sc.chars),
      (sms_pdu_plan-estimate b text limit, (cut.few, cut.exact)),
    )
