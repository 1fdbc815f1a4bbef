-- ===== src/Sms/RoundTrip/Delivery.antt =====
-- A whole message: what its segments hold together.
use mathlib.Core.List.{append-nil}
use mathlib.Core.Path.{subst}
use openwrt_fm.Base.{
  ℕ, zero, suc, ◌+◌, ◌≤◌, ◌<◌, Bool, false, ◌≡◌, ◌≢◌, refl, sym, ap, ◌∙◌, ◌⊎◌, inl, inr, List, [],
  ◌∷◌, ◌++◌, arith, length, take, drop, Bytes, All,
}
use openwrt_fm.Base.Result.{Result, ok, err, e2big}
use openwrt_fm.Sms.Bcd.Laws.{IsDigit}
use openwrt_fm.Sms.Encode.{Segment, encode_segments}
use openwrt_fm.Sms.RoundTrip.Message.{piece, Delivered, encode_segments-Delivered}
use openwrt_fm.Sms.RoundTrip.Plan.{drop-drop, Suits, one-Ready, Tiles-Ready}
use openwrt_fm.Sms.RoundTrip.Tpdu.{take-all}
use openwrt_fm.Sms.Segments.Scan.{total}
use openwrt_fm.Sms.Segments.Tiles.{Tiles, Outcome}
use openwrt_fm.Sms.Segments.{Encoding, gsm7, ucs2, SegPlan, per_segment}
use openwrt_fm.Sms.Utf8.Step.{Chars}

-- The characters of all segments, in the order of the plan.
abbrev pub joined : List ℕ → List SegPlan → List ℕ
joined cps [] = []
joined cps (sg ∷ plan) = piece cps sg ++ joined cps plan

take-drop : (n : ℕ) (xs : List ℕ) → take n xs ++ drop n xs ≡ xs
take-drop zero xs = refl
take-drop (suc n) [] = refl
take-drop (suc n) (x ∷ xs) = ap (λ (ys : List ℕ). x ∷ ys) (take-drop n xs)

Tiles-joined :
    (enc : Encoding) (per : ℕ) (cps : List ℕ) (plan : List SegPlan) (i : ℕ)
    → Tiles enc per i (drop i cps) plan []
    → joined cps plan ≡ drop i cps
Tiles-joined enc per cps [] i t = sym t
Tiles-joined enc per cps (sg ∷ plan) i (at, s, later) =
    let after = drop-drop i sg.chars cps in
    let rest =
      Tiles-joined enc per cps plan (i + sg.chars)
        (subst (λ xs. Tiles enc per (i + sg.chars) xs plan []) after later) in
    let here : drop sg.offset cps ≡ drop i cps = ap (λ k. drop k cps) at in
    rw (here, rest, sym after) (take-drop sg.chars (drop i cps))

-- A text over the limit of one segment takes several.
several-Tiles :
    (enc : Encoding) (cps : List ℕ) (plan : List SegPlan)
    → Tiles enc (per_segment enc) 0 cps plan []
    → per_segment enc < total enc cps
    → 1 < length plan
several-Tiles enc cps [] t over = absurd (omega (arith, ap (total enc) t))
several-Tiles enc cps (sg ∷ []) (at, s, later) over =
    let all : take sg.chars cps ≡ cps =
      sym (append-nil (take sg.chars cps))
      ∙ ap (λ (ys : List ℕ). take sg.chars cps ++ ys) (sym later)
      ∙ take-drop sg.chars cps in
    absurd (omega (arith, s.within, ap (total enc) all))
several-Tiles enc cps (sg ∷ sg' ∷ plan) t over = omega arith

-- Every segment arrives, they are no more than allowed, and they hold the characters in order.
pub record Delivery (digits : Bytes) (intl : Bool) (enc : Encoding) (cps : List ℕ) (limit ref : ℕ)
    (plan : List SegPlan) (segs : List Segment) : Type 0 where
  pub sent : Delivered digits intl enc ref (length plan) cps 0 plan segs
  pub whole : joined cps plan ≡ cps
  pub few : length plan ≤ limit

-- As many full segments as allowed leave characters over.
pub record TooLong (enc : Encoding) (cps : List ℕ) (limit : ℕ) : Type 0 where
  pub plan : List SegPlan
  pub rest : List ℕ
  pub tiles : Tiles enc (per_segment enc) 0 cps plan rest
  pub left_over : rest ≢ []
  pub full : length plan ≡ limit

-- How a plan and its encoding end.
abbrev pub Ends : Bytes → Bool → Encoding → List ℕ → ℕ → ℕ → Bytes → Result (List SegPlan) → Type 0
Ends digits intl enc cps limit ref text result =
    ((result ≡ err e2big) × TooLong enc cps limit)
    ⊎ ((plan : List SegPlan) × (segs : List Segment) × (result ≡ ok plan)
        × (encode_segments digits intl enc ref false (length plan) text 0 plan ≡ ok segs)
        × Delivery digits intl enc cps limit ref plan segs)

module _ {digits : Bytes} {intl : Bool} {text : Bytes} {cps : List ℕ} (ds : All IsDigit digits)
    (some_digit : 0 < length digits) (fits : length digits ≤ 20) (c : Chars text cps) where
  pub many-Ends :
      {enc : Encoding} (limit ref : ℕ) (result : Result (List SegPlan))
      → Suits cps enc
      → limit ≤ 4
      → per_segment enc < total enc cps
      → Outcome limit enc (per_segment enc) 0 cps result
      → Ends digits intl enc cps limit ref text result
  many-Ends {enc} limit ref result suits small over o = elim o.ends [
    | inl (e, none_left, few) ↦
        let tiles = subst (Tiles enc (per_segment enc) 0 cps o.plan) none_left o.tiles in
        let several = several-Tiles enc cps o.plan tiles over in
        let ready = Tiles-Ready c ref (length o.plan) o.plan 0 [] suits several tiles in
        let below : length o.plan < 256 = omega arith in
        let count : 0 + length o.plan ≡ length o.plan = omega arith in
        let (segs, coded, sent) =
          encode_segments-Delivered ref (length o.plan) text cps ds some_digit fits below o.plan 0
            ready count in
        inr (
          o.plan,
          segs,
          e,
          coded,
          record {
            sent = sent;
            whole = Tiles-joined enc (per_segment enc) cps o.plan 0 tiles;
            few = few;
          },
        )
    | inr (e, more, full) ↦
        inl (
          e,
          record { plan = o.plan; rest = o.rest; tiles = o.tiles; left_over = more; full = full },
        )
  ]

  pub one-Ends :
      {enc : Encoding} (limit ref : ℕ)
      → Suits cps enc
      → 1 ≤ limit
      → (enc ≡ gsm7 → total gsm7 cps ≤ 160)
      → (enc ≡ ucs2 → length cps ≤ 70)
      → Ends digits intl enc cps limit ref text
          (ok (record { offset = 0; chars = length cps } ∷ []))
  one-Ends {enc} limit ref suits some_room g u =
      let plan : List SegPlan = record { offset = 0; chars = length cps } ∷ [] in
      let few : 1 < 256 = omega arith in
      let count : 0 + 1 ≡ 1 = omega arith in
      let all : take (length cps) cps ≡ cps = take-all (length cps) cps (omega arith) in
      let (segs, coded, sent) =
        encode_segments-Delivered ref 1 text cps ds some_digit fits few plan 0
          (one-Ready c ref suits g u, tt) count in
      inr (
        plan,
        segs,
        refl,
        coded,
        record { sent = sent; whole = append-nil (take (length cps) cps) ∙ all; few = some_room },
      )
