-- ===== src/Sms/Segments/Tiles.antt =====
-- fm160d/src/pdu.c: `plan_segments` in terms of the characters of the text.
use openwrt_fm.Base.{
  ℕ, zero, suc, ◌+◌, ◌≤◌, ◌<◌, true, false, ◌≡◌, ◌≢◌, refl, ◌⊎◌, inl, inr, List, [], ◌∷◌, arith,
  ltb, ◌==◌, if◌then◌else◌, length, take, drop, Bytes, Bool-cases,
}
use openwrt_fm.Base.Result.{e2big, Result, ok, err, ◌>>=◌}
use openwrt_fm.Sms.Segments.Scan.{total}
use openwrt_fm.Sms.Segments.{
  Encoding, gsm7, ucs2, bit8, SegPlan, cost, fill, plan_loop, per_segment, fits_one, plan_segments,
}
use openwrt_fm.Sms.Utf8.Step.{Chars, nil, cons, text_step-nil}

-- How many characters still fit, `used` being taken.
abbrev room : Encoding → ℕ → ℕ → List ℕ → ℕ
room enc per used [] = 0
room enc per used (cp ∷ cps) =
    let more = suc (room enc per (used + cost enc cp) cps) in
    if ltb per (used + cost enc cp) then 0 else more

record Filled (enc : Encoding) (per used n : ℕ) (cps : List ℕ) (out : ℕ × Bytes) : Type 0 where
  count : out.0 ≡ n + room enc per used cps
  left : Chars out.1 (drop (room enc per used cps) cps)

-- The inner loop takes as many characters as fit; the fuel is enough.
fill-Filled :
    (fuel : ℕ) (enc : Encoding) (per : ℕ) {s : Bytes} {cps : List ℕ} (used n : ℕ)
    → Chars s cps
    → length s ≤ fuel
    → Filled enc per used n cps (fill fuel enc per s used n)
unfolding fill
fill-Filled zero enc per used n nil h = record { count = omega arith; left = nil }
fill-Filled (suc fuel) enc per used n nil h =
    rw (text_step-nil, fill) (record { count = omega arith; left = nil })
fill-Filled zero enc per used n (cons cp step lt ne scalar later) h = absurd (omega arith)
fill-Filled (suc fuel) enc per {s} used n (cons {cps = cps} cp step lt ne scalar later) h =
    elim (Bool-cases (ltb per (used + cost enc cp))) [
      | inl over ↦
          rw (step, fill)
            (rw over (record {
              count = rw over (omega arith);
              left = rw over (cons cp step lt ne scalar later);
            }))
      | inr fits ↦
          let f = fill-Filled fuel enc per (used + cost enc cp) (n + 1) later (omega arith) in
          rw (step, fill)
            (rw fits (record { count = rw fits (omega (arith, f.count)); left = rw fits f.left }))
    ]

-- The first `n` characters make a segment: at least one, within the limit, and one more would not
-- fit.
pub record IsSegment (enc : Encoding) (per n : ℕ) (cps : List ℕ) : Type 0 where
  pub nonempty : 0 < n
  pub inside : n ≤ length cps
  pub within : total enc (take n cps) ≤ per
  pub full : n < length cps → per < total enc (take (suc n) cps)

-- The characters from number `i` on are cut into the segments of `plan`, one behind the other, and
-- `rest` is left over.
abbrev pub Tiles : Encoding → ℕ → ℕ → List ℕ → List SegPlan → List ℕ → Type 0
Tiles enc per i cps [] rest = cps ≡ rest
Tiles enc per i cps (sg ∷ plan) rest =
    (sg.offset ≡ i)
    × IsSegment enc per sg.chars cps
    × Tiles enc per (i + sg.chars) (drop sg.chars cps) plan rest

pub cost_bounds : (enc : Encoding) (cp : ℕ) → (0 < cost enc cp) × (cost enc cp ≤ 2)
unfolding cost
cost_bounds gsm7 cp = ground arith
cost_bounds ucs2 cp = omega arith
cost_bounds bit8 cp = omega arith

record RoomLaws (enc : Encoding) (per used : ℕ) (cps : List ℕ) : Type 0 where
  inside : room enc per used cps ≤ length cps
  within : used + total enc (take (room enc per used cps) cps) ≤ per
  full :
      room enc per used cps < length cps
      → per < used + total enc (take (suc (room enc per used cps)) cps)

room-RoomLaws :
    (enc : Encoding) (per used : ℕ) (cps : List ℕ) → used ≤ per → RoomLaws enc per used cps
room-RoomLaws enc per used [] h = record {
  inside = omega arith;
  within = omega arith;
  full = λ x. absurd (omega arith);
}
room-RoomLaws enc per used (cp ∷ cps) h = elim (Bool-cases (ltb per (used + cost enc cp))) [
  | inl over ↦ record {
    inside = rw over (omega arith);
    within = rw over (omega arith);
    full = rw over (λ _. ground arith);
  }
  | inr fits ↦
      let r = room-RoomLaws enc per (used + cost enc cp) cps (ground arith) in
      record {
        inside = rw fits (omega (arith, r.inside));
        within = rw fits (omega (arith, r.within));
        full = rw fits (λ x. omega (arith, r.full (omega arith)));
      }
]

room-pos : (enc : Encoding) (per cp : ℕ) (cps : List ℕ) → 2 ≤ per → 0 < room enc per 0 (cp ∷ cps)
room-pos enc per cp cps h =
    let fits : ltb per (0 + cost enc cp) ≡ false = ground (arith, cost_bounds enc cp) in
    rw fits (omega arith)

room-IsSegment :
    (enc : Encoding) (per cp : ℕ) (cps : List ℕ)
    → 2 ≤ per
    → IsSegment enc per (room enc per 0 (cp ∷ cps)) (cp ∷ cps)
room-IsSegment enc per cp cps h =
    let r = room-RoomLaws enc per 0 (cp ∷ cps) (omega arith) in
    record {
      nonempty = room-pos enc per cp cps h;
      inside = r.inside;
      within = omega (arith, r.within);
      full = λ x. omega (arith, r.full x);
    }

-- How the plan ends: every character is in a segment, or `left` segments are full and characters
-- are left over.
pub record Outcome (left : ℕ) (enc : Encoding) (per i : ℕ) (cps : List ℕ)
    (result : Result (List SegPlan)) : Type 0 where
  pub plan : List SegPlan
  pub rest : List ℕ
  pub tiles : Tiles enc per i cps plan rest
  pub ends :
      ((result ≡ ok plan) × (rest ≡ []) × (length plan ≤ left))
      ⊎ ((result ≡ err e2big) × (rest ≢ []) × (length plan ≡ left))

plan_loop-nil : (left : ℕ) (enc : Encoding) (per i : ℕ) → plan_loop left enc per i [] ≡ ok []
unfolding plan_loop
plan_loop-nil zero enc per i = refl
plan_loop-nil (suc left) enc per i = refl

Outcome-cons :
    (left : ℕ) (enc : Encoding) (per i n : ℕ) (cps : List ℕ) (later : Result (List SegPlan))
    → IsSegment enc per n cps
    → Outcome left enc per (i + n) (drop n cps) later
    → Outcome
        (suc left)
        enc
        per
        i
        cps
        (do plan ← later; ok (record { offset = i; chars = n } ∷ plan))
Outcome-cons left enc per i n cps later sg o = record {
  plan = record { offset = i; chars = n } ∷ o.plan;
  rest = o.rest;
  tiles = (refl, sg, o.tiles);
  ends = elim o.ends [
    | inl (e, all, few) ↦ inl (rw e refl, all, omega arith)
    | inr (e, more, full) ↦ inr (rw e refl, more, omega arith)
  ];
}

Chars-shape :
    {s : Bytes} {cps : List ℕ}
    → Chars s cps
    → ((length s ≡ 0) × (cps ≡ []))
      ⊎ ((cp : ℕ) × (tail : List ℕ) × (cps ≡ cp ∷ tail) × (0 < length s))
Chars-shape nil = inl (refl, refl)
Chars-shape (cons {cps = cps} cp step lt ne scalar later) = inr (cp, cps, refl, omega arith)

fill-IsSegment :
    (enc : Encoding) (per n : ℕ) {s : Bytes} {cps : List ℕ}
    → 2 ≤ per
    → Chars s cps
    → 0 < length s
    → n ≡ room enc per 0 cps
    → IsSegment enc per n cps
fill-IsSegment enc per n h c pos e = elim (Chars-shape c) [
  | inl (empty, _) ↦ absurd (omega arith)
  | inr (cp, tail, split, _) ↦ rw (e, split) (room-IsSegment enc per cp tail h)
]

ne_nil : {A : Type 0} {xs ys : List A} (x : A) → xs ≡ x ∷ ys → xs ≢ []
ne_nil x e h = cc

plan_loop-suc :
    (left : ℕ) (enc : Encoding) (per i b : ℕ) (s : Bytes)
    → ((fill (length (b ∷ s)) enc per (b ∷ s) 0 0).0 == 0) ≡ false
    → plan_loop (suc left) enc per i (b ∷ s) ≡ (do
      plan ←
          plan_loop left enc per
            (i + (fill (length (b ∷ s)) enc per (b ∷ s) 0 0).0)
            (fill (length (b ∷ s)) enc per (b ∷ s) 0 0).1
      ok (record { offset = i; chars = (fill (length (b ∷ s)) enc per (b ∷ s) 0 0).0 } ∷ plan))
unfolding plan_loop
plan_loop-suc left enc per i b s goes_on = rw goes_on refl

-- The outer loop ends well or runs out of segments; a round that makes no progress never occurs.
pub plan_loop-Outcome :
    (left : ℕ) (enc : Encoding) (per i : ℕ) (s : Bytes) (cps : List ℕ)
    → 2 ≤ per
    → Chars s cps
    → Outcome left enc per i cps (plan_loop left enc per i s)
plan_loop-Outcome left enc per i [] cps h c = elim (Chars-shape c) [
  | inl (_, none_left) ↦ record {
    plan = [];
    rest = [];
    tiles = none_left;
    ends = inl (plan_loop-nil left enc per i, refl, omega arith);
  }
  | inr (_, _, _, pos) ↦ absurd (omega arith)
]
plan_loop-Outcome zero enc per i (b ∷ s) cps h c = elim (Chars-shape c) [
  | inl (empty, _) ↦ absurd (omega arith)
  | inr (cp, tail, split, _) ↦ record {
    plan = [];
    rest = cps;
    tiles = refl;
    ends = inr (unfold plan_loop in refl, ne_nil cp split, refl);
  }
]
plan_loop-Outcome (suc left) enc per i (b ∷ s) cps h c =
    let out = fill (length (b ∷ s)) enc per (b ∷ s) 0 0 in
    let f = fill-Filled (length (b ∷ s)) enc per 0 0 c (omega arith) in
    let n : out.0 ≡ room enc per 0 cps = omega (arith, f.count) in
    let segment = fill-IsSegment enc per out.0 h c (omega arith) n in
    let goes_on : (out.0 == 0) ≡ false = ground (arith, segment.nonempty) in
    let later = plan_loop-Outcome left enc per (i + out.0) out.1 (drop out.0 cps) h (rw n f.left) in
    rw (plan_loop-suc left enc per i b s goes_on)
      (Outcome-cons left enc per i out.0 cps _ segment later)

per_segment_room : (enc : Encoding) → 2 ≤ per_segment enc
per_segment_room gsm7 = omega arith
per_segment_room ucs2 = omega arith
per_segment_room bit8 = omega arith

-- On a text with the characters `cps`, `plan_segments` gives one segment where the counts allow it.
-- Otherwise it cuts the characters, in order and without a gap, into segments within the limit that
-- could not take one character more, and fails with E2BIG exactly when `max_segments` of them leave
-- characters over.
pub plan_segments-Outcome :
    (text : Bytes) (cps : List ℕ) (enc : Encoding) (septets chars max_segments : ℕ)
    → Chars text cps
    → (fits_one enc septets chars ≡ true
        → plan_segments text enc septets chars max_segments
          ≡ ok (record { offset = 0; chars = chars } ∷ []))
      × (fits_one enc septets chars ≡ false
          → Outcome max_segments enc
              (per_segment enc)
              0
              cps
              (plan_segments text enc septets chars max_segments))
unfolding plan_segments
plan_segments-Outcome text cps enc septets chars max_segments c = (
  λ one. rw one refl,
  λ many.
      rw many
        (plan_loop-Outcome max_segments enc (per_segment enc) 0 text cps (per_segment_room enc) c),
)
