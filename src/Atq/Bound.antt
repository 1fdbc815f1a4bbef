-- ===== src/Atq/Bound.antt =====
-- fm160d/src/atq.c: a full queue, and what a new request does to it.
use mathlib.Core.List.{append-nil}
use mathlib.Core.Path.{subst}
use openwrt_fm.Atq.Choice.{All-weaken, InOrder, unlink-front, InOrder-front, behind, ahead}
use openwrt_fm.Atq.{AtReq, enospc, queued, victim_loop, unlink, replace_victim}
use openwrt_fm.Base.{
  ℕ, ◌≤◌, ◌<◌, true, false, ◌≡◌, refl, ap, ◌∙◌, inl, inr, List, [], ◌∷◌, ◌++◌, Option, none, some,
  arith, ltb, Bool-cases, All, All-append,
}

-- `victim` is the oldest of the least urgent requests.
pub record Victim (q : List AtReq) (victim : AtReq) : Type 0 where
  pub front : List AtReq
  pub back : List AtReq
  pub splits : q ≡ front ++ (victim ∷ back)
  pub older_better : All (λ (r : AtReq). r.prio < victim.prio) front
  pub none_worse : All (λ (r : AtReq). r.prio ≤ victim.prio) back

victim_loop-from :
    (q front mid whole : List AtReq) (b : AtReq)
    → whole ≡ front ++ (b ∷ (mid ++ q))
    → All (λ (r : AtReq). r.prio < b.prio) front
    → All (λ (r : AtReq). r.prio ≤ b.prio) mid
    → (victim : AtReq) × (victim_loop (some b) q ≡ some victim) × Victim whole victim
unfolding victim_loop
victim_loop-from [] front mid whole b e older others = (
  b,
  refl,
  record {
    front = front;
    back = mid;
    splits = e ∙ ap (λ (t : List AtReq). front ++ (b ∷ t)) (append-nil mid);
    older_better = older;
    none_worse = others;
  },
)
victim_loop-from (r ∷ q) front mid whole b e older others = elim (Bool-cases (ltb b.prio r.prio)) [
  | inl worse ↦
      let lt : b.prio < r.prio = ground arith in
      let passed =
        All-append (λ (x : AtReq). x.prio < r.prio) front (b ∷ mid)
          (All-weaken front (λ x h. omega (arith, h)) older)
          (lt, All-weaken mid (λ x h. omega (arith, h)) others) in
      rw worse
        (victim_loop-from q (front ++ (b ∷ mid)) [] whole r (e ∙ ahead front mid q b r) passed tt)
  | inr better ↦
      let le : r.prio ≤ b.prio = ground arith in
      let seen = All-append (λ (x : AtReq). x.prio ≤ b.prio) mid (r ∷ []) others (le, tt) in
      rw better
        (victim_loop-from q front (mid ++ (r ∷ [])) whole b (e ∙ behind front mid q b r) older seen)
]

victim_loop-nil : victim_loop none [] ≡ none
unfolding victim_loop
victim_loop-nil = refl

victim_loop-Victim :
    (r : AtReq) (q : List AtReq)
    → (victim : AtReq) × (victim_loop none (r ∷ q) ≡ some victim) × Victim (r ∷ q) victim
victim_loop-Victim r q = unfold victim_loop in victim_loop-from q [] [] (r ∷ q) r refl tt tt

pub unlink-Victim :
    (q : List AtReq) (victim : AtReq) (v : Victim q victim)
    → InOrder 0 q
    → unlink victim.id q ≡ v.front ++ v.back
unlink-Victim q victim v h =
    ap (unlink victim.id) v.splits
    ∙ unlink-front v.front v.back victim
        (InOrder-front v.front v.back 0 victim (subst (InOrder 0) v.splits h))

-- What a request does to a full queue: it takes the place of the oldest of the least urgent
-- requests, if it is more urgent than that one, and is refused otherwise.
pub replace_victim-Victim :
    (req r : AtReq) (q : List AtReq) (inflight : Option AtReq) (next_id : ℕ)
    → InOrder 0 (r ∷ q)
    → (victim : AtReq) × (v : Victim (r ∷ q) victim) × (req.prio < victim.prio
        → replace_victim req (record { queue = r ∷ q; inflight = inflight; next_id = next_id })
          ≡ queued (record {
            queue = (v.front ++ v.back) ++ (req ∷ []);
            inflight = inflight;
            next_id = next_id;
          }))
      × (victim.prio ≤ req.prio
          → replace_victim req (record { queue = r ∷ q; inflight = inflight; next_id = next_id })
            ≡ enospc (record { queue = r ∷ q; inflight = inflight; next_id = next_id }))
unfolding replace_victim
replace_victim-Victim req r q inflight next_id w =
    let (victim, found, v) = victim_loop-Victim r q in
    let gone = unlink-Victim (r ∷ q) victim v w in
    (
      victim,
      v,
      λ more.
          let test : ltb req.prio victim.prio ≡ true = ground arith in
          rw (found, replace_victim) (rw (test, gone) refl),
      λ less.
          let test : ltb req.prio victim.prio ≡ false = ground arith in
          rw (found, replace_victim) (rw test refl),
    )
