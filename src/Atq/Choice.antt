-- ===== src/Atq/Choice.antt =====
-- fm160d/src/atq.c: which request the queue picks to send.
use mathlib.Core.Path.{subst}
use mathlib.Core.List.{append-nil, append_assoc}
use openwrt_fm.Base.{
  ℕ, ◌+◌, ◌-◌, ◌&&◌, ◌≤◌, ◌<◌, true, false, ◌≡◌, ◌≢◌, refl, sym, ap, ◌∙◌, inl, inr, List, [], ◌∷◌,
  ◌++◌, none, some, arith, ltb, ◌==◌, Bool-cases, All, All-append,
}
use openwrt_fm.Atq.{AtReq, Atq, best_loop, unlink, promote, take_next, at_prio_poll, atq_starve_ms}

-- `best` stands in `q` behind requests of worse priority, and before none of a better one: it is the
-- oldest of the most urgent.
pub record Oldest (q : List AtReq) (best : AtReq) : Type 0 where
  pub front : List AtReq
  pub back : List AtReq
  pub splits : q ≡ front ++ (best ∷ back)
  pub older_worse : All (λ (r : AtReq). best.prio < r.prio) front
  pub none_better : All (λ (r : AtReq). best.prio ≤ r.prio) back

pub All-weaken {κ μ} :
    {P : AtReq → Type κ} {Q : AtReq → Type μ} (q : List AtReq)
    → ((r : AtReq) → P r → Q r)
    → All P q
    → All Q q
All-weaken [] h a = tt
All-weaken (r ∷ q) h a = (h r a.0, All-weaken q h a.1)

-- The request is put behind those that the loop has seen.
pub behind :
    (front mid q : List AtReq) (b r : AtReq)
    → front ++ (b ∷ (mid ++ (r ∷ q))) ≡ front ++ (b ∷ ((mid ++ (r ∷ [])) ++ q))
behind front mid q b r =
    ap (λ (t : List AtReq). front ++ (b ∷ t)) (sym (append_assoc mid (r ∷ []) q))

pub ahead :
    (front mid q : List AtReq) (b r : AtReq)
    → front ++ (b ∷ (mid ++ (r ∷ q))) ≡ (front ++ (b ∷ mid)) ++ (r ∷ q)
ahead front mid q b r = sym (append_assoc front (b ∷ mid) (r ∷ q))

best_loop-from :
    (q front mid whole : List AtReq) (b : AtReq)
    → whole ≡ front ++ (b ∷ (mid ++ q))
    → All (λ (r : AtReq). b.prio < r.prio) front
    → All (λ (r : AtReq). b.prio ≤ r.prio) mid
    → (best : AtReq) × (best_loop (some b) q ≡ some best) × Oldest whole best
unfolding best_loop
best_loop-from [] front mid whole b e older others = (
  b,
  refl,
  record {
    front = front;
    back = mid;
    splits = e ∙ ap (λ (t : List AtReq). front ++ (b ∷ t)) (append-nil mid);
    older_worse = older;
    none_better = others;
  },
)
best_loop-from (r ∷ q) front mid whole b e older others = elim (Bool-cases (ltb r.prio b.prio)) [
  | inl better ↦
      let lt : r.prio < b.prio = ground arith in
      let passed =
        All-append (λ (x : AtReq). r.prio < x.prio) front (b ∷ mid)
          (All-weaken front (λ x h. omega (arith, h)) older)
          (lt, All-weaken mid (λ x h. omega (arith, h)) others) in
      rw better
        (best_loop-from q (front ++ (b ∷ mid)) [] whole r (e ∙ ahead front mid q b r) passed tt)
  | inr worse ↦
      let ge : b.prio ≤ r.prio = ground arith in
      let seen = All-append (λ (x : AtReq). b.prio ≤ x.prio) mid (r ∷ []) others (ge, tt) in
      rw worse
        (best_loop-from q front (mid ++ (r ∷ [])) whole b (e ∙ behind front mid q b r) older seen)
]

-- The loop of `atq_dispatch` finds the oldest of the most urgent requests.
pub best_loop-Oldest :
    (r : AtReq) (q : List AtReq)
    → (best : AtReq) × (best_loop none (r ∷ q) ≡ some best) × Oldest (r ∷ q) best
best_loop-Oldest r q = unfold best_loop in best_loop-from q [] [] (r ∷ q) r refl tt tt

-- The ids grow along the queue, as `next_id` gives them out.
abbrev pub InOrder : ℕ → List AtReq → Type 0
InOrder low [] = Unit
InOrder low (r ∷ q) = (low ≤ r.id) × InOrder (r.id + 1) q

pub record IsQueue (a : Atq) : Type 0 where
  pub in_order : InOrder 0 a.queue
  pub given_out : All (λ (r : AtReq). r.id < a.next_id) a.queue

InOrder-behind :
    (front back : List AtReq) (low : ℕ) (b : AtReq) → InOrder low (front ++ (b ∷ back)) → low ≤ b.id
InOrder-behind [] back low b h = h.0
InOrder-behind (r ∷ front) back low b h =
    omega (arith, h.0, InOrder-behind front back (r.id + 1) b h.1)

pub InOrder-front :
    (front back : List AtReq) (low : ℕ) (b : AtReq)
    → InOrder low (front ++ (b ∷ back))
    → All (λ (r : AtReq). r.id < b.id) front
InOrder-front [] back low b h = tt
InOrder-front (r ∷ front) back low b h = (
  omega (arith, InOrder-behind front back (r.id + 1) b h.1),
  InOrder-front front back (r.id + 1) b h.1,
)

pub unlink-front :
    (front back : List AtReq) (b : AtReq)
    → All (λ (r : AtReq). r.id < b.id) front
    → unlink b.id (front ++ (b ∷ back)) ≡ front ++ back
unfolding unlink
unlink-front [] back b h = let same : (b.id == b.id) ≡ true = ground arith in rw same refl
unlink-front (r ∷ front) back b h =
    let other : (r.id == b.id) ≡ false = ground (arith, h.0) in
    rw other (ap (λ (t : List AtReq). r ∷ t) (unlink-front front back b h.1))

pub unlink-Oldest :
    (q : List AtReq) (b : AtReq) (o : Oldest q b) → InOrder 0 q → unlink b.id q ≡ o.front ++ o.back
unlink-Oldest q b o h =
    ap (unlink b.id) o.splits
    ∙ unlink-front o.front o.back b
        (InOrder-front o.front o.back 0 b (subst (InOrder 0) o.splits h))

-- With nothing in flight the queue sends the oldest of its most urgent requests, however long
-- others have waited, and keeps all others in their order.
pub take_next-Oldest :
    (now next_id : ℕ) (r : AtReq) (q : List AtReq)
    → IsQueue (record { queue = r ∷ q; inflight = none; next_id = next_id })
    → (best : AtReq) × (o : Oldest (r ∷ q) best) × (take_next now
          (record { queue = r ∷ q; inflight = none; next_id = next_id })
        ≡ some (promote now best, o.front ++ o.back))
unfolding take_next
take_next-Oldest now next_id r q w =
    let (best, found, o) = best_loop-Oldest r q in
    (best, o, rw (found, take_next) (rw (unlink-Oldest (r ∷ q) best o w.in_order) refl))

-- What the starvation guard changes is the priority of the request picked, and that is a
-- background poll only where nothing else is queued.
pub promote-last :
    (now : ℕ) (q : List AtReq) (best : AtReq)
    → Oldest q best
    → (promote now best).prio ≢ best.prio
    → All (λ (r : AtReq). 2 ≤ r.prio) q
unfolding promote
promote-last now q best o changed =
    elim (Bool-cases (best.prio == at_prio_poll && ltb atq_starve_ms (now - best.submit_ms))) [
      | inl starved ↦
          let poll : best.prio ≡ 2 = ground arith in
          subst (All (λ (r : AtReq). 2 ≤ r.prio)) (sym o.splits) (
            All-append (λ (r : AtReq). 2 ≤ r.prio) o.front (best ∷ o.back)
              (All-weaken o.front (λ r h. omega (arith, h, poll)) o.older_worse)
              (
                omega (arith, poll),
                All-weaken o.back (λ r h. omega (arith, h, poll)) o.none_better,
              ))
      | inr fresh ↦ absurd (changed (rw fresh refl))
    ]
