-- ===== src/Atq/Invariant.antt =====
-- fm160d/src/atq.c: the queue after a submission, admitted or refused.
use mathlib.Core.Path.{subst}
use openwrt_fm.Atq.Bound.{unlink-Victim, replace_victim-Victim}
use openwrt_fm.Atq.Choice.{InOrder, IsQueue}
use openwrt_fm.Atq.{
  Order, new_req, at_payload_max, AtReq, Atq, Gate, Admission, eagain, enospc, queued, victim_loop,
  unlink, replace_victim, atq_submit_full, closed, atq_depth, atq_duplicate, atq_max_depth,
}
use openwrt_fm.Base.{
  ℕ, ◌+◌, ◌≤◌, ◌<◌, false, not, ◌≡◌, ap, ◌∙◌, inl, inr, List, [], ◌∷◌, ◌++◌, Option, arith, ltb,
  leb, ◌==◌, length, length-append, Bool-cases, All, All-append,
}

-- The queue after the submission.
abbrev pub state_of : Admission → Atq
state_of (eagain a) = a
state_of (enospc a) = a
state_of (queued a) = a

-- In order, and no more than `ATQ_MAX_DEPTH` requests with the one in flight.
pub record IsBounded (a : Atq) : Type 0 where
  pub queue : IsQueue a
  pub depth : atq_depth a ≤ 24

InOrder-lower : (q : List AtReq) (low low' : ℕ) → low' ≤ low → InOrder low q → InOrder low' q
InOrder-lower [] low low' le h = tt
InOrder-lower (r ∷ q) low low' le h = (omega (arith, h.0), h.1)

pub InOrder-unlink : (q : List AtReq) (low id : ℕ) → InOrder low q → InOrder low (unlink id q)
unfolding unlink
InOrder-unlink [] low id h = tt
InOrder-unlink (r ∷ q) low id h = elim (Bool-cases (r.id == id)) [
  | inl here ↦ rw here (InOrder-lower q (r.id + 1) low (omega (arith, h.0)) h.1)
  | inr there ↦ rw there (h.0, InOrder-unlink q (r.id + 1) id h.1)
]

pub All-unlink {κ} : (P : AtReq → Type κ) (q : List AtReq) (id : ℕ) → All P q → All P (unlink id q)
unfolding unlink
All-unlink P [] id h = tt
All-unlink P (r ∷ q) id h = elim (Bool-cases (r.id == id)) [
  | inl here ↦ rw here h.1
  | inr there ↦ rw there (h.0, All-unlink P q id h.1)
]

InOrder-append :
    (q : List AtReq) (low : ℕ) (req : AtReq)
    → InOrder low q
    → All (λ (r : AtReq). r.id < req.id) q
    → low ≤ req.id
    → InOrder low (q ++ (req ∷ []))
InOrder-append [] low req h a le = (le, tt)
InOrder-append (r ∷ q) low req h a le =
    (h.0, InOrder-append q (r.id + 1) req h.1 a.1 (omega (arith, a.0)))

All-later :
    (q : List AtReq) (n : ℕ) → All (λ (r : AtReq). r.id < n) q → All (λ (r : AtReq). r.id < n + 1) q
All-later [] n h = tt
All-later (r ∷ q) n h = (omega (arith, h.0), All-later q n h.1)

-- A request with the next id at the end.
appended-IsQueue :
    (q : List AtReq) (req : AtReq) (inflight : Option AtReq)
    → InOrder 0 q
    → All (λ (r : AtReq). r.id < req.id) q
    → IsQueue (record { queue = q ++ (req ∷ []); inflight = inflight; next_id = req.id + 1 })
appended-IsQueue q req inflight h a = record {
  in_order = InOrder-append q 0 req h a (omega arith);
  given_out =
      All-append (λ (r : AtReq). r.id < req.id + 1) q (req ∷ []) (All-later q req.id a)
        (omega arith, tt);
}

-- With the id given out, the queue itself as before.
counted-IsBounded :
    (q : List AtReq) (inflight : Option AtReq) (n : ℕ)
    → IsBounded (record { queue = q; inflight = inflight; next_id = n })
    → IsBounded (record { queue = q; inflight = inflight; next_id = n + 1 })
unfolding atq_depth
counted-IsBounded q inflight n b = record {
  queue = record { in_order = b.queue.in_order; given_out = All-later q n b.queue.given_out };
  depth = b.depth;
}

replace_victim-IsBounded :
    (q : List AtReq) (inflight : Option AtReq) (req : AtReq)
    → IsBounded (record { queue = q; inflight = inflight; next_id = req.id })
    → IsBounded (
        state_of
          (replace_victim req (record { queue = q; inflight = inflight; next_id = req.id + 1 })))
unfolding atq_depth
replace_victim-IsBounded [] inflight req b =
    unfold replace_victim in (unfold victim_loop in counted-IsBounded [] inflight req.id b)
replace_victim-IsBounded (r ∷ q) inflight req b =
    let (victim, v, taken, refused) =
      replace_victim-Victim req r q inflight (req.id + 1) b.queue.in_order in
    elim (Bool-cases (ltb req.prio victim.prio)) [
      | inl more ↦
          let gone = unlink-Victim (r ∷ q) victim v b.queue.in_order in
          let order =
            subst (InOrder 0) gone (InOrder-unlink (r ∷ q) 0 victim.id b.queue.in_order) in
          let ids =
            subst (All (λ (x : AtReq). x.id < req.id)) gone
              (All-unlink (λ (x : AtReq). x.id < req.id) (r ∷ q) victim.id b.queue.given_out) in
          let size = length-append (v.front ++ v.back) (req ∷ []) in
          let both = length-append v.front v.back in
          let before =
            ap (λ (xs : List AtReq). length xs) v.splits
            ∙ length-append v.front (victim ∷ v.back) in
          rw (taken (ground arith)) (record {
            queue = appended-IsQueue (v.front ++ v.back) req inflight order ids;
            depth = omega (arith, size, both, before, b.depth);
          })
      | inr less ↦ rw (refused (ground arith)) (counted-IsBounded (r ∷ q) inflight req.id b)
    ]

append-IsBounded :
    (q : List AtReq) (inflight : Option AtReq) (req : AtReq)
    → IsBounded (record { queue = q; inflight = inflight; next_id = req.id })
    → leb atq_max_depth (atq_depth (record { queue = q; inflight = inflight; next_id = req.id }))
      ≡ false
    → IsBounded (record { queue = q ++ (req ∷ []); inflight = inflight; next_id = req.id + 1 })
unfolding atq_depth
append-IsBounded q inflight req b room = record {
  queue = appended-IsQueue q req inflight b.queue.in_order b.queue.given_out;
  depth = ground (arith, length-append q (req ∷ []));
}

-- Whatever is submitted, admitted or refused, the queue stays in the order of the ids given out and
-- within `ATQ_MAX_DEPTH`.
pub atq_submit_full-IsBounded :
    (now : ℕ) (g : Gate) (o : Order) (queue : List AtReq) (inflight : Option AtReq) (next_id : ℕ)
    → IsBounded (record { queue = queue; inflight = inflight; next_id = next_id })
    → IsBounded (
        state_of (
          atq_submit_full now g o
            (record { queue = queue; inflight = inflight; next_id = next_id })))
unfolding atq_submit_full
atq_submit_full-IsBounded now g o queue inflight next_id b =
    let a : Atq = record { queue = queue; inflight = inflight; next_id = next_id } in
    let req = new_req now next_id o in
    elim (Bool-cases (not g.enabled)) [
      | inl off ↦ rw off b
      | inr on ↦ elim (Bool-cases (closed g o)) [
        | inl shut ↦ rw (on, shut) b
        | inr passed ↦ elim (Bool-cases (leb at_payload_max (length o.payload_hex))) [
          | inl long ↦ rw (on, passed, long) b
          | inr short ↦ elim (Bool-cases (atq_duplicate req a)) [
            | inl twice ↦
                rw (on, passed, short) (rw twice (counted-IsBounded queue inflight next_id b))
            | inr new ↦ elim (Bool-cases (leb atq_max_depth (atq_depth a))) [
              | inl full ↦
                  rw (on, passed, short)
                    (rw (new, full) (replace_victim-IsBounded queue inflight req b))
              | inr room ↦
                  rw (on, passed, short)
                    (rw (new, room) (append-IsBounded queue inflight req b room))
            ]
          ]
        ]
      ]
    ]
