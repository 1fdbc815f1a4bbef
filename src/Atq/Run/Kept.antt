-- ===== src/Atq/Run/Kept.antt =====
-- fm160d/src/atq.c and the breaker of fm160d/src/sched.c: what every run of the queue keeps.
use mathlib.Core.Path.{subst}
use openwrt_fm.Atq.Run.Served.{rest-IsQueue, length-Oldest, resting}
use openwrt_fm.Atq.Choice.{Oldest, take_next-Oldest, unlink-Oldest}
use openwrt_fm.Atq.Twins.{Twinless, Twinless-unlink, atq_submit_full-Twinless}
use openwrt_fm.Atq.Invariant.{IsBounded, state_of, atq_submit_full-IsBounded}
use openwrt_fm.Atq.Issue.{Call, atq_issue}
use openwrt_fm.Atq.Run.{
  Plant, Line, Work, dispatching, submitting, run, nowhere, retire, unqueued, in_flight, released,
  noted, time_of, gate_of, was_ok, was_timeout,
}
use openwrt_fm.Atq.{
  AtReq, Atq, AtStatus, at_ok, at_error, at_timeout, at_noport, Order, Admission, eagain, enospc,
  queued, take_next, best_loop, promote, atq_submit_full, atq_depth,
}
use openwrt_fm.Sched.Breaker.{
  Consistent, answered-Consistent, refused-Consistent, timed_out-Consistent,
}
use openwrt_fm.Sched.{Sched, fm160_sched_note_result}
use openwrt_fm.Base.{
  ℕ, zero, suc, ◌+◌, ◌≤◌, ◌<◌, false, ◌≡◌, refl, ◌⊎◌, inl, inr, List, [], ◌∷◌, ◌++◌, Option, none,
  some, arith, length, Bool-cases, Option-cases, Bytes,
}

-- The fields of the breaker agree, for some number of timeouts in a row.
abbrev pub InStep : Sched → Type 0
InStep s = (m : ℕ) × Consistent m s

-- What the callbacks do to the scheduler leaves the breaker's fields in agreement.
abbrev pub KeepsBreaker : Plant → Type 0
KeepsBreaker p =
    (r : AtReq) (st : AtStatus) (resp : Option Bytes) (s : Sched)
    → InStep s
    → InStep (p.effect r st resp s)

-- The queue is in order, bounded and without twins, and the breaker's fields agree.
pub record IsSound (w : Line) : Type 0 where
  pub bounded : IsBounded w.atq
  pub twinless : Twinless w.atq.queue
  pub in_step : InStep w.sched

noted-InStep :
    (p : Plant) (req : AtReq) (st : AtStatus) (w : Line)
    → InStep w.sched
    → InStep (noted p req st w)
noted-InStep p req st w (m, c) = elim (Bool-cases req.silent) [
  | inl silent ↦ rw silent (m, c)
  | inr loud ↦ rw loud (by_status st)
]
  where
    by_status :
        (st : AtStatus)
        → InStep (fm160_sched_note_result (time_of p w) (was_ok st) (was_timeout st) w.sched)
    by_status at_ok = (0, answered-Consistent (time_of p w) m false w.sched c)
    by_status at_error = (m, refused-Consistent (time_of p w) m w.sched c)
    by_status at_timeout = (m + 1, timed_out-Consistent (time_of p w) m w.sched c)
    by_status at_noport = (m, refused-Consistent (time_of p w) m w.sched c)

within :
    (n : ℕ) (inflight : Option AtReq) → n < 24 → elim inflight [ none ↦ 0 | some _ ↦ 1 ] + n ≤ 24
within n none lt = omega (arith, lt)
within n (some r) lt = omega (arith, lt)

-- A request is picked: the state with it in flight, or dropped.
picked-IsSound :
    (queue : List AtReq) (k : ℕ) (best : AtReq) (o : Oldest queue best) (inflight : Option AtReq)
    → IsBounded (record { queue = queue; inflight = none; next_id = k })
    → Twinless queue
    → IsBounded (record { queue = o.front ++ o.back; inflight = inflight; next_id = k })
      × Twinless (o.front ++ o.back)
unfolding atq_depth
picked-IsSound queue k best o inflight b t =
    let left = rest-IsQueue queue best o k b.queue in
    let depth : 0 + length queue ≤ 24 = b.depth in
    let shorter = length-Oldest queue best o in
    (
      record {
        queue = record { in_order = left.in_order; given_out = left.given_out };
        depth = within (length (o.front ++ o.back)) inflight (omega (arith, depth, shorter));
      },
      subst Twinless (unlink-Oldest queue best o b.queue.in_order)
          (Twinless-unlink queue best.id t),
    )

released-IsBounded :
    (queue : List AtReq) (inflight : Option AtReq) (k : ℕ)
    → IsBounded (record { queue = queue; inflight = inflight; next_id = k })
    → IsBounded (record { queue = queue; inflight = none; next_id = k })
unfolding atq_depth
released-IsBounded queue none k b = b
released-IsBounded queue (some r) k b = record {
  queue = record { in_order = b.queue.in_order; given_out = b.queue.given_out };
  depth = omega (arith, b.depth);
}

released-IsSound : (w : Line) → IsSound w → IsSound (released w)
released-IsSound w h = record {
  bounded = released-IsBounded w.atq.queue w.atq.inflight w.atq.next_id h.bounded;
  twinless = h.twinless;
  in_step = h.in_step;
}

submitted-IsSound :
    (p : Plant) (o : Order) (w : Line)
    → IsSound w
    → IsSound (record w { atq = state_of (atq_submit_full (time_of p w) (gate_of p w) o w.atq) })
submitted-IsSound p o w h = record {
  bounded =
      atq_submit_full-IsBounded (time_of p w) (gate_of p w) o w.atq.queue w.atq.inflight
        w.atq.next_id h.bounded;
  twinless =
      atq_submit_full-Twinless (time_of p w) (gate_of p w) o w.atq.queue w.atq.inflight
        w.atq.next_id h.twinless;
  in_step = h.in_step;
}

Admission-cases :
    (x : Admission)
    → ((a : Atq) × (x ≡ eagain a)) ⊎ (((a : Atq) × (x ≡ enospc a)) ⊎ ((a : Atq) × (x ≡ queued a)))
Admission-cases (eagain a) = inl (a, refl)
Admission-cases (enospc a) = inr (inl (a, refl))
Admission-cases (queued a) = inr (inr (a, refl))

retire-IsSound :
    (p : Plant) (req : AtReq) (st : AtStatus) (resp : Option Bytes) (sched : Sched) (w : Line)
    → KeepsBreaker p
    → IsSound w
    → InStep sched
    → IsSound (retire p req st resp sched w)
retire-IsSound p req st resp sched w keeps h c = record {
  bounded = h.bounded;
  twinless = h.twinless;
  in_step = keeps req st resp sched c;
}

-- One order of a callback, with what the rest of the run keeps.
order-IsSound :
    (p : Plant) (n : ℕ) (o : Order) (os : List Order) (w : Line)
    → ((work : Work) (v : Line) → IsSound v → IsSound (run p n work v))
    → IsSound w
    → IsSound (run p (suc n) (submitting (o ∷ os)) w)
unfolding run
order-IsSound p n o os w ih h =
    let x = atq_submit_full (time_of p w) (gate_of p w) o w.atq in
    let after = submitted-IsSound p o w h in
    elim (Admission-cases x) [
      | inl (a, e) ↦ rw (e, run) (ih (submitting os) (record w { atq = a }) (rw e at after))
      | inr (inl (a, e)) ↦ rw (e, run) (ih (submitting os) (record w { atq = a }) (rw e at after))
      | inr (inr (a, e)) ↦
          rw (e, run)
            (ih (submitting os) (run p n dispatching (record w { atq = a }))
              (ih dispatching (record w { atq = a }) (rw e at after)))
    ]

-- One round of the dispatcher with a request queued and nothing in flight.
round-IsSound :
    (p : Plant) (n : ℕ) (r : AtReq) (q : List AtReq) (k : ℕ) (s : Sched) (c : List Call)
    (d : List (AtReq × AtStatus))
    → KeepsBreaker p
    → ((work : Work) (v : Line) → IsSound v → IsSound (run p n work v))
    → IsSound (resting (r ∷ q) k s c d)
    → IsSound (run p (suc n) dispatching (resting (r ∷ q) k s c d))
unfolding run
round-IsSound p n r q k s c d keeps ih h =
    let w = resting (r ∷ q) k s c d in
    let (best, o, picked) = take_next-Oldest (time_of p w) k r q h.bounded.queue in
    let req = promote (time_of p w) best in
    let rest = o.front ++ o.back in
    let off = picked-IsSound (r ∷ q) k best o none h.bounded h.twinless in
    let on = picked-IsSound (r ∷ q) k best o (some req) h.bounded h.twinless in
    elim (Bool-cases (nowhere req w)) [
      | inl shut ↦
          let dropped : IsSound (unqueued rest w) = record {
            bounded = off.0;
            twinless = off.1;
            in_step = h.in_step;
          } in
          rw (picked, run)
            (rw shut (
              ih dispatching _ (
                ih (submitting (p.orders req at_noport none)) _ (
                  retire-IsSound p req at_noport none s (unqueued rest w) keeps dropped
                    h.in_step))))
      | inr onward ↦
          let issued = atq_issue (p.wire req) req in
          let sent : IsSound (in_flight req rest issued w) = record {
            bounded = on.0;
            twinless = on.1;
            in_step = h.in_step;
          } in
          elim (Option-cases issued.ended) [
            | inl hung ↦ rw (picked, run) (rw (onward, hung) sent)
            | inr ((st, resp), ended) ↦
                let done =
                  retire-IsSound p req st resp (noted p req st w) (in_flight req rest issued w)
                    keeps sent (noted-InStep p req st w h.in_step) in
                rw (picked, run)
                  (rw (onward, ended)
                    (ih dispatching _
                      (released-IsSound _ (ih (submitting (p.orders req st resp)) _ done))))
          ]
    ]

dispatch-IsSound :
    (p : Plant) (n : ℕ) (queue : List AtReq) (inflight : Option AtReq) (k : ℕ) (s : Sched)
    (c : List Call) (d : List (AtReq × AtStatus))
    → KeepsBreaker p
    → ((work : Work) (v : Line) → IsSound v → IsSound (run p n work v))
    → IsSound (record {
      atq = record { queue = queue; inflight = inflight; next_id = k };
      sched = s;
      calls = c;
      retired = d;
    })
    → IsSound (
        run p (suc n) dispatching (record {
          atq = record { queue = queue; inflight = inflight; next_id = k };
          sched = s;
          calls = c;
          retired = d;
        }))
unfolding run take_next best_loop
dispatch-IsSound p n queue (some r) k s c d keeps ih h = h
dispatch-IsSound p n [] none k s c d keeps ih h = h
dispatch-IsSound p n (r ∷ q) none k s c d keeps ih h = round-IsSound p n r q k s c d keeps ih h

-- Whatever callbacks submit and however requests end, a run of any length leaves a queue in order, of
-- no more than 24 requests with the one in flight, without two polls of the same command, and a
-- breaker whose state, speed and count agree, if it started so and the callbacks leave the breaker so.
pub run-IsSound :
    (p : Plant) (fuel : ℕ) (work : Work) (w : Line)
    → KeepsBreaker p
    → IsSound w
    → IsSound (run p fuel work w)
unfolding run
run-IsSound p zero work w keeps h = h
run-IsSound p (suc n) (submitting []) w keeps h = h
run-IsSound p (suc n) (submitting (o ∷ os)) w keeps h =
    order-IsSound p n o os w (λ work v. run-IsSound p n work v keeps) h
run-IsSound p (suc n) dispatching w keeps h =
    dispatch-IsSound p n w.atq.queue w.atq.inflight w.atq.next_id w.sched w.calls w.retired keeps
      (λ work v. run-IsSound p n work v keeps) h
