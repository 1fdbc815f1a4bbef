-- ===== src/Atq/Run/Served.antt =====
-- fm160d/src/atq.c: which requests `atq_dispatch` retires, and in which order.
use mathlib.Core.Path.{subst}
use mathlib.Core.List.{append-nil, append_assoc}
use openwrt_fm.Atq.Invariant.{InOrder-unlink, All-unlink}
use openwrt_fm.Atq.Choice.{Oldest, InOrder, IsQueue, take_next-Oldest, unlink-Oldest}
use openwrt_fm.Atq.Issue.{Call, atq_issue}
use openwrt_fm.Sched.{Sched}
use openwrt_fm.Atq.Run.{
  Plant, Line, dispatching, submitting, run, nowhere, retire, unqueued, in_flight, released, noted,
  time_of,
}
use openwrt_fm.Atq.{
  AtReq, AtStatus, at_noport, promote, take_next, best_loop, at_prio_poll, atq_starve_ms,
}
use openwrt_fm.Base.{
  ℕ, zero, suc, true, false, ◌≡◌, refl, sym, ap, ◌∙◌, inl, inr, List, [], ◌∷◌, ◌++◌, Option, none,
  some, arith, All, ◌&&◌, ◌<◌, ◌-◌, ltb, ◌==◌, length, length-append, Bool-cases, Bytes,
}

-- The ids of a queue in the order in which it should be served: each time the oldest of the most
-- urgent requests.
pub data InTurn : List AtReq → List ℕ → Type 0 where
  nobody : InTurn [] []
  next :
      {q : List AtReq} {best : AtReq} {ids : List ℕ}
      → (o : Oldest q best) → InTurn (o.front ++ o.back) ids
      → InTurn q (best.id ∷ ids)

-- The callbacks submit nothing.
abbrev pub IsQuiet : Plant → Type 0
IsQuiet p = (r : AtReq) (s : AtStatus) (resp : Option Bytes) → p.orders r s resp ≡ []

-- Every request issued comes to an end.
abbrev pub Answers : Plant → Type 0
Answers p =
    (r : AtReq)
    → (s : AtStatus) × (resp : Option Bytes) × ((atq_issue (p.wire r) r).ended ≡ some (s, resp))

abbrev pub ids_of : List (AtReq × AtStatus) → List ℕ
ids_of [] = []
ids_of ((r, s) ∷ done) = r.id ∷ ids_of done

-- Nothing is left, and the ids retired are those from before and these.
pub record IsServed (w w' : Line) (ids : List ℕ) : Type 0 where
  pub empty : w'.atq.queue ≡ []
  pub free : w'.atq.inflight ≡ none
  pub retired : ids_of w'.retired ≡ ids_of w.retired ++ ids

ids_of-append :
    (done more : List (AtReq × AtStatus)) → ids_of (done ++ more) ≡ ids_of done ++ ids_of more
ids_of-append [] more = refl
ids_of-append ((r, s) ∷ done) more = ap (λ (t : List ℕ). r.id ∷ t) (ids_of-append done more)

run-nothing : (p : Plant) (fuel : ℕ) (w : Line) → run p fuel (submitting []) w ≡ w
unfolding run
run-nothing p zero w = refl
run-nothing p (suc fuel) w = refl

id-promote : (now : ℕ) (best : AtReq) → (promote now best).id ≡ best.id
unfolding promote
id-promote now best =
    elim (Bool-cases (best.prio == at_prio_poll && ltb atq_starve_ms (now - best.submit_ms))) [
      | inl starved ↦ rw starved refl
      | inr fresh ↦ rw fresh refl
    ]

-- The queue that is left behind one that was picked.
pub rest-IsQueue :
    (q : List AtReq) (best : AtReq) (o : Oldest q best) (k : ℕ)
    → IsQueue (record { queue = q; inflight = none; next_id = k })
    → IsQueue (record { queue = o.front ++ o.back; inflight = none; next_id = k })
rest-IsQueue q best o k h =
    let gone = unlink-Oldest q best o h.in_order in
    record {
      in_order = subst (InOrder 0) gone (InOrder-unlink q 0 best.id h.in_order);
      given_out =
          subst (All (λ (r : AtReq). r.id < k)) gone
            (All-unlink (λ (r : AtReq). r.id < k) q best.id h.given_out);
    }

pub length-Oldest :
    (q : List AtReq) (best : AtReq) (o : Oldest q best)
    → length q ≡ suc (length (o.front ++ o.back))
length-Oldest q best o = omega (
  arith,
  ap (λ (t : List AtReq). length t) o.splits,
  length-append o.front (best ∷ o.back),
  length-append o.front o.back,
)

-- One more request in front of those served later.
IsServed-next :
    (w w1 w' : Line) (best : AtReq) (now : ℕ) (st : AtStatus) (ids : List ℕ)
    → w1.retired ≡ w.retired ++ ((promote now best, st) ∷ [])
    → IsServed w1 w' ids
    → IsServed w w' (best.id ∷ ids)
IsServed-next w w1 w' best now st ids e s = record {
  empty = s.empty;
  free = s.free;
  retired =
      s.retired
      ∙ ap (λ (t : List ℕ). t ++ ids)
          (ap ids_of e
            ∙ ids_of-append w.retired ((promote now best, st) ∷ [])
            ∙ ap (λ (t : ℕ). ids_of w.retired ++ (t ∷ [])) (id-promote now best))
      ∙ append_assoc (ids_of w.retired) (best.id ∷ []) ids;
}

-- The round of one request: without a port, and over the wire.
run-nowhere :
    (p : Plant) (fuel : ℕ) (w : Line) (best : AtReq) (rest : List AtReq)
    → IsQuiet p
    → take_next (time_of p w) w.atq ≡ some (best, rest)
    → nowhere best w ≡ true
    → run p (suc fuel) dispatching w
      ≡ run p fuel dispatching (retire p best at_noport none w.sched (unqueued rest w))
unfolding run
run-nowhere p fuel w best rest quiet picked shut =
    rw (picked, run)
      (rw shut (
        rw (quiet best at_noport none) (
          ap (run p fuel dispatching)
            (run-nothing p fuel (retire p best at_noport none w.sched (unqueued rest w))))))

run-issued :
    (p : Plant) (fuel : ℕ) (w : Line) (best : AtReq) (rest : List AtReq) (st : AtStatus)
    (resp : Option Bytes)
    → IsQuiet p
    → take_next (time_of p w) w.atq ≡ some (best, rest)
    → nowhere best w ≡ false
    → (atq_issue (p.wire best) best).ended ≡ some (st, resp)
    → run p (suc fuel) dispatching w
      ≡ run p fuel dispatching (
          released (
            retire p best st resp
              (noted p best st w)
              (in_flight best rest (atq_issue (p.wire best) best) w)))
unfolding run
run-issued p fuel w best rest st resp quiet picked onward ended =
    rw (picked, run)
      (rw (onward, ended)
        (rw (quiet best st resp) (
          ap (λ (t : Line). run p fuel dispatching (released t))
            (run-nothing p fuel (
              retire p best st resp (noted p best st w)
                (in_flight best rest (atq_issue (p.wire best) best) w))))))

-- A state with nothing in flight.
abbrev pub resting : List AtReq → ℕ → Sched → List Call → List (AtReq × AtStatus) → Line
resting queue next_id sched calls retired = record {
  atq = record { queue = queue; inflight = none; next_id = next_id };
  sched = sched;
  calls = calls;
  retired = retired;
}

run-nobody :
    (p : Plant) (n k : ℕ) (s : Sched) (c : List Call) (d : List (AtReq × AtStatus))
    → IsServed (resting [] k s c d) (run p (suc n) dispatching (resting [] k s c d)) []
unfolding run take_next best_loop
run-nobody p n k s c d = record { empty = refl; free = refl; retired = sym (append-nil (ids_of d)) }

-- With callbacks that submit nothing and a transport that answers, `atq_dispatch` needs one round for
-- each queued request and one more. It leaves nothing queued or in flight, and retires every request
-- once, each time the oldest of the most urgent ones left.
pub run-IsServed :
    (p : Plant) (n : ℕ) (q : List AtReq) (k : ℕ) (s : Sched) (c : List Call)
    (d : List (AtReq × AtStatus))
    → IsQuiet p
    → Answers p
    → IsQueue (record { queue = q; inflight = none; next_id = k })
    → length q < n
    → (ids : List ℕ) × InTurn q ids
      × IsServed (resting q k s c d) (run p n dispatching (resting q k s c d)) ids
run-IsServed p zero q k s c d quiet answers ordered enough = absurd (omega (arith, enough))
run-IsServed p (suc n) [] k s c d quiet answers ordered enough =
    ([], nobody, run-nobody p n k s c d)
run-IsServed p (suc n) (r ∷ q) k s c d quiet answers ordered enough =
    let w = resting (r ∷ q) k s c d in
    let (best, o, picked) = take_next-Oldest (time_of p w) k r q ordered in
    let req = promote (time_of p w) best in
    let shorter : length (o.front ++ o.back) < n =
      omega (arith, length-Oldest (r ∷ q) best o, enough) in
    let left = rest-IsQueue (r ∷ q) best o k ordered in
    elim (Bool-cases (nowhere req w)) [
      | inl shut ↦
          let w1 = retire p req at_noport none s (unqueued (o.front ++ o.back) w) in
          let (ids, turn, served) =
            run-IsServed p n (o.front ++ o.back) k w1.sched w1.calls w1.retired quiet answers left
              shorter in
          (
            best.id ∷ ids,
            next o turn,
            rw (run-nowhere p n w req (o.front ++ o.back) quiet picked shut) (
                IsServed-next w w1 (run p n dispatching w1) best (time_of p w) at_noport ids refl
                  served),
          )
      | inr onward ↦
          let (st, resp, ended) = answers req in
          let w1 = released (
            retire p req st resp (noted p req st w)
              (in_flight req (o.front ++ o.back) (atq_issue (p.wire req) req) w)) in
          let (ids, turn, served) =
            run-IsServed p n (o.front ++ o.back) k w1.sched w1.calls w1.retired quiet answers left
              shorter in
          (
            best.id ∷ ids,
            next o turn,
            rw (run-issued p n w req (o.front ++ o.back) st resp quiet picked onward ended)
                (IsServed-next w w1 (run p n dispatching w1) best (time_of p w) st ids refl served),
          )
    ]
