-- ===== src/Atq/Run.antt =====
-- fm160d/src/atq.c: `atq_dispatch`, `atq_finish` and the callbacks that submit further requests. A
-- callback is what it does to the scheduler and the orders that it submits.
pub mod Served
pub mod Kept
use openwrt_fm.Atq.Issue.{Wire, Call, Issued, atq_issue}
use openwrt_fm.Atq.{
  AtReq, Atq, AtStatus, at_ok, at_error, at_timeout, at_noport, Order, Gate, eagain, enospc, queued,
  take_next, atq_submit_full,
}
use openwrt_fm.Sched.{Sched, fm160_sched_note_result}
use openwrt_fm.Base.{
  ℕ, zero, suc, Bool, true, false, not, ◌&&◌, List, [], ◌∷◌, ◌++◌, Option, none, some, ◌==◌,
  if◌then◌else◌, Bytes, length,
}

-- What lies outside of the queue: `fm160_now_ms()` by the number of requests retired, the other side
-- of the wire, `atq_quiet_active()` by the time, and the callbacks.
pub record Plant : Type 0 where
  pub now : ℕ → ℕ
  pub wire : AtReq → Wire
  pub quiet : ℕ → Bool
  pub effect : AtReq → AtStatus → Option Bytes → Sched → Sched
  pub orders : AtReq → AtStatus → Option Bytes → List Order

-- The queue, the part of `g_state` that it reads and writes, the calls made so far, and the requests
-- retired with their status, in order.
pub record Line : Type 0 where
  pub atq : Atq
  pub sched : Sched
  pub calls : List Call
  pub retired : List (AtReq × AtStatus)

abbrev pub time_of : Plant → Line → ℕ
time_of p w = p.now (length w.retired)

abbrev pub gate_of : Plant → Line → Gate
gate_of p w = record {
  enabled = w.sched.enabled;
  port_found = w.sched.port_found;
  quiet = p.quiet (time_of p w);
  dead = w.sched.at_state == 2;
}

abbrev pub was_ok : AtStatus → Bool
was_ok at_ok = true
was_ok _ = false

abbrev pub was_timeout : AtStatus → Bool
was_timeout at_timeout = true
was_timeout _ = false

-- `atq_finish` up to the callback.
abbrev pub noted : Plant → AtReq → AtStatus → Line → Sched
noted p req status w =
    if req.silent
    then w.sched
    else fm160_sched_note_result (time_of p w) (was_ok status) (was_timeout status) w.sched

-- A request taken off the queue.
abbrev pub unqueued : List AtReq → Line → Line
unqueued rest w = record w { atq = record w.atq { queue = rest } }

abbrev pub in_flight : AtReq → List AtReq → Issued → Line → Line
in_flight req rest issued w = record w {
  atq = record w.atq { queue = rest; inflight = some req };
  calls = w.calls ++ issued.calls;
}

-- A request retired, before its callback submits anything.
abbrev pub retire : Plant → AtReq → AtStatus → Option Bytes → Sched → Line → Line
retire p req status resp sched w = record w {
  sched = p.effect req status resp sched;
  retired = w.retired ++ ((req, status) ∷ []);
}

abbrev pub released : Line → Line
released w = record w { atq = record w.atq { inflight = none } }

-- `atq_dispatch`, or the submissions of a callback, of which these are left.
pub data Work : Type 0 where
  dispatching : Work
  submitting : List Order → Work

-- There is no port for a request that does not name its own.
abbrev pub nowhere : AtReq → Line → Bool
nowhere req w = length req.port == 0 && not w.sched.port_found

-- `atq_dispatch` and the callbacks under it, on fuel.
unfoldable pub run : Plant → ℕ → Work → Line → Line
run p zero work w = w
run p (suc fuel) (submitting []) w = w
run p (suc fuel) (submitting (o ∷ os)) w =
    run p fuel (submitting os) (elim (atq_submit_full (time_of p w) (gate_of p w) o w.atq) [
      | eagain a ↦ record w { atq = a }
      | enospc a ↦ record w { atq = a }
      | queued a ↦ run p fuel dispatching (record w { atq = a })
    ])
run p (suc fuel) dispatching w = elim (take_next (time_of p w) w.atq) [
  | none ↦ w
  | some (best, rest) ↦ elim (nowhere best w) [
    | true ↦ run p fuel dispatching (
        run p fuel (submitting (p.orders best at_noport none))
          (retire p best at_noport none w.sched (unqueued rest w)))
    | false ↦ elim (atq_issue (p.wire best) best).ended [
      | none ↦ in_flight best rest (atq_issue (p.wire best) best) w
      | some (status, resp) ↦ run p fuel dispatching (
          released (
            run p fuel (submitting (p.orders best status resp)) (
              retire p best status resp (noted p best status w)
                (in_flight best rest (atq_issue (p.wire best) best) w))))
    ]
  ]
]
