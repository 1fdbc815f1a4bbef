-- ===== src/Atq/Tests.antt =====
-- fm160d/src/atq.c: a queue of three requests, and the theorems about it.
use openwrt_fm.Atq.Bound.{Victim, replace_victim-Victim}
use openwrt_fm.Atq.Choice.{Oldest, IsQueue, take_next-Oldest}
use openwrt_fm.Atq.{
  AtReq, Atq, enospc, queued, promote, take_next, best_loop, victim_loop, unlink, replace_victim,
}
use openwrt_fm.Base.{ℕ, ◌≤◌, ◌<◌, false, ◌≡◌, refl, List, [], ◌∷◌, ◌++◌, none, some, arith, codes}

abbrev pub request : ℕ → ℕ → AtReq
request prio id = record {
  prio = prio;
  id = id;
  submit_ms = 0;
  cmd = codes "AT+CSQ";
  end_flag = [];
  timeout_ms = 3000;
  silent = false;
  prompt = [];
  payload_hex = [];
  port = [];
}

-- Two polls with a command of the dialler between them.
abbrev pub three : List AtReq
three = request 2 1 ∷ request 1 2 ∷ request 2 3 ∷ []

abbrev pub three_queued : Atq
three_queued = record { queue = three; inflight = none; next_id = 4 }

pub three-IsQueue : IsQueue three_queued
three-IsQueue = record { in_order = omega arith; given_out = omega arith }

take_next-Oldest_example :
    (best : AtReq) × (o : Oldest three best) × (take_next 40000 three_queued
      ≡ some (promote 40000 best, o.front ++ o.back))
take_next-Oldest_example =
    take_next-Oldest 40000 4 (request 2 1) (request 1 2 ∷ request 2 3 ∷ []) three-IsQueue

-- The dialler's command goes first although the first poll has waited for 40 seconds.
urgent_first : take_next 40000 three_queued ≡ some (request 1 2, request 2 1 ∷ request 2 3 ∷ [])
unfolding take_next best_loop unlink promote
urgent_first = refl

replace_victim-Victim_example :
    (victim : AtReq) × (v : Victim three victim) × (0 < victim.prio
      → replace_victim (request 0 4) (record { queue = three; inflight = none; next_id = 5 })
        ≡ queued (record {
          queue = (v.front ++ v.back) ++ (request 0 4 ∷ []);
          inflight = none;
          next_id = 5;
        }))
    × (victim.prio ≤ 0
        → replace_victim (request 0 4) (record { queue = three; inflight = none; next_id = 5 })
          ≡ enospc (record { queue = three; inflight = none; next_id = 5 }))
replace_victim-Victim_example =
    replace_victim-Victim (request 0 4) (request 2 1) (request 1 2 ∷ request 2 3 ∷ []) none 5
      (omega arith)

-- The oldest of the polls is dropped, not the youngest.
oldest_dropped :
    replace_victim (request 0 4) (record { queue = three; inflight = none; next_id = 5 })
    ≡ queued (record {
      queue = request 1 2 ∷ request 2 3 ∷ request 0 4 ∷ [];
      inflight = none;
      next_id = 5;
    })
unfolding replace_victim victim_loop unlink
oldest_dropped = refl
