-- ===== src/Sched/Breaker.antt =====
-- fm160d/src/sched.c, the circuit breaker in `fm160_sched_note_result`.
use openwrt_fm.Base.{
  ℕ, ◌+◌, Bool, true, false, ◌&&◌, ◌≡◌, refl, inl, inr, List, [], ◌∷◌, ◌==◌, ltb, leb,
  if◌then◌else◌, arith, Bool-cases,
}
use openwrt_fm.Sched.{
  Sched, fm160_sched_note_result, fm160_sched_suspend, fm160_sched_kick, probe_found,
  breaker_soft_limit, breaker_hard_limit,
}

-- The level for a number of timeouts in a row: working, degraded, dead.
abbrev pub level : ℕ → ℕ
level n = if ltb n 3 then 0 else if ltb n 10 then 1 else 2

-- How much slower the polls are.
abbrev pub slowdown : ℕ → ℕ
slowdown n = if ltb n 3 then 1 else if ltb n 10 then 2 else 4

-- State, speed and count belong together.
pub record Consistent (n : ℕ) (s : Sched) : Type 0 where
  pub count : s.consec_timeout ≡ n
  pub state : s.at_state ≡ level n
  pub speed : s.speed_factor ≡ slowdown n

-- What the queue reports of a request.
pub data Report : Type 0 where
  answered refused timed_out : Report

pub record Event : Type 0 where
  pub now : ℕ
  pub report : Report

abbrev pub note : Event → Sched → Sched
note e s = elim e.report [
  | answered ↦ fm160_sched_note_result e.now true false s
  | refused ↦ fm160_sched_note_result e.now false false s
  | timed_out ↦ fm160_sched_note_result e.now false true s
]

abbrev pub note_all : List Event → Sched → Sched
note_all [] s = s
note_all (e ∷ es) s = note_all es (note e s)

-- The timeouts since the last answer, `n` of them before; a refusal is no timeout and no answer.
abbrev pub timeouts_since : ℕ → List Event → ℕ
timeouts_since n [] = n
timeouts_since n (e ∷ es) =
    timeouts_since (elim e.report [ answered ↦ 0 | refused ↦ n | timed_out ↦ n + 1 ]) es

pub answered-Consistent :
    (now n : ℕ) (t : Bool) (s : Sched)
    → Consistent n s
    → Consistent 0 (fm160_sched_note_result now true t s)
unfolding fm160_sched_note_result fm160_sched_kick
answered-Consistent now n t s c = elim (Bool-cases (s.speed_factor == 1)) [
  | inl normal ↦ rw normal (record { count = refl; state = refl; speed = ground arith })
  | inr slow ↦ rw slow (record { count = refl; state = refl; speed = refl })
]

pub timed_out-Consistent :
    (now n : ℕ) (s : Sched)
    → Consistent n s
    → Consistent (n + 1) (fm160_sched_note_result now false true s)
unfolding fm160_sched_note_result fm160_sched_suspend
timed_out-Consistent now n s c =
    elim (Bool-cases (s.consec_timeout + 1 == breaker_soft_limit && ltb s.at_state 1)) [
      | inl soft ↦ rw soft (record {
        count = omega (arith, c.count);
        state = ground (arith, c.count);
        speed = ground (arith, c.count);
      })
      | inr not_soft ↦
          elim (Bool-cases (leb breaker_hard_limit (s.consec_timeout + 1) && ltb s.at_state 2)) [
            | inl hard ↦
                rw (not_soft, hard)
                  (record {
                    count = omega (arith, c.count);
                    state = ground (arith, c.count);
                    speed = ground (arith, c.count);
                  })
            | inr not_hard ↦
                rw (not_soft, not_hard)
                  (record {
                    count = omega (arith, c.count);
                    state = ground (arith, c.count, c.state);
                    speed = ground (arith, c.count, c.state, c.speed);
                  })
          ]
    ]

pub refused-Consistent :
    (now n : ℕ) (s : Sched)
    → Consistent n s
    → Consistent n (fm160_sched_note_result now false false s)
unfolding fm160_sched_note_result
refused-Consistent now n s c = record { count = c.count; state = c.state; speed = c.speed }

note-Consistent :
    (now n : ℕ) (r : Report) (s : Sched)
    → Consistent n s
    → Consistent
        (timeouts_since n (record { now = now; report = r } ∷ []))
        (note (record { now = now; report = r }) s)
note-Consistent now n answered s c = answered-Consistent now n false s c
note-Consistent now n refused s c = refused-Consistent now n s c
note-Consistent now n timed_out s c = timed_out-Consistent now n s c

-- After any history of reports the breaker is at the level of the timeouts since the last answer,
-- whatever refusals came in between, and the polls are slowed down accordingly.
pub note_all-Consistent :
    (es : List Event) (n : ℕ) (s : Sched)
    → Consistent n s
    → Consistent (timeouts_since n es) (note_all es s)
note_all-Consistent [] n s c = c
note_all-Consistent (e ∷ es) n s c =
    note_all-Consistent es _ (note e s) (note-Consistent e.now n e.report s c)

-- A port that answers puts the breaker back.
pub probe_found-Consistent : (now : ℕ) (s : Sched) → Consistent 0 (probe_found now s)
unfolding probe_found fm160_sched_kick
probe_found-Consistent now s = record { count = refl; state = refl; speed = refl }
