-- ===== src/Sched/Tests.antt =====
-- fm160d/src/sched.c: a scheduler with the table of the source, and the theorems about it.
use openwrt_fm.Base.{◌≤◌, true, false, ◌≡◌, refl, List, [], ◌∷◌, All}
use openwrt_fm.Sched.Breaker.{
  Consistent, refused, timed_out, Event, note_all, timeouts_since, note_all-Consistent,
}
use openwrt_fm.Sched.Timing.{note_result-due}
use openwrt_fm.Sched.{
  PollItem, Sched, poll_items, fm160_sched_note_result, fm160_sched_suspend, fm160_sched_kick,
}

abbrev pub idle_sched : Sched
idle_sched = record {
  items = poll_items;
  speed_factor = 1;
  poll_suspend_until_ms = 0;
  at_state = 0;
  consec_timeout = 0;
  last_fail_ms = 0;
  foreground = false;
  tier_scale = 1;
  port_found = true;
  enabled = true;
}

pub idle-Consistent : Consistent 0 idle_sched
idle-Consistent = record { count = refl; state = refl; speed = refl }

-- Two timeouts with a refusal between them.
abbrev two_timeouts : List Event
two_timeouts =
    record { now = 1000; report = timed_out }
    ∷ record { now = 2000; report = refused }
    ∷ record { now = 3000; report = timed_out }
    ∷ []

note_all-Consistent_example :
    Consistent (timeouts_since 0 two_timeouts) (note_all two_timeouts idle_sched)
note_all-Consistent_example = note_all-Consistent two_timeouts 0 idle_sched idle-Consistent

abbrev pub tired_sched : Sched
tired_sched = note_all two_timeouts idle_sched

pub tired-Consistent : Consistent 2 tired_sched
tired-Consistent = note_all-Consistent two_timeouts 0 idle_sched idle-Consistent

note_result-due_example :
    (timeouts_since 0 two_timeouts ≡ 2
      → ((fm160_sched_note_result 4000 false true tired_sched).poll_suspend_until_ms ≡ 64000)
        × All
            (λ (it : PollItem). it.next_ms ≡ 64000)
            (fm160_sched_note_result 4000 false true tired_sched).items)
    × (3 ≤ 2
        → All
            (λ (it : PollItem). it.next_ms ≤ 4000)
            (fm160_sched_note_result 4000 true false tired_sched).items)
note_result-due_example = note_result-due 4000 2 tired_sched tired-Consistent

-- The third timeout degrades the breaker; an answer before it starts the count again.
breaker_runs :
    ((fm160_sched_note_result 9000 false true tired_sched).at_state ≡ 1)
    × ((fm160_sched_note_result 9000 true false tired_sched).consec_timeout ≡ 0)
unfolding fm160_sched_note_result fm160_sched_suspend fm160_sched_kick
breaker_runs = (refl, refl)
