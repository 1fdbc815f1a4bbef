-- ===== src/Sched.antt =====
-- fm160d/src/sched.c, the polling scheduler: `struct poll_item`, the timing of its items, the circuit
-- breaker and what a port found does to it. The statics of sched.c and the fields of `g_state`
-- that it uses are one record. `now` is `fm160_now_ms()` and `jitter` the product with
-- `0.8 + 0.4 * rand01()`, a floating-point number of the C library, cast to `int`. Times and
-- intervals are far below the limits of their types; log lines and `fm160_state_mark_dirty` are
-- left out.
pub mod Breaker
pub mod Timing
pub mod Ports
pub mod Housekeeping
pub mod Tests
mod PassTests
use openwrt_fm.Base.{
  ℕ, ◌+◌, ◌*◌, Bool, true, false, not, ◌&&◌, List, [], ◌∷◌, map, ◌==◌, ltb, leb, if◌then◌else◌,
}

-- `BREAKER_SOFT_LIMIT`, `BREAKER_HARD_LIMIT` and `BREAKER_SOFT_HOLD_S`.
abbrev pub breaker_soft_limit : ℕ
breaker_soft_limit = 3

abbrev pub breaker_hard_limit : ℕ
breaker_hard_limit = 10

abbrev pub breaker_soft_hold_s : ℕ
breaker_soft_hold_s = 60

-- `UINT64_MAX`.
abbrev pub uint64_max : ℕ
uint64_max = 18446744073709551615

-- `key` stands for the name and the callback.
pub record PollItem : Type 0 where
  pub key : ℕ
  pub active_only : Bool
  pub idle_ms : ℕ
  pub active_ms : ℕ
  pub next_ms : ℕ
  pub last_fire_ms : ℕ
  pub fires : ℕ
  pub skips : ℕ

pub record Sched : Type 0 where
  pub items : List PollItem
  pub speed_factor : ℕ
  pub poll_suspend_until_ms : ℕ
  pub at_state : ℕ
  pub consec_timeout : ℕ
  pub last_fail_ms : ℕ
  pub foreground : Bool
  pub tier_scale : ℕ
  pub port_found : Bool
  pub enabled : Bool

abbrev pub row : ℕ → Bool → ℕ → ℕ → PollItem
row key active_only idle_ms active_ms = record {
  key = key;
  active_only = active_only;
  idle_ms = idle_ms;
  active_ms = active_ms;
  next_ms = 0;
  last_fire_ms = 0;
  fires = 0;
  skips = 0;
}

-- The table `items`: reg, signal, cell, gtact, celllock, ca, gpspower, gnss.
abbrev pub poll_items : List PollItem
poll_items =
    row 0 false 15000 5000
    ∷ row 1 true 0 10000
    ∷ row 2 true 0 10000
    ∷ row 3 false 600000 15000
    ∷ row 4 false 600000 15000
    ∷ row 5 true 0 15000
    ∷ row 6 false 600000 15000
    ∷ row 7 true 0 5000
    ∷ []

unfoldable pub item_base_ms : (ℕ → ℕ) → Sched → PollItem → ℕ
item_base_ms jitter s it =
    let base = if s.foreground && not (it.active_ms == 0) then it.active_ms else it.idle_ms in
    if base == 0
    then 0
    else jitter (base * (if ltb 0 s.tier_scale then s.tier_scale else 1)) * s.speed_factor

unfoldable pub item_arm : (ℕ → ℕ) → ℕ → Sched → PollItem → PollItem
item_arm jitter now s it =
    let base = item_base_ms jitter s it in
    if base == 0 then record it { next_ms = uint64_max } else record it { next_ms = now + base }

unfoldable pub fm160_sched_suspend : ℕ → ℕ → Sched → Sched
fm160_sched_suspend now seconds s =
    let until = now + seconds * 1000 in
    record s {
      poll_suspend_until_ms = until;
      items = map (λ (it : PollItem). record it { next_ms = until }) s.items;
    }

unfoldable pub kick_item : ℕ → PollItem → PollItem
kick_item now it = if ltb now it.next_ms then record it { next_ms = now } else it

unfoldable pub fm160_sched_kick : ℕ → Sched → Sched
fm160_sched_kick now s = record s { items = map (kick_item now) s.items }

unfoldable pub fm160_sched_note_result : ℕ → Bool → Bool → Sched → Sched
fm160_sched_note_result now true timeout s =
    let s' = record s { consec_timeout = 0; at_state = 0 } in
    if s.speed_factor == 1 then s' else fm160_sched_kick now (record s' { speed_factor = 1 })
fm160_sched_note_result now false false s = record s { last_fail_ms = now }
fm160_sched_note_result now false true s =
    let s' = record s { last_fail_ms = now; consec_timeout = s.consec_timeout + 1 } in
    if s'.consec_timeout == breaker_soft_limit && ltb s.at_state 1
    then fm160_sched_suspend now breaker_soft_hold_s (record s' { at_state = 1; speed_factor = 2 })
    else if leb breaker_hard_limit s'.consec_timeout && ltb s.at_state 2
    then record s' { at_state = 2; speed_factor = 4 }
    else s'

-- What `probe_cb` does to the scheduler when a port answers.
unfoldable pub probe_found : ℕ → Sched → Sched
probe_found now s =
    fm160_sched_kick now
      (record s { port_found = true; at_state = 0; consec_timeout = 0; speed_factor = 1 })
