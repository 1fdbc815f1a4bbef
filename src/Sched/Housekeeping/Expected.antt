-- ===== src/Sched/Housekeeping/Expected.antt =====
-- fm160d/src/sched.c: what a pass is expected to do, in terms of the intervals of the items.
use openwrt_fm.Sched.{PollItem, Sched}
use openwrt_fm.Base.{
  ◌*◌, ◌/◌, ◌||◌, ℕ, ◌+◌, Bool, not, ◌&&◌, List, [], ◌∷◌, ltb, leb, ◌==◌, if◌then◌else◌,
}

-- The item is polled at all: it has an interval, and is not kept for the foreground.
abbrev pub takes_part : Sched → PollItem → Bool
takes_part s it = (ltb 0 it.idle_ms || ltb 0 it.active_ms) && (not it.active_only || s.foreground)

-- Its interval, 0 where it has none now: that of the foreground or of the background, times the factor
-- of the tier, shaken, times the factor of the breaker.
abbrev pub period_ms : (ℕ → ℕ) → Sched → PollItem → ℕ
period_ms jitter s it =
    let every = if s.foreground && ltb 0 it.active_ms then it.active_ms else it.idle_ms in
    if ltb 0 every
    then jitter (every * (if s.tier_scale == 0 then 1 else s.tier_scale)) * s.speed_factor
    else 0

-- The item is fired, or put off since the queue is long.
abbrev pub fires : ℕ → ℕ → Sched → PollItem → Bool
fires now depth s it = takes_part s it && leb it.next_ms now && ltb depth 3

abbrev pub skips : ℕ → ℕ → Sched → PollItem → Bool
skips now depth s it = takes_part s it && leb it.next_ms now && not (ltb depth 3)

-- An item behind the pass.
abbrev pub passed : (ℕ → ℕ) → ℕ → ℕ → Sched → PollItem → PollItem
passed jitter now depth s it =
    let period = period_ms jitter s it in
    if fires now depth s it
    then record it {
      fires = it.fires + 1;
      last_fire_ms = now;
      next_ms = now + (if ltb 0 period then period else 1000);
    }
    else if skips now depth s it
    then record it {
      skips = it.skips + 1;
      next_ms = now + (if ltb 0 period then period / 2 else 1000);
    }
    else it

abbrev pub passed_all : (ℕ → ℕ) → (ℕ → ℕ) → ℕ → Sched → ℕ → List PollItem → List PollItem
passed_all jitter depth now s i [] = []
passed_all jitter depth now s i (it ∷ its) =
    passed jitter now (depth i) s it ∷ passed_all jitter depth now s (i + 1) its

abbrev pub fired_keys : (ℕ → ℕ) → ℕ → Sched → ℕ → List PollItem → List ℕ
fired_keys depth now s i [] = []
fired_keys depth now s i (it ∷ its) =
    if fires now (depth i) s it
    then it.key ∷ fired_keys depth now s (i + 1) its
    else fired_keys depth now s (i + 1) its

abbrev pub key_of : ℕ → ℕ → Sched → PollItem → List ℕ
key_of now depth s it = if fires now depth s it then it.key ∷ [] else []
