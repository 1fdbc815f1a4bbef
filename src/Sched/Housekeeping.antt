-- ===== src/Sched/Housekeeping.antt =====
-- fm160d/src/sched.c: `item_enabled` and `housekeeping`, the pass that runs once a second. What a
-- polled request does to the scheduler is an argument, since `fire` runs the request to its end: the
-- answer or its absence reaches the breaker, which may put all items off. So is the queue's depth, and
-- what the parts of the daemon do that have their own tick: netdev, SMS, dialler and mode switch.
pub mod Pass
pub mod Expected
pub mod Calm
use openwrt_fm.Sched.Ports.{Ports, Tty, Probe, port_discovery_tick}
use openwrt_fm.Sched.{PollItem, Sched, item_base_ms, fm160_sched_kick}
use openwrt_fm.Atq.Quiet.{Quiet, atq_clear_quiet}
use openwrt_fm.Base.{
  ℕ, zero, suc, ◌+◌, ◌-◌, ◌/◌, Bool, true, false, not, ◌&&◌, ◌||◌, List, [], ◌∷◌, ◌++◌, Option,
  none, some, ◌==◌, ltb, leb, if◌then◌else◌, Bytes, length, set,
}

-- `FOREGROUND_HOLD_MS`.
abbrev pub foreground_hold_ms : ℕ
foreground_hold_ms = 30000

unfoldable pub item_enabled : Sched → PollItem → Bool
item_enabled s it =
    if it.idle_ms == 0 && it.active_ms == 0
    then false
    else if it.active_only && not s.foreground
    then false
    else true

-- The scheduler, and the keys of the items fired so far.
pub record Polls : Type 0 where
  pub sched : Sched
  pub fired : List ℕ

abbrev pub item_at : List PollItem → ℕ → Option PollItem
item_at [] i = none
item_at (it ∷ its) zero = some it
item_at (it ∷ its) (suc i) = item_at its i

abbrev pub put_item : ℕ → PollItem → Polls → Polls
put_item i it w = record w { sched = record w.sched { items = set w.sched.items i it } }

-- The item as `fire` finds it, and when it is due again.
abbrev pub fired_item : ℕ → PollItem → PollItem
fired_item now it = record it { fires = it.fires + 1; last_fire_ms = now }

abbrev pub rearmed : ℕ → PollItem → PollItem
rearmed next it = record it { next_ms = next }

abbrev pub skipped_item : ℕ → ℕ → PollItem → PollItem
skipped_item now base it = record it {
  skips = it.skips + 1;
  next_ms = now + (if base == 0 then 1000 else base / 2);
}

abbrev pub run_fire : (ℕ → Sched → Sched) → ℕ → Polls → Polls
run_fire fire key w = record w { sched = fire key w.sched; fired = w.fired ++ (key ∷ []) }

-- The item behind `fire`, which may have changed it.
abbrev pub rearm_at : ℕ → ℕ → Option PollItem → Polls → Polls
rearm_at i next none w = w
rearm_at i next (some it) w = put_item i (rearmed next it) w

-- The round of the item at an index.
unfoldable pub poll_one : (ℕ → ℕ) → (ℕ → ℕ) → (ℕ → Sched → Sched) → ℕ → ℕ → PollItem → Polls → Polls
poll_one jitter depth fire now i it w =
    let base = item_base_ms jitter w.sched it in
    if not (item_enabled w.sched it)
    then w
    else if ltb now it.next_ms
    then w
    else if leb 3 (depth i)
    then put_item i (skipped_item now base it) w
    else let done = run_fire fire it.key (put_item i (fired_item now it) w) in
      rearm_at i (now + (if base == 0 then 1000 else base)) (item_at done.sched.items i) done

-- The loop over the items from an index on, of which `count` are left.
unfoldable pub poll_loop : (ℕ → ℕ) → (ℕ → ℕ) → (ℕ → Sched → Sched) → ℕ → ℕ → ℕ → Polls → Polls
poll_loop jitter depth fire now zero i w = w
poll_loop jitter depth fire now (suc count) i w = elim (item_at w.sched.items i) [
  | none ↦ w
  | some it ↦ poll_loop jitter depth fire now count (i + 1) (poll_one jitter depth fire now i it w)
]

pub record House : Type 0 where
  pub ports : Ports
  pub quiet : Quiet
  pub last_active_ms : ℕ
  pub fired : List ℕ

pub record Outside : Type 0 where
  pub ttys : List Tty
  pub reply : Bytes → Probe
  pub others : House → House
  pub jitter : ℕ → ℕ
  pub depth : ℕ → ℕ
  pub fire : ℕ → Sched → Sched

-- The end of the quiet window.
unfoldable pub quiet_expiry : ℕ → House → House
quiet_expiry now w =
    if not (w.quiet.kind == 0) && leb w.quiet.until_ms now
    then record w {
      quiet = atq_clear_quiet w.quiet;
      ports = record w.ports { sched = fm160_sched_kick now w.ports.sched };
    }
    else w

unfoldable pub foreground_decay : ℕ → House → House
foreground_decay now w = record w {
  ports = record w.ports {
    sched = record w.ports.sched {
      foreground = not (w.last_active_ms == 0) && ltb (now - w.last_active_ms) foreground_hold_ms;
    };
  };
}

-- The returns in front of the loop.
abbrev pub rests : ℕ → Sched → Bool
rests now s =
    ltb now s.poll_suspend_until_ms || s.at_state == 2 || not s.port_found || not s.enabled

unfoldable pub poll_all : Outside → ℕ → Sched → List ℕ → Polls
poll_all out now s fired =
    poll_loop out.jitter out.depth out.fire now (length s.items) 0
      (record { sched = s; fired = fired })

unfoldable pub housekeeping : Outside → ℕ → House → House
housekeeping out now w =
    let calm = foreground_decay now (quiet_expiry now w) in
    let ticked =
      out.others (record calm { ports = port_discovery_tick now out.ttys out.reply calm.ports }) in
    let polled = poll_all out now ticked.ports.sched ticked.fired in
    if rests now ticked.ports.sched then ticked else record ticked {
      ports = record ticked.ports { sched = polled.sched };
      fired = polled.fired;
    }
