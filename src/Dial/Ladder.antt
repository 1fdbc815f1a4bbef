-- ===== src/Dial/Ladder.antt =====
-- fm160d/src/dialer.c: failures in a row, and a dialler that has stopped.
pub mod Rest
use openwrt_fm.Dial.{step_failed, Dial, DialWorld, Clock, dial_escalate, dial_fail, Outcome}
use openwrt_fm.Dial.Calls.{DialEnv, dial_sync_kind, tick_autostart, holds_back, fm160_dial_tick}
use openwrt_fm.Net.{fm160_net_backoff_ms, fm160_net_reset_allowed, net_ladder_max}
use openwrt_fm.Base.{
  ◌+◌, ◌≤◌, ◌<◌, Bool, true, false, not, ◌&&◌, ◌||◌, ◌≡◌, ◌↔◌, refl, ◌∙◌, inl, inr, List, [], ◌∷◌,
  arith, ltb, leb, length, Bool-cases, Option-cases,
}

-- One failure after the other, at the times given.
abbrev pub fail_all : List Clock → DialWorld → DialWorld
fail_all [] w = w
fail_all (k ∷ ks) w = fail_all ks (dial_fail k w)

-- No reset is possible: not permitted, or the ledger is full.
abbrev pub no_reset : Dial → Bool
no_reset st = not st.allow_reset || not (fm160_net_reset_allowed st.resets_in_window)

-- A failure above the last rung.
record IsClimb (k : Clock) (w w' : DialWorld) : Type 0 where
  attempt : w'.st.attempt ≡ w.st.attempt + 1
  stopped : w'.st.healing_stopped ≡ w.st.healing_stopped
  next : w'.st.next_try_ms ≡ k.now_ms + fm160_net_backoff_ms w.st.attempt
  blocked : no_reset w'.st ≡ no_reset w.st

-- A failure on it, without a reset.
record IsStop (w w' : DialWorld) : Type 0 where
  attempt : w'.st.attempt ≡ w.st.attempt
  stopped : w'.st.healing_stopped ≡ true
  step : w'.st.step ≡ step_failed
  blocked : no_reset w'.st ≡ no_reset w.st

dial_fail-IsClimb : (k : Clock) (w : DialWorld) → w.st.attempt < 5 → IsClimb k w (dial_fail k w)
unfolding dial_fail
dial_fail-IsClimb k w h =
    let left : leb net_ladder_max w.st.attempt ≡ false = ground arith in
    rw left (record { attempt = refl; stopped = refl; next = refl; blocked = refl })

dial_escalate-IsStop :
    (k : Clock) (w : DialWorld) → no_reset w.st ≡ true → IsStop w (dial_escalate k w)
unfolding dial_escalate
dial_escalate-IsStop k w h = elim (Bool-cases (not w.st.allow_reset)) [
  | inl forbidden ↦
      rw forbidden (record { attempt = refl; stopped = refl; step = refl; blocked = refl })
  | inr permitted ↦
      let full : not (fm160_net_reset_allowed w.st.resets_in_window) ≡ true = ground arith in
      rw (permitted, full) (record { attempt = refl; stopped = refl; step = refl; blocked = refl })
]

dial_fail-IsStop :
    (k : Clock) (w : DialWorld) → w.st.attempt ≡ 5 → no_reset w.st ≡ true → IsStop w (dial_fail k w)
unfolding dial_fail
dial_fail-IsStop k w h blocked =
    let spent : leb net_ladder_max w.st.attempt ≡ true = ground arith in
    let st = record w.st {
      failures = w.st.failures + 1;
      running = false;
      up = false;
      ip_polls = 0;
    } in
    let s = dial_escalate-IsStop k (record w { st = st }) blocked in
    rw spent
      (record { attempt = s.attempt; stopped = s.stopped; step = s.step; blocked = s.blocked })

stays_stopped :
    (ks : List Clock) (w : DialWorld)
    → w.st.attempt ≡ 5
    → w.st.healing_stopped ≡ true
    → no_reset w.st ≡ true
    → (fail_all ks w).st.healing_stopped ≡ true
stays_stopped [] w h stopped blocked = stopped
stays_stopped (k ∷ ks) w h stopped blocked =
    let s = dial_fail-IsStop k w h blocked in
    stays_stopped ks (dial_fail k w) (s.attempt ∙ h) s.stopped (s.blocked ∙ blocked)

-- Where no reset is possible the dialler climbs the five rungs and stops with the failure after them:
-- after failures in a row it has stopped exactly where they and those before them are more than five.
pub fail_all_iff :
    (ks : List Clock) (w : DialWorld)
    → w.st.attempt ≤ 5
    → w.st.healing_stopped ≡ false
    → no_reset w.st ≡ true
    → ((fail_all ks w).st.healing_stopped ≡ true) ↔ (5 < w.st.attempt + length ks)
fail_all_iff [] w le going blocked = (λ h. absurd (cc), λ h. absurd (omega (arith, h, le)))
fail_all_iff (k ∷ ks) w le going blocked = elim (Bool-cases (ltb w.st.attempt 5)) [
  | inl climbs ↦
      let left : w.st.attempt < 5 = ground arith in
      let c = dial_fail-IsClimb k w left in
      let rest =
        fail_all_iff ks (dial_fail k w) (omega (arith, c.attempt, left)) (c.stopped ∙ going)
          (c.blocked ∙ blocked) in
      (λ h. omega (arith, rest.0 h, c.attempt), λ h. rest.1 (omega (arith, h, c.attempt)))
  | inr last ↦
      let top : w.st.attempt ≡ 5 = ground arith in
      let s = dial_fail-IsStop k w top blocked in
      (
        λ h. omega (arith, top),
        λ h. stays_stopped ks (dial_fail k w) (s.attempt ∙ top) s.stopped (s.blocked ∙ blocked),
      )
]

-- A start leaves a dialler alone that is wanted and runs.
sync-wanted : (env : DialEnv) (st : Dial) → (dial_sync_kind env st).wanted ≡ st.wanted
unfolding dial_sync_kind
sync-wanted env st = elim (Option-cases env.usb_mode) [
  | inl unknown ↦ rw (unknown, dial_sync_kind) refl
  | inr (mode, known) ↦ rw (known, dial_sync_kind) refl
]

sync-stopped :
    (env : DialEnv) (st : Dial) → (dial_sync_kind env st).healing_stopped ≡ st.healing_stopped
unfolding dial_sync_kind
sync-stopped env st = elim (Option-cases env.usb_mode) [
  | inl unknown ↦ rw (unknown, dial_sync_kind) refl
  | inr (mode, known) ↦ rw (known, dial_sync_kind) refl
]

autostart-wanted : (env : DialEnv) (st : Dial) → st.wanted ≡ true → tick_autostart env st ≡ st
unfolding tick_autostart
autostart-wanted env st h =
    let off : (st.autostart
          && not st.autostart_done
          && st.kind_known
          && not st.wanted
          && not st.config_error)
        ≡ false =
      ground arith in
    rw off refl

-- A dialler that is wanted and has stopped submits nothing any more: a tick reads the profile and
-- changes nothing else, whatever the time, the port and the answers.
pub stopped_silent :
    (env : DialEnv) (out : Outcome) (w : DialWorld)
    → env.enabled ≡ true
    → w.st.wanted ≡ true
    → w.st.healing_stopped ≡ true
    → fm160_dial_tick env out w ≡ record w { st = dial_sync_kind env w.st }
unfolding fm160_dial_tick
stopped_silent env out w on wanted stopped =
    let synced = dial_sync_kind env w.st in
    let same = autostart-wanted env synced (sync-wanted env w.st ∙ wanted) in
    let over = sync-stopped env w.st ∙ stopped in
    let held : holds_back env synced ≡ true = ground arith in
    let enabled : not env.enabled ≡ false = ground arith in rw enabled (rw same (rw held refl))
