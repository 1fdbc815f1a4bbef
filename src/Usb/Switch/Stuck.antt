-- ===== src/Usb/Switch/Stuck.antt =====
-- fm160d/src/modesw.c: a switch after which no AT port appears.
use openwrt_fm.Usb.Switch.{
  SwitchState, modesw_idle, modesw_apply, modesw_verify, modesw_stuck, ModeSwitch, World,
  Submission, Env, fm160_modesw_apply, fm160_modesw_tick, ApplyCode, is_stuck, grace_over,
  stuck_after, eperm,
}
use openwrt_fm.Usb.Switch.Marker.{is_idle, Reach-IsMarked}
use openwrt_fm.Usb.Switch.Steps.{Reach}
use openwrt_fm.Base.{
  ℕ, ◌+◌, ◌-◌, ◌≤◌, ◌<◌, Bool, true, false, not, ◌||◌, ◌≡◌, ◌↔◌, ◌⊎◌, refl, ap, inr, List, [], ◌∷◌,
  All, arith,
}

-- Two minutes since the switch without a port, and not within the first 15 seconds of a command that
-- has not been answered.
pub record IsOverdue (env : Env) (m : ModeSwitch) : Type 0 where
  pub port : env.port_found ≡ false
  pub long : 120000 ≤ env.now_ms - m.pending_since_ms
  pub grace : (m.st ≡ modesw_verify) ⊎ (15000 < env.now_ms - m.applied_ms)

state_iff :
    (env : Env) (m : ModeSwitch) (st : SwitchState)
    → is_idle st ≡ false
    → is_stuck st ≡ false
    → (stuck_after env m (grace_over env m st) ≡ modesw_stuck) ↔ (
        (env.port_found ≡ false)
        × ((120000 ≤ env.now_ms - m.pending_since_ms)
            × ((st ≡ modesw_verify) ⊎ (15000 < env.now_ms - m.applied_ms))))
state_iff env m modesw_idle i s = absurd (cc)
state_iff env m modesw_stuck i s = absurd (cc)
state_iff env m modesw_verify i s = ground arith
state_iff env m modesw_apply i s = ground arith

-- In a world that is reached, with a switch that waits and is not given up yet, the clock gives it up
-- exactly where it is overdue.
pub Reach-stuck :
    {seen : List ℕ} {w : World}
    → (env : Env) → Reach seen w
    → w.m.pending ≡ true
    → is_stuck w.m.st ≡ false
    → ((fm160_modesw_tick env w.m).st ≡ modesw_stuck) ↔ IsOverdue env w.m
unfolding fm160_modesw_tick
Reach-stuck {w = w} env r pending free =
    let runs : (is_stuck w.m.st || not w.m.pending) ≡ false = ground arith in
    let iff = state_iff env w.m w.m.st ((Reach-IsMarked r).noted pending).active free in
    rw runs (
      λ h.
          let (port, (long, grace)) = iff.0 h in record { port = port; long = long; grace = grace },
      λ o. iff.1 (o.port, (o.long, o.grace)),
    )

stuck-eperm :
    (env : Env) (sub : Submission) (target : ℕ) (advanced_ok : Bool) (w : World)
    → is_stuck w.m.st ≡ true
    → fm160_modesw_apply env sub target advanced_ok w ≡ (w, eperm)
unfolding fm160_modesw_apply
stuck-eperm env sub target advanced_ok w stuck = rw stuck refl

-- What may follow a switch that is given up: a tick of the clock, or an application.
pub data Act : Type 0 where
  ticks : Env → Act
  applies : Env → Submission → ℕ → Bool → Act

-- The world behind it, and the codes of the applications.
abbrev pub world_after : List Act → World → World
world_after [] w = w
world_after (ticks env ∷ acts) w = world_after acts (record w { m = fm160_modesw_tick env w.m })
world_after (applies env sub target advanced_ok ∷ acts) w =
    world_after acts (fm160_modesw_apply env sub target advanced_ok w).0

abbrev pub codes_of : List Act → World → List ApplyCode
codes_of [] w = []
codes_of (ticks env ∷ acts) w = codes_of acts (record w { m = fm160_modesw_tick env w.m })
codes_of (applies env sub target advanced_ok ∷ acts) w =
    (fm160_modesw_apply env sub target advanced_ok w).1
    ∷ codes_of acts (fm160_modesw_apply env sub target advanced_ok w).0

tick-stuck :
    (env : Env) (w : World)
    → is_stuck w.m.st ≡ true
    → record w { m = fm160_modesw_tick env w.m } ≡ w
unfolding fm160_modesw_tick
tick-stuck env w stuck =
    let rests : (is_stuck w.m.st || not w.m.pending) ≡ true = ground arith in rw rests refl

-- Nothing changes, and every application is refused.
stuck_stays :
    (acts : List Act) (w : World)
    → is_stuck w.m.st ≡ true
    → (world_after acts w ≡ w) × All (λ code. code ≡ eperm) (codes_of acts w)
stuck_stays [] w stuck = (refl, tt)
stuck_stays (ticks env ∷ acts) w stuck = rw (tick-stuck env w stuck) (stuck_stays acts w stuck)
stuck_stays (applies env sub target advanced_ok ∷ acts) w stuck =
    let rest = stuck_stays acts w stuck in
    rw (stuck-eperm env sub target advanced_ok w stuck) (rest.0, (refl, rest.1))

-- A switch that waits is given up by a tick two minutes or more after it was noted, where no AT port
-- is there at that time and the last command lies more than 15 seconds back, whatever happened before.
-- Over the ticks and applications that follow, in any number, nothing changes and every application is
-- refused with EPERM, as long as no report of the profile, no late answer and no restart comes between.
pub Reach-given_up :
    {seen : List ℕ} {w : World}
    → (env : Env) → Reach seen w
    → w.m.pending ≡ true
    → is_stuck w.m.st ≡ false
    → env.port_found ≡ false
    → w.m.pending_since_ms + 120000 ≤ env.now_ms
    → w.m.applied_ms + 15000 < env.now_ms
    → (acts : List Act)
    → let given_up = record w { m = fm160_modesw_tick env w.m } in
      (given_up.m.st ≡ modesw_stuck)
      × ((world_after acts given_up ≡ given_up)
          × All (λ code. code ≡ eperm) (codes_of acts given_up))
Reach-given_up {w = w} env r pending free port long grace acts =
    let stuck =
      (Reach-stuck env r pending free).1
        (record { port = port; long = omega arith; grace = inr (omega arith) }) in
    (stuck, stuck_stays acts (record w { m = fm160_modesw_tick env w.m }) (ap is_stuck stuck))
