-- ===== src/Dial/Link/Runs.antt =====
-- fm160d/src/dialer.c: a link that is up, over all calls in any order.
use openwrt_fm.Dial.Link.{Linked, down-Linked, tick_step-Linked}
use openwrt_fm.Dial.Budget.Runs.{DialReach, boots, configures, starts, stops, ticks}
use openwrt_fm.Dial.{Dial, DialWorld, Clock, Outcome, refused, answered, cb_down, dial_submit}
use openwrt_fm.Dial.Calls.{
  fm160_dial_init, DialConfig, fm160_dial_configure, DialEnv, dial_kind_is_ours, fm160_dial_start,
  is_down, stop_with, fm160_dial_stop, dial_sync_kind, tick_autostart, holds_back, fm160_dial_tick,
}
use openwrt_fm.Net.{NetVerb, fm160_net_apn_ok, fm160_net_activate_command, net_cmd_max}
use openwrt_fm.Base.{
  Bytes, ℕ, true, false, not, ◌&&◌, ◌≡◌, refl, inl, inr, Option, none, some, arith, Bool-cases,
  Option-cases,
}

dial_start-Linked : (env : DialEnv) (st : Dial) → Linked st → Linked (fm160_dial_start env st).0
unfolding fm160_dial_start
dial_start-Linked env st l = elim (Bool-cases (st.wanted && not st.healing_stopped)) [
  | inl already ↦ rw already l
  | inr anew ↦ elim (Bool-cases (not (fm160_net_apn_ok st.apn))) [
    | inl bad ↦
        rw (anew, bad)
          (λ u. let i = l u in record { step = i.step; address = i.address; wanted = i.wanted })
    | inr usable ↦ elim (Bool-cases (not (dial_kind_is_ours st))) [
      | inl other ↦ rw (anew, usable) (rw other l)
      | inr ours ↦ elim (Bool-cases (not env.port_found)) [
        | inl lost ↦ rw (anew, usable) (rw (ours, lost) l)
        | inr port ↦ rw (anew, usable) (rw (ours, port) (λ u. absurd (cc)))
      ]
    ]
  ]
]

sync-Linked : (env : DialEnv) (st : Dial) → Linked st → Linked (dial_sync_kind env st)
unfolding dial_sync_kind
sync-Linked env st l = elim (Option-cases env.usb_mode) [
  | inl unknown ↦
      rw (unknown, dial_sync_kind)
        (λ u. let i = l u in record { step = i.step; address = i.address; wanted = i.wanted })
  | inr (mode, known) ↦
      rw (known, dial_sync_kind)
        (λ u. let i = l u in record { step = i.step; address = i.address; wanted = i.wanted })
]

autostart-Linked : (env : DialEnv) (st : Dial) → Linked st → Linked (tick_autostart env st)
unfolding tick_autostart
autostart-Linked env st l =
    elim (Bool-cases (
      st.autostart
      && not st.autostart_done
      && st.kind_known
      && not st.wanted
      && not st.config_error)) [
        | inl due ↦ rw due (
            dial_start-Linked env (record st { autostart_done = true })
              (λ u.
                let i = l u in record { step = i.step; address = i.address; wanted = i.wanted }))
        | inr rests ↦ rw rests l
      ]

submit_down :
    (k : Clock) (out : Outcome) (w : DialWorld)
    → w.st.up ≡ false
    → (dial_submit k out cb_down w).st.up ≡ false
unfolding dial_submit cb_down
submit_down k refused w h = h
submit_down k (answered later status resp) w h = refl

stop_with-Linked :
    (env : DialEnv) (out : Outcome) (verb : Option NetVerb) (w : DialWorld)
    → w.st.up ≡ false
    → Linked (stop_with env out verb w).st
unfolding stop_with
stop_with-Linked env out none w h = down-Linked _ h
stop_with-Linked env out (some v) w h =
    elim (Option-cases (fm160_net_activate_command net_cmd_max v w.st.cid false)) [
      | inl unbuilt ↦ rw (unbuilt, stop_with) (down-Linked _ h)
      | inr (cmd, built) ↦ rw (built, stop_with) (down-Linked _ (submit_down env.clock out w h))
    ]

dial_stop-Linked :
    (env : DialEnv) (out : Outcome) (w : DialWorld)
    → Linked w.st
    → Linked (fm160_dial_stop env out w).st
unfolding fm160_dial_stop
dial_stop-Linked env out w l = elim (Bool-cases (not w.st.wanted && is_down w.st.step)) [
  | inl down ↦ rw down l
  | inr runs ↦ rw runs (stop_with-Linked env out w.st.verb _ refl)
]

dial_tick-Linked :
    (env : DialEnv) (out : Outcome) (w : DialWorld)
    → Linked w.st
    → Linked (fm160_dial_tick env out w).st
unfolding fm160_dial_tick
dial_tick-Linked env out w l =
    let st = tick_autostart env (dial_sync_kind env w.st) in
    let l' : Linked st = autostart-Linked env (dial_sync_kind env w.st) (sync-Linked env w.st l) in
    elim (Bool-cases (not env.enabled)) [
      | inl off ↦ rw off l
      | inr on ↦ elim (Bool-cases (holds_back env st)) [
        | inl held ↦ rw (on, held) l'
        | inr free ↦
            let wanted : st.wanted ≡ true = ground arith in
            rw (on, free)
              (tick_step-Linked env.clock out st.step (record w { st = st }) refl wanted l')
      ]
    ]

init-Linked : (k : Clock) (stamps : Bytes) (total : ℕ) → Linked (fm160_dial_init k stamps total)
unfolding fm160_dial_init
init-Linked k stamps total = λ u. absurd (cc)

configure-Linked : (c : DialConfig) (st : Dial) → Linked st → Linked (fm160_dial_configure c st)
unfolding fm160_dial_configure
configure-Linked c st l =
    λ u. let i = l u in record { step = i.step; address = i.address; wanted = i.wanted }

-- Over any calls of one process, a link that the dialler holds to be up is wanted, stands on the last
-- rung of the ladder, and has an address that `fm160_net_addr_ok` accepts.
pub DialReach-Linked : {r0 : ℕ} {w : DialWorld} → DialReach r0 w → Linked w.st
DialReach-Linked (boots k stamps total) = init-Linked k stamps total
DialReach-Linked (configures {w = w} c r) = configure-Linked c w.st (DialReach-Linked r)
DialReach-Linked (starts {w = w} env r) = dial_start-Linked env w.st (DialReach-Linked r)
DialReach-Linked (stops {w = w} env out r) = dial_stop-Linked env out w (DialReach-Linked r)
DialReach-Linked (ticks {w = w} env out r) = dial_tick-Linked env out w (DialReach-Linked r)
