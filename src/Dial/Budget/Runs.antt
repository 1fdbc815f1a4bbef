-- ===== src/Dial/Budget/Runs.antt =====
-- fm160d/src/dialer.c: the module resets of one process, over all calls in any order.
use openwrt_fm.Dial.Budget.{
  IsPaid, Paid, Keeps, dial_fail-Paid, cb_pin-Paid, cb_reg-Paid, cb_apn-Paid, cb_verb_probe-Paid,
  cb_activate-Paid, cb_ip-Paid, cb_down-Paid,
}
use openwrt_fm.Dial.{
  NetStep, step_idle, step_pin, step_reg, step_apn, step_activate, step_ip, step_up, step_failed,
  step_down, Dial, DialWorld, Clock, Status, Outcome, refused, answered, cb_pin, cb_reg, cb_apn,
  cb_verb_probe, cb_activate, cb_ip, cb_down, dial_submit, dial_reg_subs,
}
use openwrt_fm.Dial.Stamps.{ledger_count, ledger_max, read_stamps}
use openwrt_fm.Dial.Calls.{
  fm160_dial_init, DialConfig, fm160_dial_configure, DialEnv, dial_kind_is_ours, fm160_dial_start,
  is_down, is_built, stop_with, fm160_dial_stop, dial_sync_kind, tick_autostart, tick_apn,
  tick_verb, tick_activate, tick_step, holds_back, fm160_dial_tick,
}
use openwrt_fm.Net.{
  NetVerb, gtwwan, gtrndis, fm160_net_apn_ok, fm160_net_apn_command, fm160_net_activate_command,
  net_cmd_max,
}
use openwrt_fm.Base.{
  ℕ, Bool, true, false, not, ◌&&◌, refl, inl, inr, Option, none, some, arith, ◌==◌, leb, Bytes,
  Bool-cases, Option-cases,
}

dial_submit-Paid :
    (r0 : ℕ) (k : Clock) (out : Outcome) (cb : Clock → Status → Bytes → DialWorld → DialWorld)
    (w : DialWorld)
    → Keeps r0 cb
    → Paid r0 w
    → Paid r0 (dial_submit k out cb w)
unfolding dial_submit
dial_submit-Paid r0 k refused cb w h p = p
dial_submit-Paid r0 k (answered later status resp) cb w h p = h later status resp _ p

tick_apn-Paid :
    (r0 : ℕ) (k : Clock) (out : Outcome) (w : DialWorld) → Paid r0 w → Paid r0 (tick_apn k out w)
unfolding tick_apn
tick_apn-Paid r0 k out w p =
    elim (Option-cases (fm160_net_apn_command net_cmd_max w.st.cid w.st.pdp w.st.apn)) [
      | inl unusable ↦ rw (unusable, tick_apn) p
      | inr (cmd, built) ↦
          rw (built, tick_apn) (dial_submit-Paid r0 k out cb_apn w (cb_apn-Paid r0) p)
    ]

tick_verb-Paid :
    (r0 : ℕ) (k : Clock) (out : Outcome) (v : NetVerb) (was_up : Bool) (w : DialWorld)
    → Paid r0 w
    → Paid r0 (tick_verb k out v was_up w)
unfolding tick_verb
tick_verb-Paid r0 k out v true w p = p
tick_verb-Paid r0 k out v false w p =
    elim (Bool-cases (not (is_built (fm160_net_activate_command net_cmd_max v w.st.cid true)))) [
      | inl unbuilt ↦ rw unbuilt (dial_fail-Paid r0 k w p)
      | inr built ↦ rw built (dial_submit-Paid r0 k out cb_activate w (cb_activate-Paid r0) p)
    ]

tick_activate-Paid :
    (r0 : ℕ) (k : Clock) (out : Outcome) (verb : Option NetVerb) (w : DialWorld)
    → Paid r0 w
    → Paid r0 (tick_activate k out verb w)
unfolding tick_activate
tick_activate-Paid r0 k out none w p = elim (Bool-cases (w.st.sub == 0)) [
  | inl first ↦
      rw first (dial_submit-Paid r0 k out (cb_verb_probe gtwwan) w (cb_verb_probe-Paid r0 gtwwan) p)
  | inr later ↦ elim (Bool-cases (w.st.sub == 1)) [
    | inl second ↦
        rw (later, second)
          (dial_submit-Paid r0 k out (cb_verb_probe gtrndis) w (cb_verb_probe-Paid r0 gtrndis) p)
    | inr over ↦ rw (later, over) (dial_fail-Paid r0 k _ p)
  ]
]
tick_activate-Paid r0 k out (some v) w p = tick_verb-Paid r0 k out v w.st.was_up w p

tick_step-Paid :
    (r0 : ℕ) (k : Clock) (out : Outcome) (step : NetStep) (w : DialWorld)
    → Paid r0 w
    → Paid r0 (tick_step k out step w)
unfolding tick_step
tick_step-Paid r0 k out step_pin w p = dial_submit-Paid r0 k out cb_pin w (cb_pin-Paid r0) p
tick_step-Paid r0 k out step_reg w p = elim (Bool-cases (leb dial_reg_subs w.st.sub)) [
  | inl over ↦ rw over (dial_fail-Paid r0 k _ p)
  | inr more ↦ rw more (dial_submit-Paid r0 k out cb_reg w (cb_reg-Paid r0) p)
]
tick_step-Paid r0 k out step_apn w p = tick_apn-Paid r0 k out w p
tick_step-Paid r0 k out step_activate w p = tick_activate-Paid r0 k out w.st.verb w p
tick_step-Paid r0 k out step_ip w p = dial_submit-Paid r0 k out cb_ip w (cb_ip-Paid r0) p
tick_step-Paid r0 k out step_up w p = dial_submit-Paid r0 k out cb_ip w (cb_ip-Paid r0) p
tick_step-Paid r0 k out step_idle w p = p
tick_step-Paid r0 k out step_failed w p = p
tick_step-Paid r0 k out step_down w p = p

-- Of the state alone, with the resets there were.
abbrev PaidState : ℕ → ℕ → Dial → Type 0
PaidState r0 resets st = IsPaid r0 resets st.resets_in_window st.attempt st.failures

dial_start-Paid :
    (r0 resets : ℕ) (env : DialEnv) (st : Dial)
    → PaidState r0 resets st
    → PaidState r0 resets (fm160_dial_start env st).0
unfolding fm160_dial_start
dial_start-Paid r0 resets env st p = elim (Bool-cases (st.wanted && not st.healing_stopped)) [
  | inl already ↦ rw already p
  | inr anew ↦ elim (Bool-cases (not (fm160_net_apn_ok st.apn))) [
    | inl bad ↦ rw (anew, bad) p
    | inr usable ↦ elim (Bool-cases (not (dial_kind_is_ours st))) [
      | inl other ↦ rw (anew, usable) (rw other p)
      | inr ours ↦ elim (Bool-cases (not env.port_found)) [
        | inl lost ↦ rw (anew, usable) (rw (ours, lost) p)
        | inr port ↦
            rw (anew, usable)
              (rw (ours, port)
                (record {
                  counted = p.counted;
                  capped = p.capped;
                  rung = omega arith;
                  paid = omega (arith, p.paid);
                }))
      ]
    ]
  ]
]

dial_sync_kind-Paid :
    (r0 resets : ℕ) (env : DialEnv) (st : Dial)
    → PaidState r0 resets st
    → PaidState r0 resets (dial_sync_kind env st)
unfolding dial_sync_kind
dial_sync_kind-Paid r0 resets env st p = elim (Option-cases env.usb_mode) [
  | inl unknown ↦ rw (unknown, dial_sync_kind) p
  | inr (mode, known) ↦ rw (known, dial_sync_kind) p
]

tick_autostart-Paid :
    (r0 resets : ℕ) (env : DialEnv) (st : Dial)
    → PaidState r0 resets st
    → PaidState r0 resets (tick_autostart env st)
unfolding tick_autostart
tick_autostart-Paid r0 resets env st p =
    elim (Bool-cases (
      st.autostart
      && not st.autostart_done
      && st.kind_known
      && not st.wanted
      && not st.config_error)) [
        | inl due ↦ rw due (dial_start-Paid r0 resets env (record st { autostart_done = true }) p)
        | inr rests ↦ rw rests p
      ]

stop_with-Paid :
    (r0 : ℕ) (env : DialEnv) (out : Outcome) (verb : Option NetVerb) (w : DialWorld)
    → Paid r0 w
    → Paid r0 (stop_with env out verb w)
unfolding stop_with
stop_with-Paid r0 env out none w p = p
stop_with-Paid r0 env out (some v) w p =
    elim (Option-cases (fm160_net_activate_command net_cmd_max v w.st.cid false)) [
      | inl unbuilt ↦ rw (unbuilt, stop_with) p
      | inr (cmd, built) ↦
          rw (built, stop_with) (dial_submit-Paid r0 env.clock out cb_down w (cb_down-Paid r0) p)
    ]

dial_stop-Paid :
    (r0 : ℕ) (env : DialEnv) (out : Outcome) (w : DialWorld)
    → Paid r0 w
    → Paid r0 (fm160_dial_stop env out w)
unfolding fm160_dial_stop
dial_stop-Paid r0 env out w p = elim (Bool-cases (not w.st.wanted && is_down w.st.step)) [
  | inl down ↦ rw down p
  | inr runs ↦ rw runs (stop_with-Paid r0 env out w.st.verb _ p)
]

dial_tick-Paid :
    (r0 : ℕ) (env : DialEnv) (out : Outcome) (w : DialWorld)
    → Paid r0 w
    → Paid r0 (fm160_dial_tick env out w)
unfolding fm160_dial_tick
dial_tick-Paid r0 env out w p =
    let st = tick_autostart env (dial_sync_kind env w.st) in
    let p' =
      tick_autostart-Paid r0 w.resets env (dial_sync_kind env w.st)
        (dial_sync_kind-Paid r0 w.resets env w.st p) in
    elim (Bool-cases (not env.enabled)) [
      | inl off ↦ rw off p
      | inr on ↦ elim (Bool-cases (holds_back env st)) [
        | inl held ↦ rw (on, held) p'
        | inr free ↦
            rw (on, free) (tick_step-Paid r0 env.clock out st.step (record w { st = st }) p')
      ]
    ]

configure-Paid :
    (r0 resets : ℕ) (c : DialConfig) (st : Dial)
    → PaidState r0 resets st
    → PaidState r0 resets (fm160_dial_configure c st)
unfolding fm160_dial_configure
configure-Paid r0 resets c st p = p

-- The calls of one process, in any order, from its start on with `r0` resets in the ledger's window.
pub data DialReach : ℕ → DialWorld → Type 0 where
  boots :
      (k : Clock) (stamps : Bytes) (total : ℕ)
      → DialReach
          (ledger_count ledger_max k.wall_s (read_stamps stamps))
          (record { st = fm160_dial_init k stamps total; stamps = stamps; resets = 0 })
  configures :
      {r0 : ℕ} {w : DialWorld}
      → (c : DialConfig) → DialReach r0 w
      → DialReach r0 (record w { st = fm160_dial_configure c w.st })
  starts :
      {r0 : ℕ} {w : DialWorld}
      → (env : DialEnv) → DialReach r0 w
      → DialReach r0 (record w { st = (fm160_dial_start env w.st).0 })
  stops :
      {r0 : ℕ} {w : DialWorld}
      → (env : DialEnv) (out : Outcome) → DialReach r0 w
      → DialReach r0 (fm160_dial_stop env out w)
  ticks :
      {r0 : ℕ} {w : DialWorld}
      → (env : DialEnv) (out : Outcome) → DialReach r0 w
      → DialReach r0 (fm160_dial_tick env out w)

pub DialReach-Paid : {r0 : ℕ} {w : DialWorld} → DialReach r0 w → Paid r0 w
DialReach-Paid (boots k stamps total) =
    unfold fm160_dial_init in
    record { counted = omega arith; capped = inl refl; rung = omega arith; paid = omega arith }
DialReach-Paid (configures {r0 = r0} {w = w} c r) =
    configure-Paid r0 w.resets c w.st (DialReach-Paid r)
DialReach-Paid (starts {r0 = r0} {w = w} env r) =
    dial_start-Paid r0 w.resets env w.st (DialReach-Paid r)
DialReach-Paid (stops {r0 = r0} {w = w} env out r) = dial_stop-Paid r0 env out w (DialReach-Paid r)
DialReach-Paid (ticks {r0 = r0} {w = w} env out r) = dial_tick-Paid r0 env out w (DialReach-Paid r)
