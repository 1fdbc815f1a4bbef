-- ===== src/Dial/Link.antt =====
-- fm160d/src/dialer.c: what it means that the link is up.
pub mod Runs
use mathlib.Core.Path.{subst}
use openwrt_fm.Dial.Budget.Runs.{DialReach, boots, configures, starts, stops, ticks}
use openwrt_fm.Dial.{
  NetStep, step_idle, step_pin, step_reg, step_apn, step_activate, step_ip, step_up, step_failed,
  step_down, Dial, DialWorld, Clock, ledger_note_reset, dial_escalate, dial_fail, Status,
  answered_ok, timed_out, not_ok, is_ok, Outcome, refused, answered, idle, judge_cpin, cb_pin,
  is_registered, cb_reg, cb_apn, cb_verb_probe, cb_activate, ip_not_yet, cb_ip, cb_down,
  dial_submit, wwan_read, dial_reg_subs, dial_ip_max_polls,
}
use openwrt_fm.Dial.Calls.{
  fm160_dial_init, DialConfig, fm160_dial_configure, DialEnv, dial_kind_is_ours, fm160_dial_start,
  is_down, is_built, stop_with, fm160_dial_stop, dial_sync_kind, tick_autostart, tick_apn,
  tick_verb, tick_activate, tick_step, holds_back, fm160_dial_tick,
}
use openwrt_fm.Net.{
  NetVerb, gtwwan, gtrndis, fm160_net_reset_allowed, fm160_net_apn_ok, fm160_net_apn_command,
  fm160_net_activate_command, net_cmd_max, net_ladder_max,
}
use openwrt_fm.Net.Address.{fm160_net_addr_ok}
use openwrt_fm.Net.Answers.{
  fm160_net_parse_wwan, fm160_net_parse_cpin, CpinAnswer, ready, not_ready, no_cpin, is_int,
}
use openwrt_fm.Base.{
  ℕ, ◌+◌, Bool, true, false, not, ◌&&◌, ◌||◌, ◌≡◌, refl, sym, ap, ◌∙◌, inl, inr, Option, none, some,
  arith, ◌==◌, ltb, leb, if◌then◌else◌, Bytes, Bool-cases, Option-cases,
}

-- A link that is up is wanted, on its last rung, and has an address that was checked.
pub record IsUp (st : Dial) : Type 0 where
  pub step : st.step ≡ step_up
  pub address : fm160_net_addr_ok st.addr ≡ true
  pub wanted : st.wanted ≡ true

abbrev pub Linked : Dial → Type 0
Linked st = st.up ≡ true → IsUp st

pub down-Linked : (st : Dial) → st.up ≡ false → Linked st
down-Linked st h = λ up. absurd (cc)

dial_escalate_down :
    (k : Clock) (w : DialWorld) → w.st.up ≡ false → (dial_escalate k w).st.up ≡ false
unfolding dial_escalate ledger_note_reset
dial_escalate_down k w h = elim (Bool-cases (not w.st.allow_reset)) [
  | inl forbidden ↦ rw forbidden h
  | inr permitted ↦ elim (Bool-cases (not (fm160_net_reset_allowed w.st.resets_in_window))) [
    | inl over ↦ rw (permitted, over) h
    | inr within ↦ rw (permitted, within) h
  ]
]

dial_fail_down : (k : Clock) (w : DialWorld) → (dial_fail k w).st.up ≡ false
unfolding dial_fail
dial_fail_down k w = elim (Bool-cases (leb net_ladder_max w.st.attempt)) [
  | inl spent ↦ rw spent (dial_escalate_down k _ refl)
  | inr more ↦ rw more refl
]

-- A callback that leaves a link down that is down.
abbrev StaysDown : (Clock → Status → Bytes → DialWorld → DialWorld) → Type 0
StaysDown cb =
    (k : Clock) (status : Status) (resp : Bytes) (w : DialWorld)
    → w.st.up ≡ false
    → (cb k status resp w).st.up ≡ false

judge_cpin_down :
    (answer : CpinAnswer) (k : Clock) (w : DialWorld)
    → w.st.up ≡ false
    → (judge_cpin answer k w).st.up ≡ false
unfolding judge_cpin
judge_cpin_down ready k w h = h
judge_cpin_down not_ready k w h = dial_fail_down k (idle w)
judge_cpin_down no_cpin k w h = dial_fail_down k (idle w)

cb_pin_down : StaysDown cb_pin
unfolding cb_pin
cb_pin_down k status resp w h = elim (Bool-cases (not (is_ok status))) [
  | inl bad ↦ rw bad (dial_fail_down k (idle w))
  | inr good ↦ rw good (judge_cpin_down (fm160_net_parse_cpin resp) k w h)
]

cb_reg_down : StaysDown cb_reg
unfolding cb_reg
cb_reg_down k status resp w h = elim (Bool-cases (is_registered status resp w.st.sub)) [
  | inl here ↦ rw here h
  | inr away ↦ elim (Bool-cases (ltb (w.st.sub + 1) dial_reg_subs)) [
    | inl more ↦ rw (away, more) h
    | inr last ↦ rw (away, last) (dial_fail_down k _)
  ]
]

cb_apn_down : StaysDown cb_apn
unfolding cb_apn
cb_apn_down k status resp w h = elim (Bool-cases (not (is_ok status))) [
  | inl bad ↦ rw bad (dial_fail_down k (idle w))
  | inr good ↦ rw good h
]

cb_verb_probe_down : (v : NetVerb) → StaysDown (cb_verb_probe v)
unfolding cb_verb_probe
cb_verb_probe_down v k answered_ok resp w h = h
cb_verb_probe_down gtwwan k timed_out resp w h = h
cb_verb_probe_down gtwwan k not_ok resp w h = h
cb_verb_probe_down gtrndis k timed_out resp w h = dial_fail_down k (idle w)
cb_verb_probe_down gtrndis k not_ok resp w h = dial_fail_down k (idle w)

cb_activate_down : StaysDown cb_activate
unfolding cb_activate
cb_activate_down k status resp w h =
    let r = wwan_read (fm160_net_parse_wwan resp) in
    elim (Bool-cases (is_ok status && r.valid && is_int r.active 0)) [
      | inl down ↦ rw down (dial_fail_down k (idle w))
      | inr else_where ↦ rw else_where h
    ]

dial_submit_down :
    (k : Clock) (out : Outcome) (cb : Clock → Status → Bytes → DialWorld → DialWorld)
    (w : DialWorld)
    → StaysDown cb
    → w.st.up ≡ false
    → (dial_submit k out cb w).st.up ≡ false
unfolding dial_submit
dial_submit_down k refused cb w c h = h
dial_submit_down k (answered later status resp) cb w c h = c later status resp _ h

tick_apn_down :
    (k : Clock) (out : Outcome) (w : DialWorld) → w.st.up ≡ false → (tick_apn k out w).st.up ≡ false
unfolding tick_apn
tick_apn_down k out w h =
    elim (Option-cases (fm160_net_apn_command net_cmd_max w.st.cid w.st.pdp w.st.apn)) [
      | inl unusable ↦ rw (unusable, tick_apn) h
      | inr (cmd, built) ↦ rw (built, tick_apn) (dial_submit_down k out cb_apn w cb_apn_down h)
    ]

tick_verb_down :
    (k : Clock) (out : Outcome) (v : NetVerb) (was_up : Bool) (w : DialWorld)
    → w.st.up ≡ false
    → (tick_verb k out v was_up w).st.up ≡ false
unfolding tick_verb
tick_verb_down k out v true w h = h
tick_verb_down k out v false w h =
    elim (Bool-cases (not (is_built (fm160_net_activate_command net_cmd_max v w.st.cid true)))) [
      | inl unbuilt ↦ rw unbuilt (dial_fail_down k w)
      | inr built ↦ rw built (dial_submit_down k out cb_activate w cb_activate_down h)
    ]

tick_activate_down :
    (k : Clock) (out : Outcome) (verb : Option NetVerb) (w : DialWorld)
    → w.st.up ≡ false
    → (tick_activate k out verb w).st.up ≡ false
unfolding tick_activate
tick_activate_down k out none w h = elim (Bool-cases (w.st.sub == 0)) [
  | inl first ↦
      rw first (dial_submit_down k out (cb_verb_probe gtwwan) w (cb_verb_probe_down gtwwan) h)
  | inr later ↦ elim (Bool-cases (w.st.sub == 1)) [
    | inl second ↦
        rw (later, second)
          (dial_submit_down k out (cb_verb_probe gtrndis) w (cb_verb_probe_down gtrndis) h)
    | inr over ↦ rw (later, over) (dial_fail_down k _)
  ]
]
tick_activate_down k out (some v) w h = tick_verb_down k out v w.st.was_up w h

-- The read of the context.
ip_not_yet-Linked : (k : Clock) (w : DialWorld) → Linked w.st → Linked (ip_not_yet k w).st
unfolding ip_not_yet
ip_not_yet-Linked k w l = elim (Bool-cases (ltb (w.st.ip_polls + 1) dial_ip_max_polls)) [
  | inl again ↦
      rw again
        (λ u. let i = l u in record { step = i.step; address = i.address; wanted = i.wanted })
  | inr last ↦ rw last (down-Linked _ (dial_fail_down k _))
]

cb_ip-Linked :
    (k : Clock) (status : Status) (resp : Bytes) (w : DialWorld)
    → w.st.wanted ≡ true
    → Linked w.st
    → Linked (cb_ip k status resp w).st
unfolding cb_ip
cb_ip-Linked k status resp w wanted l =
    let r = wwan_read (fm160_net_parse_wwan resp) in
    let rest : Linked (idle w).st =
      λ u. let i = l u in record { step = i.step; address = i.address; wanted = i.wanted } in
    elim (Bool-cases (not (is_ok status && r.valid))) [
      | inl unread ↦ rw unread (ip_not_yet-Linked k (idle w) rest)
      | inr read ↦ elim (Bool-cases (is_int r.active 0)) [
        | inl down ↦ rw (read, down) (down-Linked _ (dial_fail_down k (idle w)))
        | inr active ↦ elim (Bool-cases (not r.has_addr)) [
          | inl without ↦ rw (read, active) (rw without (ip_not_yet-Linked k (idle w) rest))
          | inr found ↦ elim (Bool-cases (not (fm160_net_addr_ok r.addr))) [
            | inl bad ↦
                rw (read, active) (rw (found, bad) (down-Linked _ (dial_fail_down k (idle w))))
            | inr good ↦
                let checked : fm160_net_addr_ok r.addr ≡ true = ground arith in
                rw (read, active)
                  (rw (found, good)
                    (λ u. record { step = refl; address = checked; wanted = wanted }))
          ]
        ]
      ]
    ]

submit_ip-Linked :
    (k : Clock) (out : Outcome) (w : DialWorld)
    → w.st.wanted ≡ true
    → Linked w.st
    → Linked (dial_submit k out cb_ip w).st
unfolding dial_submit
submit_ip-Linked k refused w wanted l =
    λ u. let i = l u in record { step = i.step; address = i.address; wanted = i.wanted }
submit_ip-Linked k (answered later status resp) w wanted l =
    cb_ip-Linked later status resp _ wanted
      (λ u. let i = l u in record { step = i.step; address = i.address; wanted = i.wanted })

abbrev is_up : NetStep → Bool
is_up step_up = true
is_up _ = false

off_step :
    (st : Dial) (step : NetStep) → Linked st → st.step ≡ step → is_up step ≡ false → st.up ≡ false
off_step st step l e off = elim (Bool-cases st.up) [
  | inl u ↦ absurd (let top = ap is_up (sym e ∙ (l u).step) in cc)
  | inr down ↦ down
]

pub tick_step-Linked :
    (k : Clock) (out : Outcome) (step : NetStep) (w : DialWorld)
    → w.st.step ≡ step
    → w.st.wanted ≡ true
    → Linked w.st
    → Linked (tick_step k out step w).st
unfolding tick_step
tick_step-Linked k out step_pin w e wanted l =
    down-Linked _ (dial_submit_down k out cb_pin w cb_pin_down (off_step w.st step_pin l e refl))
tick_step-Linked k out step_reg w e wanted l = elim (Bool-cases (leb dial_reg_subs w.st.sub)) [
  | inl over ↦ rw over (down-Linked _ (dial_fail_down k _))
  | inr more ↦ rw more (
      down-Linked _ (dial_submit_down k out cb_reg w cb_reg_down (off_step w.st step_reg l e refl)))
]
tick_step-Linked k out step_apn w e wanted l =
    down-Linked _ (tick_apn_down k out w (off_step w.st step_apn l e refl))
tick_step-Linked k out step_activate w e wanted l =
    down-Linked _ (tick_activate_down k out w.st.verb w (off_step w.st step_activate l e refl))
tick_step-Linked k out step_ip w e wanted l = submit_ip-Linked k out w wanted l
tick_step-Linked k out step_up w e wanted l = submit_ip-Linked k out w wanted l
tick_step-Linked k out step_idle w e wanted l = l
tick_step-Linked k out step_failed w e wanted l = l
tick_step-Linked k out step_down w e wanted l = l
