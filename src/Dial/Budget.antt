-- ===== src/Dial/Budget.antt =====
-- fm160d/src/dialer.c: the module resets of one process against the ledger and the failures.
pub mod Runs
use openwrt_fm.Dial.{
  NetStep, step_idle, step_pin, step_reg, step_apn, step_activate, step_ip, step_up, step_failed,
  step_down, Dial, DialWorld, Clock, ledger_note_reset, dial_to, dial_stop_healing, dial_escalate,
  dial_fail, Status, answered_ok, timed_out, not_ok, is_ok, Outcome, refused, answered, idle,
  pass_to, judge_cpin, cb_pin, is_registered, cb_reg, cb_apn, cb_verb_probe, cb_activate,
  ip_not_yet, cb_ip, cb_down, dial_submit, wwan_read, dial_reg_subs, dial_ip_max_polls,
}
use openwrt_fm.Dial.Calls.{
  fm160_dial_init, DialConfig, fm160_dial_configure, DialEnv, dial_kind_is_ours, fm160_dial_start,
  is_down, is_built, stop_with, fm160_dial_stop, dial_sync_kind, tick_autostart, tick_apn,
  tick_verb, tick_activate, tick_step, holds_back, fm160_dial_tick,
}
use openwrt_fm.Net.{
  NetVerb, gtwwan, gtrndis, fm160_net_reset_allowed, fm160_net_apn_ok, fm160_net_apn_command,
  fm160_net_activate_command, net_cmd_max, net_ladder_max,
}
use openwrt_fm.Net.Address.{fm160_net_addr_ok}
use openwrt_fm.Net.Answers.{
  fm160_net_parse_wwan, fm160_net_parse_cpin, CpinAnswer, ready, not_ready, no_cpin, is_int,
}
use openwrt_fm.Base.{
  ℕ, zero, suc, ◌+◌, ◌*◌, ◌≤◌, ◌<◌, Bool, true, false, not, ◌&&◌, ◌||◌, ◌≡◌, ◌⊎◌, refl, sym, ap,
  ◌∙◌, inl, inr, List, [], ◌∷◌, Option, none, some, arith, ◌==◌, ltb, leb, if◌then◌else◌, Bytes,
  Bool-cases, Option-cases,
}

-- Of `resets` resets since a start with `r0` in the ledger: the count goes on from there, none is
-- submitted where it has reached 3, and each is paid for with six failures.
pub record IsPaid (r0 resets window attempt failures : ℕ) : Type 0 where
  pub counted : resets + r0 ≡ window
  pub capped : (resets ≡ 0) ⊎ (window ≤ 3)
  pub rung : attempt ≤ 5
  pub paid : resets * 6 + attempt ≤ failures

abbrev pub Paid : ℕ → DialWorld → Type 0
Paid r0 w = IsPaid r0 w.resets w.st.resets_in_window w.st.attempt w.st.failures

-- A failure on the last rung, before it is told what comes of it.
record IsSpent (r0 : ℕ) (w : DialWorld) : Type 0 where
  counted : w.resets + r0 ≡ w.st.resets_in_window
  capped : (w.resets ≡ 0) ⊎ (w.st.resets_in_window ≤ 3)
  rung : w.st.attempt ≤ 5
  paid : w.resets * 6 + 6 ≤ w.st.failures

reset_bound : (n : ℕ) → not (fm160_net_reset_allowed n) ≡ false → n < 3
unfolding fm160_net_reset_allowed
reset_bound n h = ground arith

dial_escalate-Paid :
    (r0 : ℕ) (k : Clock) (w : DialWorld) → IsSpent r0 w → Paid r0 (dial_escalate k w)
unfolding dial_escalate ledger_note_reset
dial_escalate-Paid r0 k w s = elim (Bool-cases (not w.st.allow_reset)) [
  | inl forbidden ↦ rw forbidden (record {
    counted = s.counted;
    capped = s.capped;
    rung = s.rung;
    paid = omega (arith, s.paid, s.rung);
  })
  | inr permitted ↦ elim (Bool-cases (not (fm160_net_reset_allowed w.st.resets_in_window))) [
    | inl over ↦
        rw (permitted, over)
          (record {
            counted = s.counted;
            capped = s.capped;
            rung = s.rung;
            paid = omega (arith, s.paid, s.rung);
          })
    | inr within ↦
        let few = reset_bound w.st.resets_in_window within in
        rw (permitted, within)
          (record {
            counted = omega (arith, s.counted);
            capped = inr (omega (arith, few));
            rung = omega arith;
            paid = omega (arith, s.paid);
          })
  ]
]

pub dial_fail-Paid : (r0 : ℕ) (k : Clock) (w : DialWorld) → Paid r0 w → Paid r0 (dial_fail k w)
unfolding dial_fail
dial_fail-Paid r0 k w p = elim (Bool-cases (leb net_ladder_max w.st.attempt)) [
  | inl spent ↦
      let last : w.st.attempt ≡ 5 = ground (arith, p.rung) in
      rw spent (
        dial_escalate-Paid r0 k _ (record {
          counted = p.counted;
          capped = p.capped;
          rung = p.rung;
          paid = omega (arith, p.paid, last);
        }))
  | inr more ↦
      let left : w.st.attempt < 5 = ground arith in
      rw more (record {
        counted = p.counted;
        capped = p.capped;
        rung = omega (arith, left);
        paid = omega (arith, p.paid);
      })
]

-- A callback that keeps what is paid.
abbrev Keeps : ℕ → (Clock → Status → Bytes → DialWorld → DialWorld) → Type 0
Keeps r0 cb =
    (k : Clock) (status : Status) (resp : Bytes) (w : DialWorld)
    → Paid r0 w
    → Paid r0 (cb k status resp w)

judge_cpin-Paid :
    (r0 : ℕ) (answer : CpinAnswer) (k : Clock) (w : DialWorld)
    → Paid r0 w
    → Paid r0 (judge_cpin answer k w)
unfolding judge_cpin
judge_cpin-Paid r0 ready k w p = p
judge_cpin-Paid r0 not_ready k w p = dial_fail-Paid r0 k (idle w) p
judge_cpin-Paid r0 no_cpin k w p = dial_fail-Paid r0 k (idle w) p

pub cb_pin-Paid : (r0 : ℕ) → Keeps r0 cb_pin
unfolding cb_pin
cb_pin-Paid r0 k status resp w p = elim (Bool-cases (not (is_ok status))) [
  | inl bad ↦ rw bad (dial_fail-Paid r0 k (idle w) p)
  | inr good ↦ rw good (judge_cpin-Paid r0 (fm160_net_parse_cpin resp) k w p)
]

pub cb_reg-Paid : (r0 : ℕ) → Keeps r0 cb_reg
unfolding cb_reg
cb_reg-Paid r0 k status resp w p = elim (Bool-cases (is_registered status resp w.st.sub)) [
  | inl here ↦ rw here p
  | inr away ↦ elim (Bool-cases (ltb (w.st.sub + 1) dial_reg_subs)) [
    | inl more ↦ rw (away, more) p
    | inr last ↦ rw (away, last) (dial_fail-Paid r0 k _ p)
  ]
]

pub cb_apn-Paid : (r0 : ℕ) → Keeps r0 cb_apn
unfolding cb_apn
cb_apn-Paid r0 k status resp w p = elim (Bool-cases (not (is_ok status))) [
  | inl bad ↦ rw bad (dial_fail-Paid r0 k (idle w) p)
  | inr good ↦ rw good p
]

pub cb_verb_probe-Paid : (r0 : ℕ) (v : NetVerb) → Keeps r0 (cb_verb_probe v)
unfolding cb_verb_probe
cb_verb_probe-Paid r0 v k answered_ok resp w p = p
cb_verb_probe-Paid r0 gtwwan k timed_out resp w p = p
cb_verb_probe-Paid r0 gtwwan k not_ok resp w p = p
cb_verb_probe-Paid r0 gtrndis k timed_out resp w p = dial_fail-Paid r0 k (idle w) p
cb_verb_probe-Paid r0 gtrndis k not_ok resp w p = dial_fail-Paid r0 k (idle w) p

pub cb_activate-Paid : (r0 : ℕ) → Keeps r0 cb_activate
unfolding cb_activate
cb_activate-Paid r0 k status resp w p =
    let r = wwan_read (fm160_net_parse_wwan resp) in
    elim (Bool-cases (is_ok status && r.valid && is_int r.active 0)) [
      | inl down ↦ rw down (dial_fail-Paid r0 k (idle w) p)
      | inr else_where ↦ rw else_where p
    ]

ip_not_yet-Paid : (r0 : ℕ) (k : Clock) (w : DialWorld) → Paid r0 w → Paid r0 (ip_not_yet k w)
unfolding ip_not_yet
ip_not_yet-Paid r0 k w p = elim (Bool-cases (ltb (w.st.ip_polls + 1) dial_ip_max_polls)) [
  | inl again ↦ rw again p
  | inr last ↦ rw last (dial_fail-Paid r0 k _ p)
]

pub cb_ip-Paid : (r0 : ℕ) → Keeps r0 cb_ip
unfolding cb_ip
cb_ip-Paid r0 k status resp w p =
    let r = wwan_read (fm160_net_parse_wwan resp) in
    elim (Bool-cases (not (is_ok status && r.valid))) [
      | inl unread ↦ rw unread (ip_not_yet-Paid r0 k (idle w) p)
      | inr read ↦ elim (Bool-cases (is_int r.active 0)) [
        | inl down ↦ rw (read, down) (dial_fail-Paid r0 k (idle w) p)
        | inr active ↦ elim (Bool-cases (not r.has_addr)) [
          | inl without ↦ rw (read, active) (rw without (ip_not_yet-Paid r0 k (idle w) p))
          | inr found ↦ elim (Bool-cases (not (fm160_net_addr_ok r.addr))) [
            | inl bad ↦ rw (read, active) (rw (found, bad) (dial_fail-Paid r0 k (idle w) p))
            | inr good ↦
                rw (read, active)
                  (rw (found, good)
                    (record {
                      counted = p.counted;
                      capped = p.capped;
                      rung = omega arith;
                      paid = omega (arith, p.paid);
                    }))
          ]
        ]
      ]
    ]

pub cb_down-Paid : (r0 : ℕ) → Keeps r0 cb_down
unfolding cb_down
cb_down-Paid r0 k status resp w p = p
