-- ===== src/Dial/Calls.antt =====
-- fm160d/src/dialer.c: `fm160_dial_init`, `_configure`, `_start`, `_stop` and `_tick`.
use openwrt_fm.Dial.{
  NetStep, step_idle, step_pin, step_reg, step_apn, step_activate, step_ip, step_up, step_down,
  Dial, DialWorld, Clock, dial_reactivate_ms, dial_reg_subs, dial_to, dial_stop_healing, dial_fail,
  Outcome, cb_pin, cb_reg, cb_apn, cb_verb_probe, cb_activate, cb_ip, cb_down, dial_submit,
}
use openwrt_fm.Dial.Stamps.{ledger_count, ledger_max, read_stamps}
use openwrt_fm.Net.{
  NetVerb, gtwwan, gtrndis, pdp_ip, fm160_net_pdp_parse, fm160_net_cid_ok, fm160_net_apn_ok,
  fm160_net_apn_command, fm160_net_activate_command, net_cmd_max,
}
use openwrt_fm.Usb.{kind_none, kind_ecm, same_kind, fm160_usbmode_kind}
use openwrt_fm.Base.{
  ℕ, ◌+◌, Bool, true, false, not, ◌&&◌, ◌||◌, [], Option, none, some, ◌==◌, ltb, leb, if◌then◌else◌,
  Bytes,
}

-- The option `reset_stamps` and `reset_total` as a start finds them.
unfoldable pub fm160_dial_init : Clock → Bytes → ℕ → Dial
fm160_dial_init k stamps total = record {
  wanted = false;
  step = step_idle;
  kind = kind_none;
  kind_known = false;
  cid = 1;
  pdp = pdp_ip;
  apn = [];
  up = false;
  addr = [];
  dns1 = [];
  dns2 = [];
  verb = none;
  attempt = 0;
  attempt_ms = 0;
  next_try_ms = 0;
  ip_polls = 0;
  sub = 0;
  running = false;
  sim_ready = false;
  was_up = false;
  allow_reset = false;
  autostart = false;
  autostart_done = false;
  config_error = false;
  last_ok_ms = 0;
  resets_in_window = ledger_count ledger_max k.wall_s (read_stamps stamps);
  resets_total = total;
  healing_stopped = false;
  starts = 0;
  failures = 0;
}

-- The arguments of `fm160_dial_configure`; an empty text is the NULL that is treated like it.
pub record DialConfig : Type 0 where
  pub apn : Bytes
  pub pdp : Bytes
  pub cid : ℕ
  pub allow_reset : Bool
  pub autostart : Bool

unfoldable pub fm160_dial_configure : DialConfig → Dial → Dial
fm160_dial_configure c st = record st {
  allow_reset = c.allow_reset;
  autostart = c.autostart;
  autostart_done = if c.autostart then st.autostart_done else false;
  apn = if fm160_net_apn_ok c.apn then c.apn else st.apn;
  pdp = elim (fm160_net_pdp_parse c.pdp) [ none ↦ st.pdp | some p ↦ p ];
  cid = if fm160_net_cid_ok c.cid then c.cid else st.cid;
}

-- What the calls read of `g_state`; a profile that is not known is `none`.
pub record DialEnv : Type 0 where
  pub clock : Clock
  pub enabled : Bool
  pub port_found : Bool
  pub at_state : ℕ
  pub depth : ℕ
  pub usb_mode : Option ℕ

abbrev pub dial_kind_is_ours : Dial → Bool
dial_kind_is_ours st = st.kind_known && same_kind st.kind kind_ecm

-- 0, and the negative errno values.
pub data StartCode : Type 0 where
  started einval eagain enotsup : StartCode

unfoldable pub fm160_dial_start : DialEnv → Dial → Dial × StartCode
fm160_dial_start env st =
    if st.wanted && not st.healing_stopped
    then (st, started)
    else if not (fm160_net_apn_ok st.apn)
    then (record st { config_error = true }, einval)
    else if not (dial_kind_is_ours st)
    then (st, if st.kind_known then enotsup else eagain)
    else if not env.port_found
    then (st, eagain)
    else (
      dial_to step_pin (record st {
        config_error = false;
        healing_stopped = false;
        wanted = true;
        attempt = 0;
        attempt_ms = env.clock.now_ms;
        next_try_ms = 0;
        ip_polls = 0;
        was_up = false;
        up = false;
        starts = st.starts + 1;
      }),
      started,
    )

abbrev pub is_down : NetStep → Bool
is_down step_down = true
is_down _ = false

-- The teardown, with the verb as an argument of its own.
unfoldable pub stop_with : DialEnv → Outcome → Option NetVerb → DialWorld → DialWorld
stop_with env out none w = record w { st = record w.st { step = step_down } }
stop_with env out (some v) w = elim (fm160_net_activate_command net_cmd_max v w.st.cid false) [
  | none ↦ record w { st = record w.st { step = step_down } }
  | some cmd ↦
      let sent = dial_submit env.clock out cb_down w in
      record sent { st = dial_to step_down sent.st }
]

unfoldable pub fm160_dial_stop : DialEnv → Outcome → DialWorld → DialWorld
fm160_dial_stop env out w =
    if not w.st.wanted && is_down w.st.step
    then w
    else stop_with env out w.st.verb (record w {
      st = record w.st {
        wanted = false;
        up = false;
        config_error = false;
        ip_polls = 0;
        sub = 0;
        next_try_ms = 0;
      };
    })

unfoldable pub dial_sync_kind : DialEnv → Dial → Dial
dial_sync_kind env st = elim env.usb_mode [
  | none ↦ record st { kind_known = false; kind = kind_none }
  | some mode ↦ record st { kind_known = true; kind = fm160_usbmode_kind mode }
]

-- One attempt for each boot, if uci asks for it.
unfoldable pub tick_autostart : DialEnv → Dial → Dial
tick_autostart env st =
    if st.autostart
      && not st.autostart_done
      && st.kind_known
      && not st.wanted
      && not st.config_error
    then (fm160_dial_start env (record st { autostart_done = true })).0
    else st

-- The rung of the PDP context.
unfoldable pub tick_apn : Clock → Outcome → DialWorld → DialWorld
tick_apn k out w = elim (fm160_net_apn_command net_cmd_max w.st.cid w.st.pdp w.st.apn) [
  | none ↦ record w { st = dial_stop_healing (record w.st { config_error = true }) }
  | some cmd ↦ dial_submit k out cb_apn w
]

abbrev pub is_built : Option Bytes → Bool
is_built none = false
is_built (some cmd) = true

-- The rung of the activation with its verb known, and `was_up` as an argument of its own. The answer to
-- a deactivation that comes first is not looked at.
unfoldable pub tick_verb : Clock → Outcome → NetVerb → Bool → DialWorld → DialWorld
tick_verb k out v true w = record w {
  st = record w.st {
    was_up = false;
    next_try_ms =
        if is_built (fm160_net_activate_command net_cmd_max v w.st.cid false)
        then k.now_ms + dial_reactivate_ms
        else w.st.next_try_ms;
  };
}
tick_verb k out v false w =
    if not (is_built (fm160_net_activate_command net_cmd_max v w.st.cid true))
    then dial_fail k w
    else dial_submit k out cb_activate w

-- The rung of the activation, with the verb as an argument of its own.
unfoldable pub tick_activate : Clock → Outcome → Option NetVerb → DialWorld → DialWorld
tick_activate k out none w =
    if w.st.sub == 0
    then dial_submit k out (cb_verb_probe gtwwan) w
    else if w.st.sub == 1
    then dial_submit k out (cb_verb_probe gtrndis) w
    else dial_fail k (record w { st = record w.st { sub = 0 } })
tick_activate k out (some v) w = tick_verb k out v w.st.was_up w

-- The `switch` of `fm160_dial_tick`, with the step as an argument of its own.
unfoldable pub tick_step : Clock → Outcome → NetStep → DialWorld → DialWorld
tick_step k out step_pin w = dial_submit k out cb_pin w
tick_step k out step_reg w =
    if leb dial_reg_subs w.st.sub
    then dial_fail k (record w { st = record w.st { sub = 0 } })
    else dial_submit k out cb_reg w
tick_step k out step_apn w = tick_apn k out w
tick_step k out step_activate w = tick_activate k out w.st.verb w
tick_step k out step_ip w = dial_submit k out cb_ip w
tick_step k out step_up w = dial_submit k out cb_ip w
tick_step k out _ w = w

-- The returns in front of the `switch`.
abbrev pub holds_back : DialEnv → Dial → Bool
holds_back env st =
    not st.wanted
    || st.healing_stopped
    || not env.port_found
    || leb 2 env.at_state
    || st.running
    || ltb env.clock.now_ms st.next_try_ms
    || leb 3 env.depth

unfoldable pub fm160_dial_tick : DialEnv → Outcome → DialWorld → DialWorld
fm160_dial_tick env out w =
    let ready = record w { st = tick_autostart env (dial_sync_kind env w.st) } in
    if not env.enabled
    then w
    else if holds_back env ready.st
    then ready
    else tick_step env.clock out ready.st.step ready
