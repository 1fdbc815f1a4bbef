-- ===== src/Dial.antt =====
-- fm160d/src/dialer.c, the dialler of the ECM profile: `g_state.dial`, the rungs of the ladder with
-- their callbacks, the ledger of module resets and the calls of fm160d.h. A command is answered before
-- `atq_submit` returns, as `ubus_invoke` is synchronous, or refused: both are an argument. What a
-- callback reads of an answer is read by the parsers of net.c; where `fm160_net_parse_wwan` leaves its
-- array the model goes on without an address. The ledger's option in uci keeps what is written to
-- it. The texts of `last_error`, `pdp_in_use`, log lines and `fm160_state_mark_dirty` are left
-- out.
pub mod Stamps
pub mod Calls
pub mod Ladder
pub mod Budget
pub mod Link
pub mod Ledger
mod Tests
use openwrt_fm.Dial.Stamps.{noted_stamps}
use openwrt_fm.Net.{
  NetVerb, gtwwan, gtrndis, NetPdp, pdp_ip, fm160_net_cid_ok, fm160_net_apn_ok,
  fm160_net_apn_command, fm160_net_probe_command, fm160_net_activate_command, fm160_net_backoff_ms,
  fm160_net_reset_allowed, net_ladder_max, net_cmd_max,
}
use openwrt_fm.Net.Address.{fm160_net_addr_ok}
use openwrt_fm.Net.Answers.{
  NetWwan, no_wwan, WwanResult, parsed, outside, fm160_net_parse_wwan, fm160_net_parse_cpin,
  CpinAnswer, ready, not_ready, no_cpin, fm160_net_parse_reg, is_int,
}
use openwrt_fm.Text.{ℤ}
use openwrt_fm.Usb.{DialKind, kind_none, kind_ecm, same_kind, fm160_usbmode_kind}
use openwrt_fm.Base.{
  ℕ, zero, suc, ◌+◌, ◌-◌, Bool, true, false, not, ◌&&◌, ◌||◌, List, [], ◌∷◌, ◌++◌, Option, none,
  some, ◌==◌, ltb, leb, if◌then◌else◌, Bytes, codes, take,
}

-- `enum fm160_net_step`; nothing enters `NET_STEP_BUSY`.
pub data NetStep : Type 0 where
  step_idle step_pin step_reg step_apn step_activate step_ip step_up step_failed step_down : NetStep

-- `struct fm160_dial_state`; a verb that is not probed is `none`.
pub record Dial : Type 0 where
  pub wanted : Bool
  pub step : NetStep
  pub kind : DialKind
  pub kind_known : Bool
  pub cid : ℕ
  pub pdp : NetPdp
  pub apn : Bytes
  pub up : Bool
  pub addr : Bytes
  pub dns1 : Bytes
  pub dns2 : Bytes
  pub verb : Option NetVerb
  pub attempt : ℕ
  pub attempt_ms : ℕ
  pub next_try_ms : ℕ
  pub ip_polls : ℕ
  pub sub : ℕ
  pub running : Bool
  pub sim_ready : Bool
  pub was_up : Bool
  pub allow_reset : Bool
  pub autostart : Bool
  pub autostart_done : Bool
  pub config_error : Bool
  pub last_ok_ms : ℕ
  pub resets_in_window : ℕ
  pub resets_total : ℕ
  pub healing_stopped : Bool
  pub starts : ℕ
  pub failures : ℕ

-- The state, the option `reset_stamps`, empty where it is missing, and the module resets submitted.
pub record DialWorld : Type 0 where
  pub st : Dial
  pub stamps : Bytes
  pub resets : ℕ

-- `fm160_now_ms()` and `time(NULL)`.
pub record Clock : Type 0 where
  pub now_ms : ℕ
  pub wall_s : ℕ

abbrev pub dial_uint64_max : ℕ
dial_uint64_max = 18446744073709551615

-- `DIAL_IP_GAP_MS`, `DIAL_IP_MAX_POLLS`, `DIAL_SUPERVISE_MS`, `DIAL_POST_RESET_MS`,
-- `DIAL_REACTIVATE_MS` and `DIAL_REG_SUBS`.
abbrev pub dial_ip_gap_ms : ℕ
dial_ip_gap_ms = 2000

abbrev pub dial_ip_max_polls : ℕ
dial_ip_max_polls = 5

abbrev pub dial_supervise_ms : ℕ
dial_supervise_ms = 60000

abbrev pub dial_post_reset_ms : ℕ
dial_post_reset_ms = 30000

abbrev pub dial_reactivate_ms : ℕ
dial_reactivate_ms = 1000

abbrev pub dial_reg_subs : ℕ
dial_reg_subs = 3

unfoldable pub ledger_note_reset : Clock → DialWorld → DialWorld
ledger_note_reset k w = record w {
  st = record w.st {
    resets_total = w.st.resets_total + 1;
    resets_in_window = w.st.resets_in_window + 1;
  };
  stamps = noted_stamps k.wall_s w.stamps;
}

abbrev pub dial_to : NetStep → Dial → Dial
dial_to step st = record st { step = step; sub = 0 }

abbrev pub dial_stop_healing : Dial → Dial
dial_stop_healing st =
    dial_to step_failed (record st { healing_stopped = true; next_try_ms = dial_uint64_max })

unfoldable pub dial_escalate : Clock → DialWorld → DialWorld
dial_escalate k w =
    if not w.st.allow_reset
    then record w { st = dial_stop_healing w.st }
    else if not (fm160_net_reset_allowed w.st.resets_in_window)
    then record w { st = dial_stop_healing w.st }
    else let noted = ledger_note_reset k w in
      record noted {
        st = dial_to step_pin (record noted.st {
          attempt = 0;
          attempt_ms = k.now_ms;
          next_try_ms = k.now_ms + dial_post_reset_ms;
        });
        resets = noted.resets + 1;
      }

unfoldable pub dial_fail : Clock → DialWorld → DialWorld
dial_fail k w =
    let st = record w.st {
      failures = w.st.failures + 1;
      running = false;
      up = false;
      ip_polls = 0;
    } in
    if leb net_ladder_max st.attempt then dial_escalate k (record w { st = st }) else record w {
      st = dial_to step_pin (record st {
        next_try_ms = k.now_ms + fm160_net_backoff_ms st.attempt;
        attempt = st.attempt + 1;
        attempt_ms = k.now_ms;
      });
    }

-- `enum at_status`, as far as the callbacks tell it apart.
pub data Status : Type 0 where
  answered_ok timed_out not_ok : Status

abbrev pub is_ok : Status → Bool
is_ok answered_ok = true
is_ok _ = false

-- What `atq_submit` does: refuse the command, or have it answered later.
pub data Outcome : Type 0 where
  refused : Outcome
  answered : Clock → Status → Bytes → Outcome

abbrev pub idle : DialWorld → DialWorld
idle w = record w { st = record w.st { running = false } }

-- A rung that is passed.
abbrev pub pass_to : NetStep → DialWorld → DialWorld
pass_to step w = record w { st = dial_to step (record w.st { next_try_ms = 0 }) }

-- The three answers of `fm160_net_parse_cpin`.
unfoldable pub judge_cpin : CpinAnswer → Clock → DialWorld → DialWorld
judge_cpin ready k w =
    pass_to step_reg (record w { st = record w.st { running = false; sim_ready = true } })
judge_cpin not_ready k w = dial_fail k (idle w)
judge_cpin no_cpin k w = dial_fail k (idle w)

unfoldable pub cb_pin : Clock → Status → Bytes → DialWorld → DialWorld
cb_pin k status resp w =
    if not (is_ok status) then dial_fail k (idle w) else judge_cpin (fm160_net_parse_cpin resp) k w

abbrev pub reg_token : ℕ → Bytes
reg_token sub = if sub == 0 then codes "CREG" else if sub == 1 then codes "CGREG" else codes "CEREG"

-- Registered at home or roaming.
abbrev pub is_registered : Status → Bytes → ℕ → Bool
is_registered status resp sub =
    is_ok status
    && (is_int (fm160_net_parse_reg resp (reg_token sub)) 1
        || is_int (fm160_net_parse_reg resp (reg_token sub)) 5)

unfoldable pub cb_reg : Clock → Status → Bytes → DialWorld → DialWorld
cb_reg k status resp w =
    let asked = record w { st = record w.st { running = false; sub = w.st.sub + 1 } } in
    if is_registered status resp w.st.sub
    then pass_to step_apn (idle w)
    else if ltb (w.st.sub + 1) dial_reg_subs
    then record asked { st = record asked.st { next_try_ms = 0 } }
    else dial_fail k asked

unfoldable pub cb_apn : Clock → Status → Bytes → DialWorld → DialWorld
cb_apn k status resp w =
    if not (is_ok status) then dial_fail k (idle w) else pass_to step_activate (idle w)

unfoldable pub cb_verb_probe : NetVerb → Clock → Status → Bytes → DialWorld → DialWorld
cb_verb_probe tried k answered_ok resp w = record w {
  st = record w.st { running = false; verb = some tried; sub = 0; next_try_ms = 0 };
}
cb_verb_probe gtwwan k _ resp w = record w {
  st = record w.st { running = false; sub = 1; next_try_ms = 0 };
}
cb_verb_probe gtrndis k _ resp w = dial_fail k (idle w)

-- The struct that the parser leaves.
abbrev pub wwan_read : WwanResult → NetWwan
wwan_read (parsed st) = st
wwan_read outside = no_wwan

unfoldable pub cb_activate : Clock → Status → Bytes → DialWorld → DialWorld
cb_activate k status resp w =
    let r = wwan_read (fm160_net_parse_wwan resp) in
    if is_ok status && r.valid && is_int r.active 0
    then dial_fail k (idle w)
    else pass_to step_ip (idle w)

-- The label `not_yet` of `cb_ip`.
unfoldable pub ip_not_yet : Clock → DialWorld → DialWorld
ip_not_yet k w =
    let polled = record w { st = record w.st { ip_polls = w.st.ip_polls + 1 } } in
    if ltb (w.st.ip_polls + 1) dial_ip_max_polls
    then record polled { st = record polled.st { next_try_ms = k.now_ms + dial_ip_gap_ms } }
    else dial_fail k polled

-- The link is up with the address that was read.
abbrev pub link_up : Clock → NetWwan → Dial → Dial
link_up k r st = record st {
  addr = r.addr;
  dns1 = r.dns1;
  dns2 = r.dns2;
  up = true;
  was_up = true;
  last_ok_ms = k.now_ms;
  attempt = 0;
  attempt_ms = k.now_ms;
  ip_polls = 0;
  step = step_up;
  sub = 0;
  next_try_ms = k.now_ms + dial_supervise_ms;
}

unfoldable pub cb_ip : Clock → Status → Bytes → DialWorld → DialWorld
cb_ip k status resp w =
    let r = wwan_read (fm160_net_parse_wwan resp) in
    if not (is_ok status && r.valid)
    then ip_not_yet k (idle w)
    else if is_int r.active 0
    then dial_fail k (idle w)
    else if not r.has_addr
    then ip_not_yet k (idle w)
    else if not (fm160_net_addr_ok r.addr)
    then dial_fail k (idle w)
    else record w { st = link_up k r (record w.st { running = false }) }

unfoldable pub cb_down : Clock → Status → Bytes → DialWorld → DialWorld
cb_down k status resp w = record w {
  st = record w.st { running = false; step = step_down; sub = 0; up = false; was_up = false };
}

unfoldable pub dial_submit :
    Clock → Outcome → (Clock → Status → Bytes → DialWorld → DialWorld) → DialWorld → DialWorld
dial_submit k refused cb w = record w {
  st = record w.st { running = false; next_try_ms = k.now_ms + 2000 };
}
dial_submit k (answered later status resp) cb w =
    cb later status resp (record w { st = record w.st { running = true } })
