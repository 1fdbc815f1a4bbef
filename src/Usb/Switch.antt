-- ===== src/Usb/Switch.antt =====
-- fm160d/src/modesw.c, the switch to another USB profile: `g_state.modesw`, the section `switch` of
-- the daemon's uci file, which a restart leaves as it is, and the profiles written to the module by
-- `AT+GTUSBMODE=`. A number below 0 is `none`. What the clock, the port and the daemon's settings say
-- is an argument, and so is what `atq_submit` answers: the queue may refuse the command, keep it, or
-- have the module's answer given to the callback before it returns. The texts of `last_error`, the
-- log and `fm160_state_mark_dirty` are left out.
pub mod Steps
pub mod Safe
pub mod Marker
pub mod Stuck
use openwrt_fm.Atq.{AtStatus, at_ok, at_timeout}
use openwrt_fm.Usb.{
  Verdict, deny_list_unknown, usb_ok, usb_ok_same, fm160_usbmode_decide,
  fm160_usbmode_verdict_is_ok,
}
use openwrt_fm.Base.{
  ℕ, zero, suc, ◌+◌, ◌-◌, ◌*◌, Bool, true, false, not, ◌&&◌, ◌||◌, List, [], ◌∷◌, ◌++◌, Option,
  none, some, ◌==◌, ltb, leb, if◌then◌else◌, take,
}

-- `MODESW_STUCK_MS`, `MODESW_APPLY_GRACE_MS` and `FM160_USBMODE_SUP_MAX`.
abbrev pub modesw_stuck_ms : ℕ
modesw_stuck_ms = 120000

abbrev pub modesw_apply_grace_ms : ℕ
modesw_apply_grace_ms = 15000

abbrev pub usbmode_sup_max : ℕ
usbmode_sup_max = 32

-- `enum fm160_modesw_state`; nothing enters `MODESW_CAPS`.
pub data SwitchState : Type 0 where
  modesw_idle modesw_apply modesw_verify modesw_stuck : SwitchState

-- 0, 1 and -1 of `verify_result`.
pub data VerifyResult : Type 0 where
  unverified arrived failed : VerifyResult

-- `struct fm160_modesw`.
pub record ModeSwitch : Type 0 where
  pub st : SwitchState
  pub current : Option ℕ
  pub target : Option ℕ
  pub rollback_mode : Option ℕ
  pub caps_valid : Bool
  pub supported : List ℕ
  pub pending : Bool
  pub pending_since_ms : ℕ
  pub applied_ms : ℕ
  pub verify_result : VerifyResult
  pub rolled_back : Bool
  pub busy : Bool

-- The section `switch`; `pending_since` is 0 where the option is missing.
pub record UciSwitch : Type 0 where
  pub pending : Bool
  pub rollback_mode : Option ℕ
  pub target : Option ℕ
  pub pending_since : ℕ

-- The callbacks handed to `atq_submit`.
pub data Callback : Type 0 where
  cb_apply cb_rollback : Callback

-- The daemon and what lies outside of it: the file, the commands whose answer is awaited, the first
-- one first, and the profiles that commands accepted by the queue name, the last one first.
pub record World : Type 0 where
  pub m : ModeSwitch
  pub uci : UciSwitch
  pub waiting : List Callback
  pub writes : List ℕ

-- What `atq_submit` does with a command.
pub data Submission : Type 0 where
  refused kept : Submission
  answered : AtStatus → Submission

-- `time(NULL)`, `fm160_now_ms()`, `g_state.port_found` and `g_state.enabled`.
pub record Env : Type 0 where
  pub wall_s : ℕ
  pub now_ms : ℕ
  pub port_found : Bool
  pub enabled : Bool

abbrev pub uci_clear_pending : UciSwitch → UciSwitch
uci_clear_pending uci = record uci { pending = false }

abbrev pub uci_note_pending : Env → ℕ → ℕ → UciSwitch → UciSwitch
uci_note_pending env target rollback uci = record {
  pending = true;
  rollback_mode = some rollback;
  target = some target;
  pending_since = env.wall_s;
}

-- When the switch was applied, on the clock of the new process.
abbrev pub carried_since : Env → ℕ → ℕ
carried_since env since =
    let age = (env.wall_s - since) * 1000 in
    if ltb 0 since && leb since env.wall_s
    then (if ltb age env.now_ms then env.now_ms - age else 0)
    else env.now_ms

unfoldable pub fm160_modesw_init : Env → UciSwitch → ModeSwitch
fm160_modesw_init env uci = record {
  st = if uci.pending then modesw_verify else modesw_idle;
  current = none;
  target = uci.target;
  rollback_mode = uci.rollback_mode;
  caps_valid = false;
  supported = [];
  pending = uci.pending;
  pending_since_ms = if uci.pending then carried_since env uci.pending_since else 0;
  applied_ms = 0;
  verify_result = unverified;
  rolled_back = false;
  busy = false;
}

unfoldable pub verify_settle : VerifyResult → Bool → World → World
verify_settle result rolled_back w = record w {
  m = record w.m {
    pending = false;
    st = modesw_idle;
    verify_result = result;
    rolled_back = rolled_back;
  };
  uci = uci_clear_pending w.uci;
}

unfoldable pub run_cb_rollback : World → World
run_cb_rollback w = record w { m = record w.m { busy = false } }

unfoldable pub run_cb_apply : Env → AtStatus → World → World
run_cb_apply env at_ok w = record w {
  m = record w.m { busy = false; st = modesw_verify; applied_ms = env.now_ms };
}
run_cb_apply env at_timeout w = record w {
  m = record w.m { busy = false; st = modesw_verify; applied_ms = env.now_ms };
}
run_cb_apply env _ w = record w {
  m = record w.m {
    busy = false;
    pending = false;
    st = modesw_idle;
    verify_result = failed;
    rolled_back = false;
  };
  uci = uci_clear_pending w.uci;
}

unfoldable pub run_callback : Env → Callback → AtStatus → World → World
run_callback env cb_apply status w = run_cb_apply env status w
run_callback env cb_rollback status w = run_cb_rollback w

-- `AT+GTUSBMODE=<mode>` that the queue took, and its callback where the answer is there already.
unfoldable pub submitted : Env → ℕ → Callback → Submission → World → World
submitted env mode cb refused w = w
submitted env mode cb kept w = record w {
  waiting = w.waiting ++ (cb ∷ []);
  writes = mode ∷ w.writes;
}
submitted env mode cb (answered status) w =
    run_callback env cb status (record w { writes = mode ∷ w.writes })

abbrev pub is_refused : Submission → Bool
is_refused refused = true
is_refused _ = false

abbrev pub is_mode : Option ℕ → ℕ → Bool
is_mode none mode = false
is_mode (some x) mode = x == mode

-- `verify_mismatch` from the command on.
unfoldable pub send_rollback : Env → Submission → ℕ → World → World
send_rollback env sub back w =
    if is_refused sub
    then verify_settle failed false (record w { m = record w.m { busy = false } })
    else let sent =
        submitted env back cb_rollback sub (record w { m = record w.m { busy = true } }) in
      record sent {
        m = record sent.m {
          rolled_back = true;
          verify_result = failed;
          target = some back;
          st = modesw_apply;
          applied_ms = env.now_ms;
        };
        uci = uci_note_pending env back back sent.uci;
      }

-- `verify_mismatch`, with the rollback point as an argument of its own.
unfoldable pub mismatch_at : Env → Submission → ℕ → Option ℕ → World → World
mismatch_at env sub seen none w = verify_settle failed w.m.rolled_back w
mismatch_at env sub seen (some back) w =
    if w.m.rolled_back || back == seen
    then verify_settle failed w.m.rolled_back w
    else send_rollback env sub back w

unfoldable pub verify_mismatch : Env → Submission → ℕ → World → World
verify_mismatch env sub seen w = mismatch_at env sub seen w.m.rollback_mode w

-- `fm160_modesw_note_current` behind the first assignment, with the target as an argument of its own.
unfoldable pub judge_current : Env → Submission → ℕ → Option ℕ → World → World
judge_current env sub mode none w = w
judge_current env sub mode (some target) w =
    if not w.m.pending
    then w
    else if mode == target
    then verify_settle arrived w.m.rolled_back w
    else verify_mismatch env sub mode w

unfoldable pub fm160_modesw_note_current : Env → Submission → ℕ → World → World
fm160_modesw_note_current env sub mode w =
    judge_current env sub mode w.m.target (record w { m = record w.m { current = some mode } })

unfoldable pub fm160_modesw_note_caps : List ℕ → World → World
fm160_modesw_note_caps modes w = record w {
  m = record w.m { supported = take usbmode_sup_max modes; caps_valid = true };
}

-- What `fm160_ident_reset` of fm160d/src/cmds.c forgets of the switch.
unfoldable pub fm160_ident_reset : World → World
fm160_ident_reset w = record w {
  m = record w.m { current = none; caps_valid = false; supported = [] };
}

-- 0, and the negative errno values.
pub data ApplyCode : Type 0 where
  done eperm ebusy eagain eio : ApplyCode

-- The rollback point and the marker, before the command.
abbrev pub marked : Env → ℕ → ℕ → World → World
marked env target cur w = record w {
  m = record w.m {
    target = some target;
    rollback_mode = some cur;
    pending = true;
    rolled_back = false;
    verify_result = unverified;
    pending_since_ms = env.now_ms;
    applied_ms = env.now_ms;
    st = modesw_apply;
    busy = true;
  };
  uci = uci_note_pending env target cur w.uci;
}

-- `fm160_modesw_apply` from the point where the decision has said yes.
unfoldable pub apply_from : Env → Submission → ℕ → ℕ → World → World × ApplyCode
apply_from env sub target cur w =
    let begun = marked env target cur w in
    if is_refused sub
    then (
      record begun {
        m = record begun.m { busy = false; pending = false; st = modesw_idle };
        uci = uci_clear_pending begun.uci;
      },
      eio,
    )
    else (submitted env target cb_apply sub begun, done)

-- From the test of the active profile on, which `cur` is.
unfoldable pub apply_known : Env → Submission → ℕ → Option ℕ → World → World × ApplyCode
apply_known env sub target none w = (w, eperm)
apply_known env sub target (some cur) w =
    if not env.port_found then (w, eagain) else apply_from env sub target cur w

abbrev pub is_stuck : SwitchState → Bool
is_stuck modesw_stuck = true
is_stuck _ = false

abbrev pub is_same : Verdict → Bool
is_same usb_ok_same = true
is_same _ = false

abbrev pub denial_code : Verdict → ApplyCode
denial_code deny_list_unknown = eagain
denial_code _ = eperm

unfoldable pub fm160_modesw_apply : Env → Submission → ℕ → Bool → World → World × ApplyCode
fm160_modesw_apply env sub target advanced_ok w =
    let verdict =
      fm160_usbmode_decide w.m.current target w.m.supported w.m.caps_valid advanced_ok in
    if is_stuck w.m.st
    then (w, eperm)
    else if w.m.busy || w.m.pending
    then (w, ebusy)
    else if not env.enabled
    then (w, eagain)
    else if is_same verdict
    then (w, done)
    else if not (fm160_usbmode_verdict_is_ok verdict)
    then (w, denial_code verdict)
    else apply_known env sub target w.m.current w

-- The first test of `fm160_modesw_tick` that sets the state.
abbrev pub grace_over : Env → ModeSwitch → SwitchState → SwitchState
grace_over env m modesw_apply =
    if ltb modesw_apply_grace_ms (env.now_ms - m.applied_ms) then modesw_verify else modesw_apply
grace_over env m st = st

-- Its end, from `MODESW_VERIFY` on.
abbrev pub stuck_after : Env → ModeSwitch → SwitchState → SwitchState
stuck_after env m modesw_verify =
    if env.port_found
    then modesw_verify
    else if ltb (env.now_ms - m.pending_since_ms) modesw_stuck_ms
    then modesw_verify
    else modesw_stuck
stuck_after env m st = st

unfoldable pub fm160_modesw_tick : Env → ModeSwitch → ModeSwitch
fm160_modesw_tick env m = record m {
  st = if is_stuck m.st || not m.pending then m.st else stuck_after env m (grace_over env m m.st);
}
