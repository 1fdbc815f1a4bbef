-- ===== src/Sched/Ports.antt =====
-- fm160d/src/sched.c, the search for the AT port: `tty_usb_ids`, `fm160_scan_candidates`, `probe_cb` and
-- `port_discovery_tick`. What sysfs holds is an argument: for each entry of /sys/class/tty its name and
-- what the directories from its device upwards say, up to /sys/devices. What becomes of a probe is an
-- argument too: the queue refuses it, keeps it, or has it answered before `atq_probe_port` returns.
pub mod Scan
pub mod Places
pub mod Sweep
use openwrt_fm.Sched.{Sched, fm160_sched_kick, probe_found}
use openwrt_fm.Atq.{AtStatus, at_ok}
use openwrt_fm.Atq.Replies.{fm160_resp_ok}
use openwrt_fm.Text.{behind, same_ignoring_case}
use openwrt_fm.Base.{
  ℕ, zero, suc, ◌+◌, ◌-◌, Bool, true, false, not, ◌&&◌, ◌||◌, List, [], ◌∷◌, ◌++◌, Option, none,
  some, ◌==◌, ltb, leb, if◌then◌else◌, Bytes, codes, length, get_or,
}

-- `FM160_CAND_MAX` and `PORT_PROBE_GAP_MS`.
abbrev pub cand_max : ℕ
cand_max = 12

abbrev pub port_probe_gap_ms : ℕ
port_probe_gap_ms = 5000

-- What a directory has of `idVendor` and `bInterfaceNumber`.
pub record Level : Type 0 where
  pub vendor : Option Bytes
  pub iface : Option ℕ

pub record Tty : Type 0 where
  pub name : Bytes
  pub levels : List Level

abbrev pub first_known {ℓ} : {A : Type ℓ} → Option A → Option A → Option A
first_known (some x) y = some x
first_known none y = y

-- The walk upwards, over `up` directories at most. It ends where both are known.
unfoldable pub ids_loop : ℕ → Option Bytes → Option ℕ → List Level → Option Bytes × Option ℕ
ids_loop zero vendor iface levels = (vendor, iface)
ids_loop (suc up) vendor iface [] = (vendor, iface)
ids_loop (suc up) vendor iface (level ∷ levels) =
    ids_loop up (first_known vendor level.vendor) (first_known iface level.iface) levels

unfoldable pub tty_usb_ids : Tty → Option Bytes × Option ℕ
tty_usb_ids tty = ids_loop 6 none none tty.levels

-- `enum cand_class`.
pub data CandClass : Type 0 where
  cand_at cand_at2 cand_fibocom cand_unknown cand_silent : CandClass

unfoldable pub cand_class_for : Option ℕ → CandClass
cand_class_for none = cand_fibocom
cand_class_for (some iface) =
    if iface == 2
    then cand_at
    else if iface == 1
    then cand_at2
    else if iface == 0
    then cand_silent
    else cand_fibocom

pub record Found : Type 0 where
  pub name : Bytes
  pub cls : CandClass

-- `FM160_VENDOR_ID`.
abbrev pub vendor_id : Bytes
vendor_id = codes "2cb7"

-- The class of a port, and `none` for one of another vendor.
unfoldable pub class_of : Option Bytes × Option ℕ → Option CandClass
class_of (none, iface) = some cand_unknown
class_of (some vid, iface) =
    if same_ignoring_case vid vendor_id then some (cand_class_for iface) else none

abbrev pub starts : Bytes → Bytes → Bool
starts prefix name = elim (behind prefix name) [ none ↦ false | some _ ↦ true ]

-- A USB serial port whose path fits the buffer.
abbrev pub is_serial : Bytes → Bool
is_serial name =
    (starts (codes "ttyUSB") name || starts (codes "ttyACM") name) && ltb (5 + length name) 32

-- The loop over the directory, with `room` entries left in `found`.
unfoldable pub found_loop : ℕ → List Tty → List Found
found_loop zero ttys = []
found_loop (suc room) [] = []
found_loop (suc room) (tty ∷ ttys) =
    elim (if is_serial tty.name then class_of (tty_usb_ids tty) else none) [
      | none ↦ found_loop (suc room) ttys
      | some cls ↦ record { name = codes "/dev/" ++ tty.name; cls = cls } ∷ found_loop room ttys
    ]

-- The numbers of the enumeration.
abbrev pub rank : CandClass → ℕ
rank cand_at = 0
rank cand_at2 = 1
rank cand_fibocom = 2
rank cand_unknown = 3
rank cand_silent = 4

abbrev pub same_class : CandClass → CandClass → Bool
same_class c d = rank c == rank d

-- One round of the loop that emits the candidates.
unfoldable pub emit : CandClass → List Found → List Bytes
emit cls [] = []
emit cls (f ∷ found) =
    let rest = emit cls found in if same_class f.cls cls then f.name ∷ rest else rest

abbrev pub emit_ranked : List Found → List Bytes
emit_ranked found =
    emit cand_at found
    ++ (emit cand_at2 found ++ (emit cand_fibocom found ++ emit cand_unknown found))

unfoldable pub fm160_scan_candidates : List Tty → List Bytes
fm160_scan_candidates ttys =
    let found = found_loop cand_max ttys in
    if length (emit_ranked found) == 0 then emit cand_silent found else emit_ranked found

-- The fields of `g_state` about the port, beside those of the scheduler, and the ports probed so far.
pub record Ports : Type 0 where
  pub sched : Sched
  pub port : Bytes
  pub cand : List Bytes
  pub cand_idx : ℕ
  pub port_probing : Bool
  pub port_next_probe_ms : ℕ
  pub probes : List Bytes

-- What becomes of `atq_probe_port`.
pub data Probe : Type 0 where
  refused kept : Probe
  answered : AtStatus → Option Bytes → Probe

abbrev pub is_answer : AtStatus → Option Bytes → Bool
is_answer at_ok response = fm160_resp_ok response
is_answer _ response = false

unfoldable pub probe_cb : ℕ → Bytes → AtStatus → Option Bytes → Ports → Ports
probe_cb now probed status response w =
    if is_answer status response
    then record w { sched = probe_found now w.sched; port = probed; port_probing = false }
    else record w { port_probing = false; port_next_probe_ms = 0 }

-- The probe of a candidate.
unfoldable pub send_probe : ℕ → Bytes → Probe → Ports → Ports
send_probe now name refused w = record w { port_probing = false; port_next_probe_ms = now + 500 }
send_probe now name kept w = record w {
  port_probing = true;
  cand_idx = w.cand_idx + 1;
  probes = w.probes ++ (name ∷ []);
}
send_probe now name (answered status response) w =
    let w' = probe_cb now name status response (record w { port_probing = true }) in
    record w' { cand_idx = w'.cand_idx + 1; probes = w'.probes ++ (name ∷ []) }

-- A candidate is left, at the index: its probe.
abbrev pub probe_next : ℕ → (Bytes → Probe) → Ports → Ports
probe_next now reply w =
    let name = get_or w.cand w.cand_idx [] in send_probe now name (reply name) w

-- The branch of `port_discovery_tick` without a port.
unfoldable pub look_for_port : ℕ → List Tty → (Bytes → Probe) → Ports → Ports
look_for_port now ttys reply w =
    let scanned = record w { cand = fm160_scan_candidates ttys; cand_idx = 0 } in
    if w.port_probing || ltb now w.port_next_probe_ms
    then w
    else if ltb w.cand_idx (length w.cand)
    then probe_next now reply w
    else if ltb 0 (length w.cand)
    then record w { cand = []; cand_idx = 0; port_next_probe_ms = now + port_probe_gap_ms }
    else if length (fm160_scan_candidates ttys) == 0
    then record scanned { port_next_probe_ms = now + port_probe_gap_ms }
    else probe_next now reply scanned

-- The branch with a port, which may be given up.
unfoldable pub watch : ℕ → Ports → Ports
watch now w =
    if leb 1 w.sched.at_state
      && not (w.sched.last_fail_ms == 0)
      && ltb 20000 (now - w.sched.last_fail_ms)
    then record w {
      sched = record w.sched { port_found = false };
      cand = [];
      cand_idx = 0;
      port_next_probe_ms = now + port_probe_gap_ms;
    }
    else w

unfoldable pub port_discovery_tick : ℕ → List Tty → (Bytes → Probe) → Ports → Ports
port_discovery_tick now ttys reply w =
    if w.sched.port_found then watch now w else look_for_port now ttys reply w
