-- ===== src/Sched/PassTests.antt =====
-- fm160d/src/sched.c: a scan, a search for the port and a pass, and the theorems about them.
use openwrt_fm.Sched.Housekeeping.{Outside, item_enabled, poll_one, poll_loop, poll_all}
use openwrt_fm.Sched.Housekeeping.Pass.{poll_one-suspends}
use openwrt_fm.Sched.Housekeeping.Calm.{IsCalm, Reached, poll_all-Reached}
use openwrt_fm.Sched.Housekeeping.Expected.{passed_all, fired_keys}
use openwrt_fm.Sched.Ports.{
  Tty, Ports, Probe, refused, answered, found_loop, fm160_scan_candidates, tty_usb_ids, ids_loop,
  cand_class_for, class_of, emit,
}
use openwrt_fm.Sched.Ports.Places.{placed, in_order, scan_candidates-places}
use openwrt_fm.Sched.Ports.Sweep.{Ahead, IsFound, ticks, ticks-IsFound}
use openwrt_fm.Sched.Tests.{idle_sched, tired_sched, tired-Consistent}
use openwrt_fm.Sched.{Sched, row, fm160_sched_note_result}
use openwrt_fm.Atq.Replies.{fm160_resp_ok, fm160_resp_error}
use openwrt_fm.Atq.{at_ok, at_timeout}
use openwrt_fm.Text.{behind, same_ignoring_case, contains}
use openwrt_fm.Base.{
  take, Bytes, ℕ, true, false, ◌≡◌, refl, List, [], ◌∷◌, ◌++◌, none, some, arith, codes, ◌==◌,
  if◌then◌else◌, length,
}

-- A port of the module by its interface, below a directory that knows neither number.
abbrev port_of : Bytes → ℕ → Tty
port_of name iface = record {
  name = name;
  levels =
      record { vendor = none; iface = some iface }
      ∷ record { vendor = some (codes "2CB7"); iface = none }
      ∷ [];
}

-- Four ports in the order of the directory, and one of another vendor.
abbrev five_ports : List Tty
five_ports =
    port_of (codes "ttyUSB0") 0
    ∷ port_of (codes "ttyUSB1") 1
    ∷ record {
      name = codes "ttyACM0";
      levels = record { vendor = some (codes "1d6b"); iface = some 0 } ∷ [];
    }
    ∷ port_of (codes "ttyUSB2") 2
    ∷ port_of (codes "ttyUSB3") 3
    ∷ []

scan_candidates-places_example :
    fm160_scan_candidates five_ports ≡ in_order (take 12 (placed five_ports))
scan_candidates-places_example = scan_candidates-places five_ports

-- Interface 2 first, then 1 and 3; 0 is held back.
scan_runs :
    fm160_scan_candidates five_ports
    ≡ codes "/dev/ttyUSB2" ∷ codes "/dev/ttyUSB1" ∷ codes "/dev/ttyUSB3" ∷ []
unfolding fm160_scan_candidates found_loop tty_usb_ids ids_loop class_of cand_class_for emit
    same_ignoring_case behind
scan_runs = refl

-- The first port is silent, the second one answers.
abbrev reply : Bytes → Probe
reply name =
    if length name == 4 then answered at_timeout none else answered at_ok (some (codes "OK"))

abbrev searching : Ports
searching = record {
  sched = record idle_sched { port_found = false };
  port = [];
  cand = codes "/a/b" ∷ codes "/dev/b" ∷ [];
  cand_idx = 0;
  port_probing = false;
  port_next_probe_ms = 500;
  probes = [];
}

searching-Ahead : Ahead [] (codes "/a/b" ∷ codes "/dev/b" ∷ []) 1000 searching
searching-Ahead = record {
  no_port = refl;
  free = refl;
  cand = refl;
  idx = refl;
  soon = omega arith;
}

ok_answers : fm160_resp_ok (some (codes "OK")) ≡ true
unfolding fm160_resp_ok fm160_resp_error contains behind
ok_answers = refl

ticks-IsFound_example :
    IsFound
      (codes "/dev/b")
      searching
      (codes "/a/b" ∷ codes "/dev/b" ∷ [])
      (ticks [] reply (1000 ∷ 2000 ∷ []) searching)
ticks-IsFound_example =
    ticks-IsFound [] reply [] (codes "/a/b" ∷ []) [] (codes "/dev/b") 1000 (2000 ∷ []) searching
      searching-Ahead ((at_timeout, none, refl, refl), tt)
      (at_ok, some (codes "OK"), refl, ok_answers) refl

-- The registration is polled and not answered, for the third time in a row.
first_item_enabled : item_enabled tired_sched (row 0 false 15000 5000) ≡ true
unfolding item_enabled fm160_sched_note_result
first_item_enabled = refl

abbrev no_answer : ℕ → Sched → Sched
no_answer key s = fm160_sched_note_result 4000 false true s

poll_one-suspends_example :
    poll_loop
      (λ b. b)
      (λ i. 0)
      no_answer
      4000
      7
      1
      (poll_one
        (λ b. b)
        (λ i. 0)
        no_answer
        4000
        0
        (row 0 false 15000 5000)
        (record { sched = tired_sched; fired = [] }))
    ≡ poll_one
        (λ b. b)
        (λ i. 0)
        no_answer
        4000
        0
        (row 0 false 15000 5000)
        (record { sched = tired_sched; fired = [] })
poll_one-suspends_example =
    poll_one-suspends (λ b. b) (λ i. 0) no_answer 4000 7 0 (row 0 false 15000 5000)
      (record { sched = tired_sched; fired = [] }) first_item_enabled (omega arith) (omega arith)
      tired-Consistent (λ s. refl)

-- Requests that are answered at once.
abbrev surroundings : Outside
surroundings = record {
  ttys = [];
  reply = λ name. refused;
  others = λ w. w;
  jitter = λ b. b;
  depth = λ i. if i == 3 then 3 else 0;
  fire = λ key s. s;
}

surroundings-IsCalm : IsCalm surroundings.fire
surroundings-IsCalm = record {
  items = λ key s. refl;
  view = λ key s. record { foreground = refl; speed = refl; scale = refl };
}

poll_all-Reached_example :
    Reached idle_sched
      (passed_all (λ b. b) surroundings.depth 4000 idle_sched 0 idle_sched.items)
      ([] ++ fired_keys surroundings.depth 4000 idle_sched 0 idle_sched.items)
      (poll_all surroundings 4000 idle_sched [])
poll_all-Reached_example = poll_all-Reached surroundings 4000 idle_sched [] surroundings-IsCalm
