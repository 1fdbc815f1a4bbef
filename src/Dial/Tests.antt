-- ===== src/Dial/Tests.antt =====
-- fm160d/src/dialer.c: a link that comes up, a dialler that gives up, and the theorems about them.
use openwrt_fm.Dial.Budget.Runs.{DialReach, boots, configures, ticks}
use openwrt_fm.Dial.Calls.{
  fm160_dial_init, DialConfig, fm160_dial_configure, DialEnv, fm160_dial_start, dial_sync_kind,
  tick_autostart, tick_apn, tick_verb, tick_activate, tick_step, fm160_dial_tick,
}
use openwrt_fm.Dial.Ladder.{fail_all}
use openwrt_fm.Dial.Ladder.Rest.{tick_all, IsResting, six_failures}
use openwrt_fm.Dial.Stamps.{ledger_count, ledger_join, ledger_max}
use openwrt_fm.Dial.Ledger.Printed.{printed}
use openwrt_fm.Dial.Ledger.{ledger_note-init, DialReach-dial_escalate}
use openwrt_fm.Dial.Link.{Linked}
use openwrt_fm.Dial.Link.Runs.{DialReach-Linked}
use openwrt_fm.Dial.{
  step_failed, DialWorld, Clock, ledger_note_reset, dial_escalate, answered_ok, not_ok, Outcome,
  answered, judge_cpin, cb_pin, cb_reg, cb_apn, cb_verb_probe, cb_activate, cb_ip, dial_submit,
}
use openwrt_fm.Net.{
  fm160_net_reset_allowed, fm160_net_cid_ok, fm160_net_apn_ok, apn_chars, fm160_net_apn_command,
  fm160_net_activate_command, fm160_net_pdp_parse,
}
use openwrt_fm.Net.Address.{addr4_loop, addr_loop, addr_from_field, fm160_net_addr_ok}
use openwrt_fm.Net.Answers.{
  addr_scan, wwan_of, fm160_net_parse_wwan, fm160_net_parse_cpin, fm160_net_parse_reg,
}
use openwrt_fm.Net.Fields.{
  quoted_loop, bare_loop, skip_comma, csv_field, split_loop, split_csv, tag_line, find_tagged,
}
use openwrt_fm.Text.{
  atoi, signed, skip_space, digits_loop, decimal_loop, ltrim, behind, contains, next_line,
  walk_lines, span_to, same_ignoring_case,
}
use openwrt_fm.Usb.{same_kind, fm160_usbmode_kind, fm160_usbmode_info, find_mode, usb_modes}
use openwrt_fm.Base.{
  ◌⊎◌, ◌<◌, ◌≤◌, ℕ, ◌+◌, true, false, ◌≡◌, refl, List, [], ◌∷◌, some, arith, Bytes, codes,
}

abbrev at : ℕ → Clock
at s = record { now_ms = s + 1000; wall_s = 1000000 }

-- Profile 33 with a port and an empty queue.
abbrev env : ℕ → DialEnv
env s = record {
  clock = at s;
  enabled = true;
  port_found = true;
  at_state = 0;
  depth = 0;
  usb_mode = some 33;
}

abbrev config : DialConfig
config = record {
  apn = codes "cmnet";
  pdp = codes "IP";
  cid = 1;
  allow_reset = false;
  autostart = true;
}

abbrev ok : ℕ → Bytes → Outcome
ok s resp = answered (at s) answered_ok resp

abbrev w0 : DialWorld
w0 = record { st = fm160_dial_init (at 0) [] 0; stamps = []; resets = 0 }

abbrev w1 : DialWorld
w1 = record w0 { st = fm160_dial_configure config w0.st }

abbrev w2 : DialWorld
w2 = fm160_dial_tick (env 1) (ok 1 (codes "+CPIN: READY")) w1

abbrev w3 : DialWorld
w3 = fm160_dial_tick (env 2) (ok 2 (codes "+CREG: 0,1")) w2

abbrev w4 : DialWorld
w4 = fm160_dial_tick (env 3) (ok 3 (codes "OK")) w3

abbrev w5 : DialWorld
w5 = fm160_dial_tick (env 4) (ok 4 (codes "OK")) w4

abbrev w6 : DialWorld
w6 = fm160_dial_tick (env 5) (answered (at 5) not_ok (codes "ERROR")) w5

abbrev w7 : DialWorld
w7 = fm160_dial_tick (env 6) (ok 6 (codes "+GTWWAN: 1,1,10.0.0.2")) w6

w7-DialReach : DialReach 0 w7
unfolding ledger_count
w7-DialReach = ticks (env 6) _ (
    ticks (env 5) _ (
      ticks (env 4) _ (
        ticks (env 3) _
          (ticks (env 2) _ (ticks (env 1) _ (configures config (boots (at 0) [] 0)))))))

-- The refused activation is followed by the read of the context, and the link is up.
w7_up : w7.st.up ≡ true
unfolding fm160_dial_init fm160_dial_configure fm160_dial_start dial_sync_kind tick_autostart
    tick_apn tick_verb tick_activate tick_step fm160_dial_tick ledger_count judge_cpin cb_pin cb_reg
    cb_apn cb_verb_probe cb_activate cb_ip dial_submit fm160_net_cid_ok fm160_net_apn_ok apn_chars
    fm160_net_apn_command fm160_net_activate_command fm160_net_pdp_parse addr4_loop addr_loop
    addr_from_field fm160_net_addr_ok addr_scan wwan_of fm160_net_parse_wwan fm160_net_parse_cpin
    fm160_net_parse_reg quoted_loop bare_loop skip_comma csv_field split_loop split_csv tag_line
    find_tagged atoi signed skip_space digits_loop decimal_loop ltrim behind contains next_line
    walk_lines span_to same_ignoring_case same_kind fm160_usbmode_kind fm160_usbmode_info find_mode
    usb_modes
w7_up = refl

DialReach-Linked_example : Linked w7.st
DialReach-Linked_example = DialReach-Linked w7-DialReach

abbrev six : List Clock
six = at 1 ∷ at 2 ∷ at 10 ∷ at 30 ∷ at 100 ∷ at 500 ∷ []

-- On the way, and wanted.
abbrev trying : DialWorld
trying = record w0 { st = record w0.st { wanted = true } }

six_failures_example :
    ((6 ≤ 5) × ((fail_all six trying).st.healing_stopped ≡ false))
    ⊎ ((6 ≤ 6)
        × (((fail_all six trying).st.healing_stopped ≡ true)
            × IsResting (fail_all six trying) (
                tick_all
                  ((env 1000, ok 1000 []) ∷ (env 2000, ok 2000 []) ∷ [])
                  (fail_all six trying))))
unfolding fm160_dial_init
six_failures_example =
    six_failures six trying ((env 1000, ok 1000 []) ∷ (env 2000, ok 2000 []) ∷ []) refl refl refl
      refl

-- Two resets in the ledger, an hour and two hours old.
abbrev twice : DialWorld
twice = record {
  st = record w0.st { resets_in_window = 2; allow_reset = true };
  stamps = printed (996400 ∷ 992800 ∷ []);
  resets = 0;
}

-- The next process, ten minutes later.
abbrev later : Clock
later = record { now_ms = 1000; wall_s = 1000600 }

ledger_note-init_example :
    ((ledger_note_reset (at 5) twice).stamps ≡ printed (1000000 ∷ 996400 ∷ 992800 ∷ []))
    × ((fm160_dial_init later (ledger_note_reset (at 5) twice).stamps 1).resets_in_window
        ≡ (ledger_note_reset (at 5) twice).st.resets_in_window)
unfolding fm160_dial_init
ledger_note-init_example =
    ledger_note-init (at 5) later twice (996400 ∷ 992800 ∷ []) 1 refl (omega arith)
      ((omega arith, (omega arith, omega arith)), ((omega arith, (omega arith, omega arith)), tt))
      (
        (omega arith, (omega arith, omega arith)),
        (
          (omega arith, (omega arith, omega arith)),
          ((omega arith, (omega arith, omega arith)), tt),
        ),
      )
      (omega arith) refl

-- The text that is written, and what a process makes of one that was edited by hand.
twice_noted : (ledger_note_reset (at 5) twice).stamps ≡ codes "1000000,996400,992800"
unfolding ledger_note_reset ledger_join atoi signed skip_space digits_loop decimal_loop span_to
twice_noted = refl

edited : ledger_count 8 1000000 (codes " 999000,-5,,900,abc,998000") ≡ 2
unfolding ledger_count atoi signed skip_space digits_loop span_to
edited = refl

-- Three resets counted by a process that has run for more than a day since.
abbrev old : DialWorld
old = record {
  st = record w0.st { resets_in_window = 3; allow_reset = true };
  stamps = printed (900000 ∷ 899000 ∷ 898000 ∷ []);
  resets = 3;
}

old_unloaded : ledger_count ledger_max 1000000 old.stamps ≡ 0
unfolding ledger_count atoi signed skip_space digits_loop decimal_loop span_to
old_unloaded = refl

old_escalates : (dial_escalate (at 5) old).st.healing_stopped ≡ true
unfolding dial_escalate fm160_dial_init fm160_net_reset_allowed
old_escalates = refl

DialReach-dial_escalate_example :
    ((w7.st.allow_reset ≡ true)
      × ((0 + w7.resets < 3) × ((dial_escalate (at 9) w7).resets ≡ w7.resets + 1)))
    ⊎ (((w7.st.allow_reset ≡ false) ⊎ (3 ≤ 0 + w7.resets))
        × (((dial_escalate (at 9) w7).resets ≡ w7.resets)
            × (((dial_escalate (at 9) w7).st.healing_stopped ≡ true)
                × ((dial_escalate (at 9) w7).st.step ≡ step_failed))))
DialReach-dial_escalate_example = DialReach-dial_escalate (at 9) w7-DialReach
