-- ===== src/Usb/Tests.antt =====
-- fm160d/src/usbmode.c and modesw.c: the module's own list of profiles, a switch that ends in the
-- wrong profile, and the theorems about them.
use openwrt_fm.Text.{decimal}
use openwrt_fm.Usb.{
  usb_modes, find_mode, fm160_usbmode_info, fm160_usbmode_known, fm160_usbmode_has_at,
  fm160_usbmode_documented, fm160_usbmode_kernel_entry, is_listed, fm160_usbmode_blacklisted,
  deny_no_at, deny_no_driver, fm160_usbmode_decide, fm160_usbmode_verdict_is_ok,
}
use openwrt_fm.Usb.Policy.{IsAllowed, decide_iff}
use openwrt_fm.Usb.Answer.{count_up, fm160_usbmode_parse_current, fm160_usbmode_parse_list}
use openwrt_fm.Usb.Answer.Current.{answer, echo_current, echo_list, at_eol, parse_current-answer}
use openwrt_fm.Usb.Answer.Listing.{Span, print_spans, listed, parse_list-listed}
use openwrt_fm.Usb.Switch.{
  verify_settle, modesw_stuck, modesw_idle, World, Env, kept, fm160_modesw_init, submitted,
  send_rollback, mismatch_at, verify_mismatch, judge_current, fm160_modesw_note_current,
  fm160_modesw_note_caps, apply_from, apply_known, fm160_modesw_apply, fm160_modesw_tick, eperm,
}
use openwrt_fm.Usb.Switch.Marker.{IsMarked, Reach-IsMarked}
use openwrt_fm.Usb.Switch.Safe.{IsRecoverable, Reach-IsRecoverable}
use openwrt_fm.Usb.Switch.Steps.{
  Reach, boots, next, reports, applies, lists, started, never_switched,
}
use openwrt_fm.Usb.Switch.Stuck.{Act, ticks, applies, world_after, codes_of, Reach-given_up}
use openwrt_fm.Base.{
  ℕ, true, false, ◌≡◌, ◌↔◌, refl, List, [], ◌∷◌, none, some, arith, ltb, ◌==◌, if◌then◌else◌, codes,
  All,
}

-- What the module of the documents answers.
abbrev spans : List Span
spans = (17, 18) ∷ (20, 21) ∷ (24, 24) ∷ (29, 33) ∷ []

abbrev profiles : List ℕ
profiles = 17 ∷ 18 ∷ 20 ∷ 21 ∷ 24 ∷ 29 ∷ 30 ∷ 31 ∷ 32 ∷ 33 ∷ []

spans-listed : listed 32 0 spans ≡ some profiles
unfolding count_up
spans-listed = refl

parse_list-listed_example :
    fm160_usbmode_parse_list 32 (answer echo_list (b'(' ∷ print_spans spans (b')' ∷ codes " OK")))
    ≡ (if 32 == 0 then none else listed 32 0 spans)
parse_list-listed_example = parse_list-listed 32 spans (codes " OK")

parse_current-answer_example :
    (fm160_usbmode_parse_current (answer echo_current (decimal 32 (13 ∷ 10 ∷ [])))
      ≡ (if ltb 255 32 then none else some 32))
    × (fm160_usbmode_parse_current (answer echo_list (b'(' ∷ codes "17-18)")) ≡ none)
parse_current-answer_example =
    parse_current-answer 32 (13 ∷ 10 ∷ []) (codes "17-18)") (at_eol 13 (10 ∷ []) refl)

decide_iff_example :
    (fm160_usbmode_verdict_is_ok (fm160_usbmode_decide (some 32) 33 profiles true false) ≡ true)
    ↔ IsAllowed (some 32) 33 profiles true false
decide_iff_example = decide_iff (some 32) 33 profiles true false

-- The module lists 24 and 29 too.
no_at_port : fm160_usbmode_decide (some 32) 24 profiles true true ≡ deny_no_at
unfolding fm160_usbmode_decide fm160_usbmode_known fm160_usbmode_info find_mode usb_modes
    fm160_usbmode_blacklisted is_listed fm160_usbmode_has_at
no_at_port = refl

no_driver : fm160_usbmode_decide (some 32) 29 profiles true true ≡ deny_no_driver
unfolding fm160_usbmode_decide fm160_usbmode_known fm160_usbmode_info find_mode usb_modes
    fm160_usbmode_blacklisted is_listed fm160_usbmode_has_at fm160_usbmode_kernel_entry
no_driver = refl

-- A second after the start, with a port.
abbrev early : Env
early = record { wall_s = 1000; now_ms = 1000; port_found = true; enabled = true }

abbrev booted : World
booted = started early never_switched []

abbrev answered_with : World
answered_with = fm160_modesw_note_caps profiles (fm160_modesw_note_current early kept 32 booted)

abbrev switching : World
switching = (fm160_modesw_apply early kept 33 false answered_with).0

booted-Reach : Reach [] booted
booted-Reach = boots early

switching-Reach : Reach (32 ∷ []) switching
switching-Reach =
    next (next (reports early kept 32 booted-Reach) (lists profiles _))
      (applies early kept 33 false _)

-- The module comes back in profile 17 and the rollback is sent.
abbrev rolled : World
rolled = fm160_modesw_note_current early kept 17 switching

rolled-Reach : Reach (17 ∷ 32 ∷ []) rolled
rolled-Reach = reports early kept 17 switching-Reach

rolled_writes : rolled.writes ≡ 32 ∷ 33 ∷ []
unfolding fm160_modesw_init fm160_modesw_note_caps fm160_modesw_note_current judge_current
    verify_mismatch mismatch_at send_rollback submitted fm160_modesw_apply apply_known apply_from
    fm160_usbmode_decide fm160_usbmode_known fm160_usbmode_info find_mode usb_modes
    fm160_usbmode_blacklisted is_listed fm160_usbmode_has_at fm160_usbmode_kernel_entry
    fm160_usbmode_documented fm160_usbmode_verdict_is_ok
rolled_writes = refl

-- A process that starts while the rollback is not confirmed sends it once more.
abbrev restarted : World
restarted = fm160_modesw_note_current early kept 17 (started early rolled.uci rolled.writes)

rolled_back_twice : restarted.writes ≡ 32 ∷ 32 ∷ 33 ∷ []
unfolding fm160_modesw_init fm160_modesw_note_caps fm160_modesw_note_current judge_current
    verify_mismatch mismatch_at send_rollback submitted fm160_modesw_apply apply_known apply_from
    fm160_usbmode_decide fm160_usbmode_known fm160_usbmode_info find_mode usb_modes
    fm160_usbmode_blacklisted is_listed fm160_usbmode_has_at fm160_usbmode_kernel_entry
    fm160_usbmode_documented fm160_usbmode_verdict_is_ok
rolled_back_twice = refl

Reach-IsRecoverable_example : All (IsRecoverable (17 ∷ 32 ∷ [])) rolled.writes
Reach-IsRecoverable_example = Reach-IsRecoverable rolled-Reach

Reach-IsMarked_example : IsMarked rolled
Reach-IsMarked_example = Reach-IsMarked rolled-Reach

-- Two minutes later there is no port.
abbrev late : Env
late = record { wall_s = 1130; now_ms = 130000; port_found = false; enabled = true }

-- Then a tick and an application with a port that is back.
abbrev retried : List Act
retried = ticks early ∷ applies early kept 17 false ∷ []

Reach-given_up_example :
    let given_up = record switching { m = fm160_modesw_tick late switching.m } in
    (given_up.m.st ≡ modesw_stuck)
    × ((world_after retried given_up ≡ given_up)
        × All (λ code. code ≡ eperm) (codes_of retried given_up))
unfolding fm160_modesw_init fm160_modesw_note_caps fm160_modesw_note_current judge_current submitted
    fm160_modesw_apply apply_known apply_from fm160_usbmode_decide fm160_usbmode_known
    fm160_usbmode_info find_mode usb_modes fm160_usbmode_blacklisted is_listed fm160_usbmode_has_at
    fm160_usbmode_kernel_entry fm160_usbmode_documented fm160_usbmode_verdict_is_ok
Reach-given_up_example =
    Reach-given_up late switching-Reach refl refl refl (omega arith) (omega arith) retried

-- Where the module reports the target after all, the switch that was given up is settled.
late_report :
    (fm160_modesw_note_current early kept 33
      (record switching { m = fm160_modesw_tick late switching.m })).m.st
    ≡ modesw_idle
unfolding fm160_modesw_tick fm160_modesw_init fm160_modesw_note_caps fm160_modesw_note_current
    judge_current verify_settle submitted fm160_modesw_apply apply_known apply_from
    fm160_usbmode_decide fm160_usbmode_known fm160_usbmode_info find_mode usb_modes
    fm160_usbmode_blacklisted is_listed fm160_usbmode_has_at fm160_usbmode_kernel_entry
    fm160_usbmode_documented fm160_usbmode_verdict_is_ok
late_report = refl

-- And where it reports another one, the profile before is sent to it by the daemon itself.
late_rollback :
    (fm160_modesw_note_current early kept 17
      (record switching { m = fm160_modesw_tick late switching.m })).writes
    ≡ 32 ∷ 33 ∷ []
unfolding fm160_modesw_tick fm160_modesw_init fm160_modesw_note_caps fm160_modesw_note_current
    judge_current verify_mismatch mismatch_at send_rollback submitted fm160_modesw_apply apply_known
    apply_from fm160_usbmode_decide fm160_usbmode_known fm160_usbmode_info find_mode usb_modes
    fm160_usbmode_blacklisted is_listed fm160_usbmode_has_at fm160_usbmode_kernel_entry
    fm160_usbmode_documented fm160_usbmode_verdict_is_ok
late_rollback = refl
