-- ===== src/Dial/Ladder/Rest.antt =====
-- fm160d/src/dialer.c: the sixth failure in a row, and the ticks behind it.
use openwrt_fm.Dial.Ladder.{fail_all, no_reset, fail_all_iff, stopped_silent}
use openwrt_fm.Dial.{DialWorld, Clock, dial_escalate, dial_fail, ledger_note_reset, Outcome}
use openwrt_fm.Dial.Calls.{DialEnv, dial_sync_kind, fm160_dial_tick}
use openwrt_fm.Net.{fm160_net_reset_allowed, net_ladder_max}
use openwrt_fm.Usb.{DialKind, kind_none, fm160_usbmode_kind}
use openwrt_fm.Base.{
  ◌≤◌, ◌<◌, Bool, true, false, not, ◌≡◌, ◌⊎◌, refl, ap, ◌∙◌, inl, inr, List, [], ◌∷◌, arith, leb,
  ltb, length, Bool-cases, Option-cases,
}

dial_fail-wanted : (k : Clock) (w : DialWorld) → (dial_fail k w).st.wanted ≡ w.st.wanted
unfolding dial_fail dial_escalate ledger_note_reset
dial_fail-wanted k w = elim (Bool-cases (leb net_ladder_max w.st.attempt)) [
  | inr climbs ↦ rw climbs refl
  | inl spent ↦ elim (Bool-cases (not w.st.allow_reset)) [
    | inl forbidden ↦ rw (spent, forbidden) refl
    | inr permitted ↦ elim (Bool-cases (not (fm160_net_reset_allowed w.st.resets_in_window))) [
      | inl full ↦ rw (spent, permitted) (rw full refl)
      | inr room ↦ rw (spent, permitted) (rw room refl)
    ]
  ]
]

fail_all-wanted : (ks : List Clock) (w : DialWorld) → (fail_all ks w).st.wanted ≡ w.st.wanted
fail_all-wanted [] w = refl
fail_all-wanted (k ∷ ks) w = fail_all-wanted ks (dial_fail k w) ∙ dial_fail-wanted k w

-- One tick after the other, with what each finds and how a command would be answered.
abbrev pub tick_all : List (DialEnv × Outcome) → DialWorld → DialWorld
tick_all [] w = w
tick_all ((env, out) ∷ later) w = tick_all later (fm160_dial_tick env out w)

-- The world is the same, but for what is known of the module's profile.
pub record IsResting (w w' : DialWorld) : Type 0 where
  pub kind : DialKind
  pub known : Bool
  pub same : w' ≡ record w { st = record w.st { kind = kind; kind_known = known } }

sync-IsResting :
    (env : DialEnv) (w : DialWorld) → IsResting w (record w { st = dial_sync_kind env w.st })
unfolding dial_sync_kind
sync-IsResting env w = elim (Option-cases env.usb_mode) [
  | inl unknown ↦
      rw (unknown, dial_sync_kind) (record { kind = kind_none; known = false; same = refl })
  | inr (mode, found) ↦
      rw (found, dial_sync_kind)
        (record { kind = fm160_usbmode_kind mode; known = true; same = refl })
]

tick-disabled :
    (env : DialEnv) (out : Outcome) (w : DialWorld)
    → env.enabled ≡ false
    → fm160_dial_tick env out w ≡ w
unfolding fm160_dial_tick
tick-disabled env out w off = let none_on : not env.enabled ≡ true = ground arith in rw none_on refl

tick-IsResting :
    (env : DialEnv) (out : Outcome) (w : DialWorld)
    → w.st.wanted ≡ true
    → w.st.healing_stopped ≡ true
    → IsResting w (fm160_dial_tick env out w)
tick-IsResting env out w wanted stopped = elim (Bool-cases env.enabled) [
  | inl on ↦ rw (stopped_silent env out w on wanted stopped) (sync-IsResting env w)
  | inr off ↦
      rw (tick-disabled env out w off)
        (record { kind = w.st.kind; known = w.st.kind_known; same = refl })
]

tick_all-IsResting :
    (later : List (DialEnv × Outcome)) (w : DialWorld)
    → w.st.wanted ≡ true
    → w.st.healing_stopped ≡ true
    → IsResting w (tick_all later w)
tick_all-IsResting [] w wanted stopped = record {
  kind = w.st.kind;
  known = w.st.kind_known;
  same = refl;
}
tick_all-IsResting ((env, out) ∷ later) w wanted stopped =
    let once = tick-IsResting env out w wanted stopped in
    let w' = fm160_dial_tick env out w in
    let more =
      tick_all-IsResting later w' (ap (λ (v : DialWorld). v.st.wanted) once.same ∙ wanted)
        (ap (λ (v : DialWorld). v.st.healing_stopped) once.same ∙ stopped) in
    record {
      kind = more.kind;
      known = more.known;
      same =
          more.same
          ∙ ap
              (λ (v : DialWorld). record v {
                st = record v.st { kind = more.kind; kind_known = more.known };
              })
              once.same;
    }

-- Without a reset to spend, a dialler that is wanted, on the lowest rung and not stopped, has not
-- stopped after any number of failures in a row up to five, and has stopped after six and more. Over
-- any ticks that follow it then changes nothing but what it knows of the module's profile, however a
-- command would be answered, as long as it is not started, stopped or configured.
pub six_failures :
    (ks : List Clock) (w : DialWorld) (later : List (DialEnv × Outcome))
    → w.st.attempt ≡ 0
    → w.st.healing_stopped ≡ false
    → no_reset w.st ≡ true
    → w.st.wanted ≡ true
    → ((length ks ≤ 5) × ((fail_all ks w).st.healing_stopped ≡ false))
      ⊎ ((6 ≤ length ks)
          × (((fail_all ks w).st.healing_stopped ≡ true)
              × IsResting (fail_all ks w) (tick_all later (fail_all ks w))))
six_failures ks w later first going blocked wanted =
    let iff = fail_all_iff ks w (omega (arith, first)) going blocked in
    elim (Bool-cases (fail_all ks w).st.healing_stopped) [
      | inl stopped ↦ inr (
        omega (arith, iff.0 stopped, first),
        (stopped, tick_all-IsResting later (fail_all ks w) (fail_all-wanted ks w ∙ wanted) stopped),
      )
      | inr runs ↦ elim (Bool-cases (ltb 5 (length ks))) [
        | inr few ↦ inl (ground arith, runs)
        | inl many ↦
            let over : 5 < length ks = ground arith in
            let stopped = iff.1 (omega (arith, over, first)) in absurd (cc)
      ]
    ]
