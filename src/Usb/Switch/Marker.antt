-- ===== src/Usb/Switch/Marker.antt =====
-- fm160d/src/modesw.c: the marker in the uci file against the state of the daemon.
use openwrt_fm.Atq.{AtStatus, at_ok, at_error, at_timeout, at_noport}
use openwrt_fm.Usb.Switch.{
  SwitchState, modesw_idle, modesw_apply, modesw_verify, modesw_stuck, VerifyResult, ModeSwitch,
  World, Callback, cb_apply, cb_rollback, Submission, refused, kept, answered, Env,
  fm160_modesw_init, run_cb_rollback, run_cb_apply, run_callback, submitted, verify_settle,
  send_rollback, verify_mismatch, mismatch_at, judge_current, fm160_modesw_note_current,
  fm160_modesw_note_caps, fm160_ident_reset, apply_from, marked, fm160_modesw_tick, is_refused,
  UciSwitch, is_stuck, grace_over, stuck_after, failed, arrived,
}
use openwrt_fm.Usb.Switch.Steps.{
  Step, applies, answers, lists, forgets, ticks, restarts, Reach, boots, next, reports, started,
  apply-cases,
}
use openwrt_fm.Base.{
  ℕ, Bool, true, false, not, ◌||◌, ◌≡◌, refl, sym, ap, ◌∙◌, inl, inr, List, Option, none, some,
  arith, ◌==◌, Bool-cases,
}

abbrev pub is_idle : SwitchState → Bool
is_idle modesw_idle = true
is_idle _ = false

-- While a switch waits to be confirmed the file says where the module was and where it should be.
pub record IsNoted (w : World) : Type 0 where
  pub target : w.uci.target ≡ w.m.target
  pub rollback : w.uci.rollback_mode ≡ w.m.rollback_mode
  pub known : (goal : ℕ) × (w.m.target ≡ some goal)
  pub back : (from : ℕ) × (w.m.rollback_mode ≡ some from)
  pub active : is_idle w.m.st ≡ false

-- The marker is the daemon's flag.
pub record IsMarked (w : World) : Type 0 where
  pub marker : w.uci.pending ≡ w.m.pending
  pub noted : w.m.pending ≡ true → IsNoted w

-- Another state of the machine.
restated :
    (w w' : World)
    → w'.uci ≡ w.uci
    → w'.m.target ≡ w.m.target
    → w'.m.rollback_mode ≡ w.m.rollback_mode
    → is_idle w'.m.st ≡ false
    → IsNoted w
    → IsNoted w'
restated w w' file target rollback active h = record {
  target = ap (λ (u : UciSwitch). u.target) file ∙ h.target ∙ sym target;
  rollback = ap (λ (u : UciSwitch). u.rollback_mode) file ∙ h.rollback ∙ sym rollback;
  known = (h.known.0, target ∙ h.known.1);
  back = (h.back.0, rollback ∙ h.back.1);
  active = active;
}

run_callback-IsMarked :
    (env : Env) (cb : Callback) (status : AtStatus) (w : World)
    → IsMarked w
    → IsMarked (run_callback env cb status w)
unfolding run_callback run_cb_apply run_cb_rollback
run_callback-IsMarked env cb_rollback status w h = record {
  marker = h.marker;
  noted = λ p. restated w _ refl refl refl (h.noted p).active (h.noted p);
}
run_callback-IsMarked env cb_apply at_ok w h = record {
  marker = h.marker;
  noted = λ p. restated w _ refl refl refl refl (h.noted p);
}
run_callback-IsMarked env cb_apply at_timeout w h = record {
  marker = h.marker;
  noted = λ p. restated w _ refl refl refl refl (h.noted p);
}
run_callback-IsMarked env cb_apply at_error w h = record { marker = refl; noted = λ p. absurd (cc) }
run_callback-IsMarked env cb_apply at_noport w h = record {
  marker = refl;
  noted = λ p. absurd (cc);
}

submitted-IsMarked :
    (env : Env) (mode : ℕ) (cb : Callback) (sub : Submission) (w : World)
    → IsMarked w
    → IsMarked (submitted env mode cb sub w)
unfolding submitted
submitted-IsMarked env mode cb refused w h = h
submitted-IsMarked env mode cb kept w h = record {
  marker = h.marker;
  noted = λ p. restated w _ refl refl refl (h.noted p).active (h.noted p);
}
submitted-IsMarked env mode cb (answered status) w h =
    run_callback-IsMarked env cb status _ (record {
      marker = h.marker;
      noted = λ p. restated w _ refl refl refl (h.noted p).active (h.noted p);
    })

verify_settle-IsMarked :
    (result : VerifyResult) (rolled_back : Bool) (w : World)
    → IsMarked (verify_settle result rolled_back w)
unfolding verify_settle
verify_settle-IsMarked result rolled_back w = record { marker = refl; noted = λ p. absurd (cc) }

-- The answer to the rollback command changes neither the flag nor the marker.
sent_rollback :
    (env : Env) (back : ℕ) (sub : Submission) (w : World)
    → (submitted env back cb_rollback sub w).m.pending ≡ w.m.pending
unfolding submitted run_callback run_cb_rollback
sent_rollback env back refused w = refl
sent_rollback env back kept w = refl
sent_rollback env back (answered status) w = refl

sent_rollback_mode :
    (env : Env) (back : ℕ) (sub : Submission) (w : World)
    → (submitted env back cb_rollback sub w).m.rollback_mode ≡ w.m.rollback_mode
unfolding submitted run_callback run_cb_rollback
sent_rollback_mode env back refused w = refl
sent_rollback_mode env back kept w = refl
sent_rollback_mode env back (answered status) w = refl

send_rollback-IsMarked :
    (env : Env) (sub : Submission) (back : ℕ) (w : World)
    → w.m.pending ≡ true
    → w.m.rollback_mode ≡ some back
    → IsMarked (send_rollback env sub back w)
unfolding send_rollback
send_rollback-IsMarked env sub back w p r = elim (Bool-cases (is_refused sub)) [
  | inl failed_to ↦ rw failed_to (verify_settle-IsMarked failed false _)
  | inr sent ↦
      let begun : World = record w { m = record w.m { busy = true } } in
      let from = sent_rollback_mode env back sub begun ∙ r in
      rw sent (record {
        marker = sym (sent_rollback env back sub begun ∙ p);
        noted = λ q. record {
          target = refl;
          rollback = sym from;
          known = (back, refl);
          back = (back, from);
          active = refl;
        };
      })
]

mismatch_at-IsMarked :
    (env : Env) (sub : Submission) (mode : ℕ) (back : Option ℕ) (w : World)
    → w.m.pending ≡ true
    → w.m.rollback_mode ≡ back
    → IsMarked (mismatch_at env sub mode back w)
unfolding mismatch_at
mismatch_at-IsMarked env sub mode none w p r = verify_settle-IsMarked failed w.m.rolled_back w
mismatch_at-IsMarked env sub mode (some back) w p r =
    elim (Bool-cases (w.m.rolled_back || back == mode)) [
      | inl over ↦ rw over (verify_settle-IsMarked failed w.m.rolled_back w)
      | inr once ↦ rw once (send_rollback-IsMarked env sub back w p r)
    ]

judge_current-IsMarked :
    (env : Env) (sub : Submission) (mode : ℕ) (target : Option ℕ) (w : World)
    → IsMarked w
    → IsMarked (judge_current env sub mode target w)
unfolding judge_current
judge_current-IsMarked env sub mode none w h = h
judge_current-IsMarked env sub mode (some target) w h = elim (Bool-cases (not w.m.pending)) [
  | inl settled ↦ rw settled h
  | inr pending ↦ elim (Bool-cases (mode == target)) [
    | inl there ↦ rw (pending, there) (verify_settle-IsMarked arrived w.m.rolled_back w)
    | inr else_where ↦
        rw (pending, else_where)
          (unfold verify_mismatch in
            mismatch_at-IsMarked env sub mode w.m.rollback_mode w (ground arith) refl)
  ]
]

note_current-IsMarked :
    (env : Env) (sub : Submission) (mode : ℕ) (w : World)
    → IsMarked w
    → IsMarked (fm160_modesw_note_current env sub mode w)
unfolding fm160_modesw_note_current
note_current-IsMarked env sub mode w h = judge_current-IsMarked env sub mode w.m.target _ (record {
  marker = h.marker;
  noted = λ p. restated w _ refl refl refl (h.noted p).active (h.noted p);
})

apply_from-IsMarked :
    (env : Env) (sub : Submission) (target cur : ℕ) (w : World)
    → IsMarked (apply_from env sub target cur w).0
unfolding apply_from
apply_from-IsMarked env sub target cur w =
    let begun : IsMarked (marked env target cur w) = record {
      marker = refl;
      noted = λ p. record {
        target = refl;
        rollback = refl;
        known = (target, refl);
        back = (cur, refl);
        active = refl;
      };
    } in
    elim sub as (λ k. IsMarked (apply_from env k target cur w).0) [
      | refused ↦ record { marker = refl; noted = λ p. absurd (cc) }
      | kept ↦ submitted-IsMarked env target cb_apply kept _ begun
      | answered status ↦ submitted-IsMarked env target cb_apply (answered status) _ begun
    ]

grace_over-active :
    (env : Env) (m : ModeSwitch) (st : SwitchState)
    → is_idle st ≡ false
    → is_idle (stuck_after env m (grace_over env m st)) ≡ false
grace_over-active env m modesw_idle h = h
grace_over-active env m modesw_stuck h = refl
grace_over-active env m modesw_verify h = ground arith
grace_over-active env m modesw_apply h = ground arith

tick-active :
    (env : Env) (m : ModeSwitch)
    → is_idle m.st ≡ false
    → is_idle (fm160_modesw_tick env m).st ≡ false
unfolding fm160_modesw_tick
tick-active env m h = elim (Bool-cases (is_stuck m.st || not m.pending)) [
  | inl rests ↦ rw rests h
  | inr runs ↦ rw runs (grace_over-active env m m.st h)
]

tick-IsMarked :
    (env : Env) (w : World) → IsMarked w → IsMarked (record w { m = fm160_modesw_tick env w.m })
tick-IsMarked env w h =
    let active = tick-active env w.m in
    unfold fm160_modesw_tick in
    record {
      marker = h.marker;
      noted = λ p. restated w _ refl refl refl (active (h.noted p).active) (h.noted p);
    }

-- What the file says is enough for the next process.
restart-IsMarked : (env : Env) (w : World) → IsMarked w → IsMarked (started env w.uci w.writes)
unfolding fm160_modesw_init
restart-IsMarked env w h = record {
  marker = refl;
  noted = λ p.
      let was = h.noted (sym h.marker ∙ p) in
      record {
        target = refl;
        rollback = refl;
        known = (was.known.0, was.target ∙ was.known.1);
        back = (was.back.0, was.rollback ∙ was.back.1);
        active = rw p refl;
      };
}

Step-IsMarked : {w w' : World} → Step w w' → IsMarked w → IsMarked w'
Step-IsMarked (applies env sub target adv w) h =
    apply-cases IsMarked env sub target adv w h (λ cur a. apply_from-IsMarked env sub target cur w)
Step-IsMarked (answers env status cb rest w head) h =
    run_callback-IsMarked env cb status _ (record {
      marker = h.marker;
      noted = λ p. restated w _ refl refl refl (h.noted p).active (h.noted p);
    })
Step-IsMarked (lists modes w) h =
    unfold fm160_modesw_note_caps in
    record {
      marker = h.marker;
      noted = λ p. restated w _ refl refl refl (h.noted p).active (h.noted p);
    }
Step-IsMarked (forgets w) h =
    unfold fm160_ident_reset in
    record {
      marker = h.marker;
      noted = λ p. restated w _ refl refl refl (h.noted p).active (h.noted p);
    }
Step-IsMarked (ticks env w) h = tick-IsMarked env w h
Step-IsMarked (restarts env w) h = restart-IsMarked env w h

-- In every world that is reached the marker in the file is the daemon's flag, and while it is set the
-- file names the daemon's target and its rollback point, and the machine is not idle.
pub Reach-IsMarked : {seen : List ℕ} {w : World} → Reach seen w → IsMarked w
Reach-IsMarked (boots env) =
    unfold fm160_modesw_init in record { marker = refl; noted = λ p. absurd (cc) }
Reach-IsMarked (next r step) = Step-IsMarked step (Reach-IsMarked r)
Reach-IsMarked (reports {w = w} env sub mode r) =
    note_current-IsMarked env sub mode w (Reach-IsMarked r)
