-- ===== src/Usb/Switch/Safe.antt =====
-- fm160d/src/modesw.c: which profiles are written to the module.
use mathlib.Core.Path.{subst}
use openwrt_fm.Usb.{UsbMode, fm160_usbmode_info, is_listed}
use openwrt_fm.Usb.Policy.{decide_iff}
use openwrt_fm.Atq.{AtStatus, at_ok, at_error, at_timeout, at_noport}
use openwrt_fm.Usb.Switch.{
  World, Callback, cb_apply, cb_rollback, Submission, refused, kept, answered, Env,
  fm160_modesw_init, run_cb_rollback, run_cb_apply, run_callback, submitted, verify_settle,
  send_rollback, verify_mismatch, mismatch_at, judge_current, fm160_modesw_note_current,
  fm160_modesw_note_caps, fm160_ident_reset, apply_from, marked, fm160_modesw_tick, failed, arrived,
}
use openwrt_fm.Usb.Switch.Steps.{
  Step, applies, answers, lists, forgets, ticks, restarts, Reach, boots, next, reports, IsApplied,
  apply-cases,
}
use openwrt_fm.Base.{
  ℕ, Bool, true, false, not, ◌||◌, ◌≡◌, ◌⊎◌, inl, inr, List, [], ◌∷◌, Option, none, some, arith,
  ◌==◌, Bool-cases, All,
}

-- A profile of the table with an AT port that the kernel drives.
abbrev pub IsDriven : ℕ → Type 0
IsDriven mode =
    (p : UsbMode) × ((fm160_usbmode_info mode ≡ some p)
      × ((p.has_at ≡ true) × (p.kernel_entry ≡ true)))

-- Such a profile, or one that the module was in when it answered.
abbrev pub IsRecoverable : List ℕ → ℕ → Type 0
IsRecoverable seen mode = IsDriven mode ⊎ (is_listed mode seen ≡ true)

-- No number, or one that the module has reported.
abbrev IsSeen : List ℕ → Option ℕ → Type 0
IsSeen seen none = Unit
IsSeen seen (some mode) = is_listed mode seen ≡ true

record IsSafe (seen : List ℕ) (w : World) : Type 0 where
  writes : All (IsRecoverable seen) w.writes
  current : IsSeen seen w.m.current
  rollback : IsSeen seen w.m.rollback_mode
  noted : IsSeen seen w.uci.rollback_mode

is_listed-more :
    (mode x : ℕ) (seen : List ℕ) → is_listed mode seen ≡ true → is_listed mode (x ∷ seen) ≡ true
unfolding is_listed
is_listed-more mode x seen h = ground arith

IsSeen-more : (x : ℕ) (seen : List ℕ) (o : Option ℕ) → IsSeen seen o → IsSeen (x ∷ seen) o
IsSeen-more x seen none h = tt
IsSeen-more x seen (some mode) h = is_listed-more mode x seen h

All-more :
    (x : ℕ) (seen writes : List ℕ)
    → All (IsRecoverable seen) writes
    → All (IsRecoverable (x ∷ seen)) writes
All-more x seen [] h = tt
All-more x seen (mode ∷ writes) h = (
  elim h.0 [ inl driven ↦ inl driven | inr there ↦ inr (is_listed-more mode x seen there) ],
  All-more x seen writes h.1,
)

IsSafe-more : (x : ℕ) (seen : List ℕ) (w : World) → IsSafe seen w → IsSafe (x ∷ seen) w
IsSafe-more x seen w s = record {
  writes = All-more x seen w.writes s.writes;
  current = IsSeen-more x seen w.m.current s.current;
  rollback = IsSeen-more x seen w.m.rollback_mode s.rollback;
  noted = IsSeen-more x seen w.uci.rollback_mode s.noted;
}

run_callback-IsSafe :
    (seen : List ℕ) (env : Env) (cb : Callback) (status : AtStatus) (w : World)
    → IsSafe seen w
    → IsSafe seen (run_callback env cb status w)
unfolding run_callback run_cb_apply run_cb_rollback
run_callback-IsSafe seen env cb_rollback status w s = record {
  writes = s.writes;
  current = s.current;
  rollback = s.rollback;
  noted = s.noted;
}
run_callback-IsSafe seen env cb_apply at_ok w s = record {
  writes = s.writes;
  current = s.current;
  rollback = s.rollback;
  noted = s.noted;
}
run_callback-IsSafe seen env cb_apply at_timeout w s = record {
  writes = s.writes;
  current = s.current;
  rollback = s.rollback;
  noted = s.noted;
}
run_callback-IsSafe seen env cb_apply at_error w s = record {
  writes = s.writes;
  current = s.current;
  rollback = s.rollback;
  noted = s.noted;
}
run_callback-IsSafe seen env cb_apply at_noport w s = record {
  writes = s.writes;
  current = s.current;
  rollback = s.rollback;
  noted = s.noted;
}

submitted-IsSafe :
    (seen : List ℕ) (env : Env) (mode : ℕ) (cb : Callback) (sub : Submission) (w : World)
    → IsRecoverable seen mode
    → IsSafe seen w
    → IsSafe seen (submitted env mode cb sub w)
unfolding submitted
submitted-IsSafe seen env mode cb refused w r s = s
submitted-IsSafe seen env mode cb kept w r s = record {
  writes = (r, s.writes);
  current = s.current;
  rollback = s.rollback;
  noted = s.noted;
}
submitted-IsSafe seen env mode cb (answered status) w r s =
    run_callback-IsSafe seen env cb status _ (record {
      writes = (r, s.writes);
      current = s.current;
      rollback = s.rollback;
      noted = s.noted;
    })

verify_settle-IsSafe :
    (seen : List ℕ) (result : _) (rolled_back : Bool) (w : World)
    → IsSafe seen w
    → IsSafe seen (verify_settle result rolled_back w)
unfolding verify_settle
verify_settle-IsSafe seen result rolled_back w s = record {
  writes = s.writes;
  current = s.current;
  rollback = s.rollback;
  noted = s.noted;
}

send_rollback-IsSafe :
    (seen : List ℕ) (env : Env) (sub : Submission) (back : ℕ) (w : World)
    → is_listed back seen ≡ true
    → IsSafe seen w
    → IsSafe seen (send_rollback env sub back w)
unfolding send_rollback
send_rollback-IsSafe seen env refused back w h s =
    verify_settle-IsSafe seen failed false _
      (record { writes = s.writes; current = s.current; rollback = s.rollback; noted = s.noted })
send_rollback-IsSafe seen env kept back w h s =
    let sent =
      submitted-IsSafe seen env back cb_rollback kept (record w { m = record w.m { busy = true } })
        (inr h)
        (record {
          writes = s.writes;
          current = s.current;
          rollback = s.rollback;
          noted = s.noted;
        }) in
    record { writes = sent.writes; current = sent.current; rollback = sent.rollback; noted = h }
send_rollback-IsSafe seen env (answered status) back w h s =
    let sent =
      submitted-IsSafe seen env back cb_rollback (answered status)
        (record w { m = record w.m { busy = true } }) (inr h)
        (record {
          writes = s.writes;
          current = s.current;
          rollback = s.rollback;
          noted = s.noted;
        }) in
    record { writes = sent.writes; current = sent.current; rollback = sent.rollback; noted = h }

mismatch_at-IsSafe :
    (seen : List ℕ) (env : Env) (sub : Submission) (mode : ℕ) (back : Option ℕ) (w : World)
    → IsSeen seen back
    → IsSafe seen w
    → IsSafe seen (mismatch_at env sub mode back w)
unfolding mismatch_at
mismatch_at-IsSafe seen env sub mode none w h s =
    verify_settle-IsSafe seen failed w.m.rolled_back w s
mismatch_at-IsSafe seen env sub mode (some back) w h s =
    elim (Bool-cases (w.m.rolled_back || back == mode)) [
      | inl over ↦ rw over (verify_settle-IsSafe seen failed w.m.rolled_back w s)
      | inr once ↦ rw once (send_rollback-IsSafe seen env sub back w h s)
    ]

judge_current-IsSafe :
    (seen : List ℕ) (env : Env) (sub : Submission) (mode : ℕ) (target : Option ℕ) (w : World)
    → IsSafe seen w
    → IsSafe seen (judge_current env sub mode target w)
unfolding judge_current
judge_current-IsSafe seen env sub mode none w s = s
judge_current-IsSafe seen env sub mode (some target) w s = elim (Bool-cases (not w.m.pending)) [
  | inl settled ↦ rw settled s
  | inr pending ↦ elim (Bool-cases (mode == target)) [
    | inl there ↦ rw (pending, there) (verify_settle-IsSafe seen arrived w.m.rolled_back w s)
    | inr else_where ↦
        rw (pending, else_where)
          (unfold verify_mismatch in
            mismatch_at-IsSafe seen env sub mode w.m.rollback_mode w s.rollback s)
  ]
]

note_current-IsSafe :
    (seen : List ℕ) (env : Env) (sub : Submission) (mode : ℕ) (w : World)
    → IsSafe seen w
    → IsSafe (mode ∷ seen) (fm160_modesw_note_current env sub mode w)
unfolding fm160_modesw_note_current is_listed
note_current-IsSafe seen env sub mode w s =
    let more = IsSafe-more mode seen w s in
    judge_current-IsSafe (mode ∷ seen) env sub mode w.m.target _ (record {
      writes = more.writes;
      current = ground arith;
      rollback = more.rollback;
      noted = more.noted;
    })

apply_from-IsSafe :
    (seen : List ℕ) (env : Env) (sub : Submission) (target : ℕ) (advanced_ok : Bool) (w : World)
    (cur : ℕ)
    → IsSafe seen w
    → IsApplied env target advanced_ok w cur
    → IsSafe seen (apply_from env sub target cur w).0
unfolding apply_from
apply_from-IsSafe seen env sub target advanced_ok w cur s a =
    let allowed =
      (decide_iff w.m.current target w.m.supported w.m.caps_valid advanced_ok).0 a.allowed in
    let driven : IsRecoverable seen target =
      inl (allowed.profile, (allowed.found, (allowed.has_at, allowed.kernel_entry))) in
    let known : IsSeen seen (some cur) = subst (IsSeen seen) a.known s.current in
    let begun : IsSafe seen (marked env target cur w) = record {
      writes = s.writes;
      current = s.current;
      rollback = known;
      noted = known;
    } in
    elim sub as (λ k. IsSafe seen (apply_from env k target cur w).0) [
      | refused ↦ record { writes = s.writes; current = s.current; rollback = known; noted = known }
      | kept ↦ submitted-IsSafe seen env target cb_apply kept _ driven begun
      | answered status ↦ submitted-IsSafe seen env target cb_apply (answered status) _ driven begun
    ]

Step-IsSafe : {seen : List ℕ} {w w' : World} → Step w w' → IsSafe seen w → IsSafe seen w'
Step-IsSafe {seen = seen} (applies env sub target adv w) s =
    apply-cases (IsSafe seen) env sub target adv w s
      (λ cur a. apply_from-IsSafe seen env sub target adv w cur s a)
Step-IsSafe {seen = seen} (answers env status cb rest w head) s =
    run_callback-IsSafe seen env cb status _
      (record { writes = s.writes; current = s.current; rollback = s.rollback; noted = s.noted })
Step-IsSafe (lists modes w) s =
    unfold fm160_modesw_note_caps in
    record { writes = s.writes; current = s.current; rollback = s.rollback; noted = s.noted }
Step-IsSafe (forgets w) s =
    unfold fm160_ident_reset in
    record { writes = s.writes; current = tt; rollback = s.rollback; noted = s.noted }
Step-IsSafe (ticks env w) s =
    unfold fm160_modesw_tick in
    record { writes = s.writes; current = s.current; rollback = s.rollback; noted = s.noted }
Step-IsSafe (restarts env w) s =
    unfold fm160_modesw_init in
    record { writes = s.writes; current = tt; rollback = s.noted; noted = s.noted }

Reach-IsSafe : {seen : List ℕ} {w : World} → Reach seen w → IsSafe seen w
Reach-IsSafe (boots env) =
    unfold fm160_modesw_init in record { writes = tt; current = tt; rollback = tt; noted = tt }
Reach-IsSafe (next r step) = Step-IsSafe step (Reach-IsSafe r)
Reach-IsSafe (reports {seen = seen} {w = w} env sub mode r) =
    note_current-IsSafe seen env sub mode w (Reach-IsSafe r)

-- However the daemon is called and restarted, every profile that it writes to the module has an AT port
-- and a kernel entry in the table, or is one that the module has reported to be in.
pub Reach-IsRecoverable :
    {seen : List ℕ} {w : World} → Reach seen w → All (IsRecoverable seen) w.writes
Reach-IsRecoverable r = (Reach-IsSafe r).writes
