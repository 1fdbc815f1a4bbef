-- ===== src/Usb/Switch/Steps.antt =====
-- fm160d/src/modesw.c: the calls that the daemon makes of the switch, in any order, as a step relation,
-- with the profiles that the module has reported, and how a case of an operation is reached.
use openwrt_fm.Usb.{fm160_usbmode_decide, fm160_usbmode_verdict_is_ok}
use openwrt_fm.Atq.{AtStatus}
use openwrt_fm.Usb.Switch.{
  UciSwitch, Callback, World, Submission, Env, fm160_modesw_init, run_callback,
  fm160_modesw_note_current, fm160_modesw_note_caps, fm160_ident_reset, fm160_modesw_apply,
  apply_from, apply_known, fm160_modesw_tick, is_stuck, is_same,
}
use openwrt_fm.Base.{
  ℕ, Bool, true, false, not, ◌||◌, ◌≡◌, refl, inl, inr, List, [], ◌∷◌, Option, none, some, arith,
  Bool-cases,
}

-- A daemon that has never switched.
abbrev pub never_switched : UciSwitch
never_switched = record { pending = false; rollback_mode = none; target = none; pending_since = 0 }

abbrev pub started : Env → UciSwitch → List ℕ → World
started env uci writes = record {
  m = fm160_modesw_init env uci;
  uci = uci;
  waiting = [];
  writes = writes;
}

pub data Step : World → World → Type 0 where
  applies :
      (env : Env) (sub : Submission) (target : ℕ) (advanced_ok : Bool) (w : World)
      → Step w (fm160_modesw_apply env sub target advanced_ok w).0
  answers :
      (env : Env) (status : AtStatus) (cb : Callback) (rest : List Callback) (w : World)
      → w.waiting ≡ cb ∷ rest
      → Step w (run_callback env cb status (record w { waiting = rest }))
  lists : (modes : List ℕ) (w : World) → Step w (fm160_modesw_note_caps modes w)
  forgets : (w : World) → Step w (fm160_ident_reset w)
  ticks : (env : Env) (w : World) → Step w (record w { m = fm160_modesw_tick env w.m })
  restarts : (env : Env) (w : World) → Step w (started env w.uci w.writes)

-- The worlds that are reached, each with the profiles reported until then.
pub data Reach : List ℕ → World → Type 0 where
  boots : (env : Env) → Reach [] (started env never_switched [])
  next : {seen : List ℕ} {w w' : World} → Reach seen w → Step w w' → Reach seen w'
  reports :
      {seen : List ℕ} {w : World}
      → (env : Env) (sub : Submission) (mode : ℕ) → Reach seen w
      → Reach (mode ∷ seen) (fm160_modesw_note_current env sub mode w)

-- What holds where a switch is applied.
pub record IsApplied (env : Env) (target : ℕ) (advanced_ok : Bool) (w : World) (cur : ℕ)
    : Type 0 where
  pub known : w.m.current ≡ some cur
  pub allowed :
      fm160_usbmode_verdict_is_ok
        (fm160_usbmode_decide w.m.current target w.m.supported w.m.caps_valid advanced_ok)
      ≡ true
  pub settled : (w.m.busy || w.m.pending) ≡ false
  pub reachable : is_stuck w.m.st ≡ false
  pub port : env.port_found ≡ true

known-cases {κ} :
    (P : World → Type κ) (env : Env) (sub : Submission) (target : ℕ) (current : Option ℕ)
    (w : World)
    → P w
    → ((cur : ℕ)
        → current ≡ some cur
        → env.port_found ≡ true
        → P (apply_from env sub target cur w).0)
    → P (apply_known env sub target current w).0
unfolding apply_known
known-cases P env sub target none w same applied = same
known-cases P env sub target (some cur) w same applied = elim (Bool-cases (not env.port_found)) [
  | inl lost ↦ rw lost same
  | inr port ↦ rw port (applied cur refl (ground arith))
]

-- An application changes nothing, or it is applied in full.
pub apply-cases {κ} :
    (P : World → Type κ) (env : Env) (sub : Submission) (target : ℕ) (advanced_ok : Bool)
    (w : World)
    → P w
    → ((cur : ℕ) → IsApplied env target advanced_ok w cur → P (apply_from env sub target cur w).0)
    → P (fm160_modesw_apply env sub target advanced_ok w).0
unfolding fm160_modesw_apply
apply-cases P env sub target advanced_ok w same applied =
    let verdict =
      fm160_usbmode_decide w.m.current target w.m.supported w.m.caps_valid advanced_ok in
    elim (Bool-cases (is_stuck w.m.st)) [
      | inl stuck ↦ rw stuck same
      | inr free ↦ elim (Bool-cases (w.m.busy || w.m.pending)) [
        | inl taken ↦ rw (free, taken) same
        | inr settled ↦ elim (Bool-cases (not env.enabled)) [
          | inl off ↦ rw (free, settled) (rw off same)
          | inr on ↦ elim (Bool-cases (is_same verdict)) [
            | inl there ↦ rw (free, settled) (rw (on, there) same)
            | inr else_where ↦ elim (Bool-cases (fm160_usbmode_verdict_is_ok verdict)) [
              | inr denied ↦ rw (free, settled) (rw (on, else_where, denied) same)
              | inl allowed ↦
                  rw (free, settled)
                    (rw (on, else_where, allowed)
                      (known-cases P env sub target w.m.current w same (λ cur known port.
                        applied cur (record {
                          known = known;
                          allowed = allowed;
                          settled = settled;
                          reachable = free;
                          port = port;
                        }))))
            ]
          ]
        ]
      ]
    ]
