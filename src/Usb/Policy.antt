-- ===== src/Usb/Policy.antt =====
-- fm160d/src/usbmode.c: the decision against the table, the list of preferences and the filter of
-- the page.
use openwrt_fm.Usb.{
  DialKind, same_kind, UsbMode, usb_modes, find_mode, fm160_usbmode_info, fm160_usbmode_known,
  fm160_usbmode_has_at, fm160_usbmode_documented, fm160_usbmode_kernel_entry, fm160_usbmode_kind,
  is_listed, fm160_usbmode_blacklisted, preferences, preferred_loop, fm160_usbmode_preferred,
  fm160_usbmode_offerable, usb_ok, usb_ok_same, deny_unknown, deny_no_at, deny_no_driver,
  deny_undocumented, deny_not_supported, deny_list_unknown, is_current, fm160_usbmode_decide,
  fm160_usbmode_verdict_is_ok, kind_qmi, kind_mbim, kind_ecm, kind_none,
}
use mathlib.Core.Path.{subst}
use openwrt_fm.Base.{
  ℕ, ◌+◌, ◌≤◌, Bool, true, false, not, ◌&&◌, ◌||◌, ◌≡◌, ◌↔◌, ◌⊎◌, refl, sym, ap, ◌∙◌, inl, inr,
  List, [], ◌∷◌, Option, none, some, arith, ◌==◌, leb, length, Option-cases, Bool-cases,
  if◌then◌else◌, All, ==_iff,
}

-- What the documents ask of a target: a profile of the table with an AT port that the kernel drives,
-- documented or opted into, and either the one in use or one that the module says it has.
pub record IsAllowed (current : Option ℕ) (target : ℕ) (supported : List ℕ)
    (supported_known advanced_ok : Bool) : Type 0 where
  pub profile : UsbMode
  pub found : fm160_usbmode_info target ≡ some profile
  pub has_at : profile.has_at ≡ true
  pub kernel_entry : profile.kernel_entry ≡ true
  pub documented : (profile.documented ≡ true) ⊎ (advanced_ok ≡ true)
  pub reported :
      (current ≡ some target) ⊎ ((supported_known ≡ true) × (is_listed target supported ≡ true))

find_mode-skip :
    (mode : ℕ) (x : UsbMode) (ms : List UsbMode)
    → x.mode == mode ≡ false
    → find_mode mode (x ∷ ms) ≡ find_mode mode ms
unfolding find_mode
find_mode-skip mode x ms there = rw there refl

find_mode-All {κ} :
    (P : UsbMode → Type κ) (mode : ℕ) (ms : List UsbMode) (m : UsbMode)
    → All P ms
    → find_mode mode ms ≡ some m
    → P m × (m.mode ≡ mode)
unfolding find_mode
find_mode-All P mode [] m all found = absurd (cc)
find_mode-All P mode (x ∷ ms) m all found = elim (Bool-cases (x.mode == mode)) [
  | inl here ↦
      let pick : find_mode mode (x ∷ ms) ≡ some x = rw here refl in
      let same : x ≡ m = cc in
      subst (λ (y : UsbMode). P y × (y.mode ≡ mode)) same (all.0, ground arith)
  | inr there ↦ find_mode-All P mode ms m all.1 (sym (find_mode-skip mode x ms there) ∙ found)
]

abbrev IsConsistent : UsbMode → Type 0
IsConsistent m = fm160_usbmode_blacklisted m.mode ≡ not m.has_at

usb_modes-IsConsistent : All IsConsistent usb_modes
unfolding usb_modes fm160_usbmode_blacklisted is_listed
usb_modes-IsConsistent = (
  refl,
  (
    refl,
    (
      refl,
      (refl, (refl, (refl, (refl, (refl, (refl, (refl, (refl, (refl, (refl, (refl, tt))))))))))),
    ),
  ),
)

-- The blacklist names the profiles of the table that have no AT port, and no others.
pub blacklisted-has_at :
    (mode : ℕ) (m : UsbMode)
    → fm160_usbmode_info mode ≡ some m
    → fm160_usbmode_blacklisted mode ≡ not m.has_at
unfolding fm160_usbmode_info
blacklisted-has_at mode m found =
    let (consistent, same) =
      find_mode-All IsConsistent mode usb_modes m usb_modes-IsConsistent found in
    ap fm160_usbmode_blacklisted (sym same) ∙ consistent

decide_missing :
    (current : Option ℕ) (target : ℕ) (supported : List ℕ) (supported_known advanced_ok : Bool)
    → fm160_usbmode_info target ≡ none
    → fm160_usbmode_decide current target supported supported_known advanced_ok ≡ deny_unknown
unfolding fm160_usbmode_decide fm160_usbmode_known
decide_missing current target supported supported_known advanced_ok missing =
    rw (missing, fm160_usbmode_known) refl

-- On a row of the table the blacklist says nothing that `has_at` does not.
decide_found :
    (current : Option ℕ) (target : ℕ) (supported : List ℕ) (supported_known advanced_ok : Bool)
    (m : UsbMode)
    → fm160_usbmode_info target ≡ some m
    → fm160_usbmode_decide current target supported supported_known advanced_ok ≡ (
        if not m.has_at
        then deny_no_at
        else if not m.kernel_entry
        then deny_no_driver
        else if not m.documented && not advanced_ok
        then deny_undocumented
        else if is_current current target
        then usb_ok_same
        else if not supported_known
        then deny_list_unknown
        else if is_listed target supported
        then usb_ok
        else deny_not_supported)
unfolding fm160_usbmode_decide fm160_usbmode_known fm160_usbmode_has_at fm160_usbmode_documented
    fm160_usbmode_kernel_entry
decide_found current target supported supported_known advanced_ok m found =
    let black = blacklisted-has_at target m found in
    elim (Bool-cases m.has_at) [
      | inl with_at ↦
          rw
            (
              found, fm160_usbmode_known, fm160_usbmode_has_at, fm160_usbmode_documented,
              fm160_usbmode_kernel_entry, black, with_at,
            )
            refl
      | inr without ↦
          rw
            (
              found, fm160_usbmode_known, fm160_usbmode_has_at, fm160_usbmode_documented,
              fm160_usbmode_kernel_entry, black, without,
            )
            refl
    ]

is_current_iff :
    (current : Option ℕ) (target : ℕ) → (is_current current target ≡ true) ↔ (current ≡ some target)
is_current_iff none target = (λ h. absurd (cc), λ h. absurd (cc))
is_current_iff (some c) target =
    (λ h. ap some ((==_iff c target).0 h), λ h. (==_iff c target).1 (cc))

flags_iff :
    (has_at kernel_entry documented advanced_ok same supported_known listed : Bool)
    → (fm160_usbmode_verdict_is_ok (
          if not has_at
          then deny_no_at
          else if not kernel_entry
          then deny_no_driver
          else if not documented && not advanced_ok
          then deny_undocumented
          else if same
          then usb_ok_same
          else if not supported_known
          then deny_list_unknown
          else if listed
          then usb_ok
          else deny_not_supported)
        ≡ true)
      ↔ ((has_at ≡ true)
          × ((kernel_entry ≡ true)
              × (((documented ≡ true) ⊎ (advanced_ok ≡ true))
                  × ((same ≡ true) ⊎ ((supported_known ≡ true) × (listed ≡ true))))))
unfolding fm160_usbmode_verdict_is_ok
flags_iff has_at kernel_entry documented advanced_ok same supported_known listed = ground arith

decide-IsAllowed :
    (current : Option ℕ) (target : ℕ) (supported : List ℕ) (supported_known advanced_ok : Bool)
    → fm160_usbmode_verdict_is_ok
        (fm160_usbmode_decide current target supported supported_known advanced_ok)
      ≡ true
    → IsAllowed current target supported supported_known advanced_ok
unfolding fm160_usbmode_verdict_is_ok
decide-IsAllowed current target supported supported_known advanced_ok h =
    elim (Option-cases (fm160_usbmode_info target)) [
      | inl missing ↦
          let gone = decide_missing current target supported supported_known advanced_ok missing in
          absurd (let h' = rw gone at h in cc)
      | inr (m, found) ↦
          let chain = decide_found current target supported supported_known advanced_ok m found in
          let flags =
            flags_iff m.has_at m.kernel_entry m.documented advanced_ok (is_current current target)
              supported_known (is_listed target supported) in
          let (at, (kernel, (doc, reported))) =
            flags.0 (ap fm160_usbmode_verdict_is_ok (sym chain) ∙ h) in
          record {
            profile = m;
            found = found;
            has_at = at;
            kernel_entry = kernel;
            documented = doc;
            reported = elim reported [
              | inl here ↦ inl ((is_current_iff current target).0 here)
              | inr there ↦ inr there
            ];
          }
    ]

-- The verdict is a permission exactly where the target is a profile of the table with an AT port that
-- the kernel drives, is documented or opted into, and is in use already or in the module's own list.
pub decide_iff :
    (current : Option ℕ) (target : ℕ) (supported : List ℕ) (supported_known advanced_ok : Bool)
    → (fm160_usbmode_verdict_is_ok
          (fm160_usbmode_decide current target supported supported_known advanced_ok)
        ≡ true)
      ↔ IsAllowed current target supported supported_known advanced_ok
decide_iff current target supported supported_known advanced_ok = (
  decide-IsAllowed current target supported supported_known advanced_ok,
  λ a.
      let m = a.profile in
      let flags =
        flags_iff m.has_at m.kernel_entry m.documented advanced_ok (is_current current target)
          supported_known (is_listed target supported) in
      let chain = decide_found current target supported supported_known advanced_ok m a.found in
      let reported : ((is_current current target ≡ true)
          ⊎ ((supported_known ≡ true) × (is_listed target supported ≡ true))) =
        elim a.reported [
          | inl here ↦ inl ((is_current_iff current target).1 here)
          | inr there ↦ inr there
        ] in
      ap fm160_usbmode_verdict_is_ok chain
      ∙ flags.1 (a.has_at, (a.kernel_entry, (a.documented, reported))),
)

same_kind_refl : (k : DialKind) → same_kind k k ≡ true
unfolding same_kind
same_kind_refl kind_none = refl
same_kind_refl kind_qmi = refl
same_kind_refl kind_mbim = refl
same_kind_refl kind_ecm = refl

offered_flags :
    (has_at kernel_entry documented advanced_ok same : Bool)
    → (if not has_at || not has_at
        then false
        else if not kernel_entry
        then false
        else if not documented && not advanced_ok
        then false
        else same)
      ≡ (fm160_usbmode_verdict_is_ok (
            if not has_at
            then deny_no_at
            else if not kernel_entry
            then deny_no_driver
            else if not documented && not advanced_ok
            then deny_undocumented
            else usb_ok)
          && same)
unfolding fm160_usbmode_verdict_is_ok
offered_flags has_at kernel_entry documented advanced_ok same = ground arith

-- What the page offers for a kind of dialling is what the daemon applies once the module lists it: the
-- filter and the decision differ in the kind, which only the page asks for.
pub offerable-decide :
    (kind : DialKind) (mode : ℕ) (supported : List ℕ) (advanced_ok : Bool)
    → is_listed mode supported ≡ true
    → fm160_usbmode_offerable kind mode advanced_ok ≡ (
        fm160_usbmode_verdict_is_ok (fm160_usbmode_decide none mode supported true advanced_ok)
        && same_kind (fm160_usbmode_kind mode) kind)
unfolding fm160_usbmode_offerable fm160_usbmode_verdict_is_ok fm160_usbmode_kind
offerable-decide kind mode supported advanced_ok listed =
    elim (Option-cases (fm160_usbmode_info mode)) [
      | inl missing ↦
          rw (decide_missing none mode supported true advanced_ok missing)
            (rw (missing, fm160_usbmode_offerable) refl)
      | inr (m, found) ↦
          let black = blacklisted-has_at mode m found in
          rw (decide_found none mode supported true advanced_ok m found, listed)
            (rw (found, fm160_usbmode_kind, fm160_usbmode_offerable, black)
              (offered_flags m.has_at m.kernel_entry m.documented advanced_ok
                (same_kind m.kind kind)))
    ]

preferred_loop-All {κ} :
    (P : ℕ → Type κ) (list : List ℕ) (n max : ℕ) → All P list → All P (preferred_loop list n max)
unfolding preferred_loop
preferred_loop-All P [] n max h = tt
preferred_loop-All P (mode ∷ list) n max h = elim (Bool-cases (leb max n)) [
  | inl full ↦ rw full tt
  | inr room ↦ elim (Bool-cases (fm160_usbmode_has_at mode)) [
    | inr without ↦ rw (room, without) (preferred_loop-All P list n max h.1)
    | inl with_at ↦ elim (Bool-cases (fm160_usbmode_kernel_entry mode)) [
      | inr undriven ↦ rw (room, with_at) (rw undriven (preferred_loop-All P list n max h.1))
      | inl driven ↦ rw (room, with_at) (rw driven (h.0, preferred_loop-All P list (n + 1) max h.1))
    ]
  ]
]

length-preferred_loop :
    (list : List ℕ) (n max : ℕ) → n ≤ max → length (preferred_loop list n max) + n ≤ max
unfolding preferred_loop
length-preferred_loop [] n max h = omega (arith, h)
length-preferred_loop (mode ∷ list) n max h =
    ground (arith, length-preferred_loop list n max h, length-preferred_loop list (n + 1) max)

preferences-offerable :
    (kind : DialKind)
    → All (λ mode. fm160_usbmode_offerable kind mode false ≡ true) (preferences kind)
unfolding fm160_usbmode_offerable fm160_usbmode_info usb_modes find_mode fm160_usbmode_blacklisted
    is_listed same_kind
preferences-offerable kind_none = tt
preferences-offerable kind_qmi = (refl, (refl, tt))
preferences-offerable kind_mbim = (refl, tt)
preferences-offerable kind_ecm = (refl, (refl, tt))

-- Every preference of a kind of dialling is offered for it without an opt-in, and no more than `max`
-- of them are written.
pub preferred-offerable :
    (kind : DialKind) (max : ℕ)
    → All
        (λ mode. fm160_usbmode_offerable kind mode false ≡ true)
        (fm160_usbmode_preferred kind max)
      × (length (fm160_usbmode_preferred kind max) ≤ max)
unfolding fm160_usbmode_preferred
preferred-offerable kind max = (
  preferred_loop-All (λ mode. fm160_usbmode_offerable kind mode false ≡ true) (preferences kind) 0
      max (preferences-offerable kind),
  omega (arith, length-preferred_loop (preferences kind) 0 max (omega arith)),
)
