-- ===== src/Usb.antt =====
-- fm160d/src/usbmode.c and usbmode.h: the USB profiles of the module and which of them may be
-- switched to. A profile number is a natural number; -1, the profile that is not known, is `none`.
-- The texts of verdicts and kinds are what a page shows and are left out.
pub mod Policy
pub mod Answer
pub mod Switch
mod Tests
use openwrt_fm.Base.{
  ℕ, suc, Bool, true, false, not, ◌&&◌, ◌||◌, List, [], ◌∷◌, Option, none, some, ◌==◌, leb,
  if◌then◌else◌, Bytes, codes, length, take, ◌-◌, ◌+◌,
}

pub data DialKind : Type 0 where
  kind_none kind_qmi kind_mbim kind_ecm : DialKind

unfoldable pub same_kind : DialKind → DialKind → Bool
same_kind kind_none kind_none = true
same_kind kind_qmi kind_qmi = true
same_kind kind_mbim kind_mbim = true
same_kind kind_ecm kind_ecm = true
same_kind _ _ = false

-- `struct fm160_usbmode_info` without the layout.
pub record UsbMode : Type 0 where
  pub mode : ℕ
  pub pid : Bytes
  pub kind : DialKind
  pub has_at : Bool
  pub documented : Bool
  pub kernel_entry : Bool

abbrev mode_row : ℕ → Bytes → DialKind → Bool → Bool → Bool → UsbMode
mode_row mode pid kind has_at documented kernel_entry = record {
  mode = mode;
  pid = pid;
  kind = kind;
  has_at = has_at;
  documented = documented;
  kernel_entry = kernel_entry;
}

-- The table `modes`.
unfoldable pub usb_modes : List UsbMode
usb_modes =
    mode_row 17 (codes "0104") kind_qmi true true true
    ∷ mode_row 18 (codes "0105") kind_ecm true true true
    ∷ mode_row 19 (codes "0106") kind_ecm true false true
    ∷ mode_row 20 (codes "0107") kind_none false true false
    ∷ mode_row 21 (codes "0108") kind_none true true false
    ∷ mode_row 22 (codes "0109") kind_qmi true false false
    ∷ mode_row 23 (codes "010a") kind_ecm true false true
    ∷ mode_row 24 (codes "010b") kind_none false true true
    ∷ mode_row 28 (codes "010f") kind_none false false false
    ∷ mode_row 29 (codes "0110") kind_mbim true true false
    ∷ mode_row 30 (codes "0111") kind_mbim true true true
    ∷ mode_row 31 [] kind_none false true false
    ∷ mode_row 32 (codes "0104") kind_qmi true true true
    ∷ mode_row 33 (codes "0105") kind_ecm true true true
    ∷ []

abbrev pub mode_blacklist : List ℕ
mode_blacklist = 20 ∷ 24 ∷ 28 ∷ 31 ∷ []

unfoldable pub find_mode : ℕ → List UsbMode → Option UsbMode
find_mode mode [] = none
find_mode mode (m ∷ ms) = let rest = find_mode mode ms in if m.mode == mode then some m else rest

unfoldable pub fm160_usbmode_info : ℕ → Option UsbMode
fm160_usbmode_info mode = find_mode mode usb_modes

unfoldable pub fm160_usbmode_known : ℕ → Bool
fm160_usbmode_known mode = elim (fm160_usbmode_info mode) [ none ↦ false | some _ ↦ true ]

unfoldable pub fm160_usbmode_has_at : ℕ → Bool
fm160_usbmode_has_at mode = elim (fm160_usbmode_info mode) [ none ↦ false | some m ↦ m.has_at ]

unfoldable pub fm160_usbmode_documented : ℕ → Bool
fm160_usbmode_documented mode = elim (fm160_usbmode_info mode) [
  | none ↦ false
  | some m ↦ m.documented
]

unfoldable pub fm160_usbmode_kernel_entry : ℕ → Bool
fm160_usbmode_kernel_entry mode = elim (fm160_usbmode_info mode) [
  | none ↦ false
  | some m ↦ m.kernel_entry
]

unfoldable pub fm160_usbmode_kind : ℕ → DialKind
fm160_usbmode_kind mode = elim (fm160_usbmode_info mode) [ none ↦ kind_none | some m ↦ m.kind ]

-- The loop over an array of numbers, which stops at the first that is equal.
unfoldable pub is_listed : ℕ → List ℕ → Bool
is_listed mode [] = false
is_listed mode (x ∷ xs) = x == mode || is_listed mode xs

unfoldable pub fm160_usbmode_blacklisted : ℕ → Bool
fm160_usbmode_blacklisted mode = is_listed mode mode_blacklist

-- The arrays `qmi`, `mbim` and `ecm`.
abbrev pub preferences : DialKind → List ℕ
preferences kind_qmi = 32 ∷ 17 ∷ []
preferences kind_mbim = 30 ∷ []
preferences kind_ecm = 33 ∷ 18 ∷ []
preferences kind_none = []

-- The loop of `fm160_usbmode_preferred`: `n` numbers are in `out`, which has room for `max`.
unfoldable pub preferred_loop : List ℕ → ℕ → ℕ → List ℕ
preferred_loop [] n max = []
preferred_loop (mode ∷ list) n max =
    let skip = preferred_loop list n max in
    let keep = preferred_loop list (n + 1) max in
    if leb max n
    then []
    else if not (fm160_usbmode_has_at mode)
    then skip
    else if not (fm160_usbmode_kernel_entry mode)
    then skip
    else mode ∷ keep

-- What is in `out` afterwards.
unfoldable pub fm160_usbmode_preferred : DialKind → ℕ → List ℕ
fm160_usbmode_preferred kind max = preferred_loop (preferences kind) 0 max

unfoldable pub fm160_usbmode_offerable : DialKind → ℕ → Bool → Bool
fm160_usbmode_offerable kind mode advanced_ok = elim (fm160_usbmode_info mode) [
  | none ↦ false
  | some m ↦
      if not m.has_at || fm160_usbmode_blacklisted mode
      then false
      else if not m.kernel_entry
      then false
      else if not m.documented && not advanced_ok
      then false
      else same_kind m.kind kind
]

pub data Verdict : Type 0 where
  usb_ok usb_ok_same deny_unknown deny_no_at deny_no_driver deny_undocumented deny_not_supported
        deny_list_unknown :
      Verdict

abbrev pub is_current : Option ℕ → ℕ → Bool
is_current none target = false
is_current (some current) target = current == target

unfoldable pub fm160_usbmode_decide : Option ℕ → ℕ → List ℕ → Bool → Bool → Verdict
fm160_usbmode_decide current target supported supported_known advanced_ok =
    if not (fm160_usbmode_known target)
    then deny_unknown
    else if fm160_usbmode_blacklisted target || not (fm160_usbmode_has_at target)
    then deny_no_at
    else if not (fm160_usbmode_kernel_entry target)
    then deny_no_driver
    else if not (fm160_usbmode_documented target) && not advanced_ok
    then deny_undocumented
    else if is_current current target
    then usb_ok_same
    else if not supported_known
    then deny_list_unknown
    else if is_listed target supported
    then usb_ok
    else deny_not_supported

unfoldable pub fm160_usbmode_verdict_is_ok : Verdict → Bool
fm160_usbmode_verdict_is_ok usb_ok = true
fm160_usbmode_verdict_is_ok usb_ok_same = true
fm160_usbmode_verdict_is_ok _ = false
