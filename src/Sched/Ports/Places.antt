-- ===== src/Sched/Ports/Places.antt =====
-- fm160d/src/sched.c: what `fm160_scan_candidates` makes of the entries of a directory.
use openwrt_fm.Sched.Ports.Scan.{insert, sorted, names, to_probe, scan_candidates-sorted}
use openwrt_fm.Sched.Ports.{
  Level, Tty, Found, CandClass, cand_silent, rank, emit, found_loop, fm160_scan_candidates,
  cand_max, first_known, ids_loop, tty_usb_ids, cand_class_for, class_of, starts, is_serial,
}
use openwrt_fm.Text.{behind, same_text, same_ignoring_case}
use openwrt_fm.Base.{
  ℕ, zero, suc, ◌+◌, Bool, true, false, ◌&&◌, ◌||◌, ◌≡◌, refl, sym, ap, ◌∙◌, inl, inr, List, [],
  ◌∷◌, ◌++◌, Option, none, some, arith, ltb, leb, ◌==◌, if◌then◌else◌, length, take, Bool-cases,
  Option-cases, Bytes, codes,
}

-- The first that one of the directories has.
abbrev pub first_of {ℓ} : {A : Type ℓ} → (Level → Option A) → List Level → Option A
first_of get [] = none
first_of get (level ∷ levels) = first_known (get level) (first_of get levels)

-- The places of a port of the module by its interface: 2 and 1 are the AT ports, 0 never answers.
abbrev pub place_of_iface : Option ℕ → ℕ
place_of_iface none = 2
place_of_iface (some zero) = 4
place_of_iface (some (suc zero)) = 1
place_of_iface (some (suc (suc zero))) = 0
place_of_iface (some (suc (suc (suc n)))) = 2

-- A port of another vendor has none.
abbrev pub place_of_ids : Option Bytes → Option ℕ → Option ℕ
place_of_ids none iface = some 3
place_of_ids (some vid) iface =
    if same_ignoring_case vid (codes "2cb7") then some (place_of_iface iface) else none

-- The name of a USB serial port, short enough for the path's buffer.
abbrev pub is_usb_tty : Bytes → Bool
is_usb_tty name =
    (same_text (take 6 name) (codes "ttyUSB") || same_text (take 6 name) (codes "ttyACM"))
    && leb (length name) 26

abbrev pub place : Tty → Option ℕ
place tty =
    let near = take 6 tty.levels in
    if is_usb_tty tty.name
    then place_of_ids (first_of (λ (l : Level). l.vendor) near)
        (first_of (λ (l : Level). l.iface) near)
    else none

-- The ports that have a place, with their paths, in the order of the directory.
abbrev pub placed : List Tty → List (Bytes × ℕ)
placed [] = []
placed (tty ∷ ttys) = elim (place tty) [
  | none ↦ placed ttys
  | some n ↦ (codes "/dev/" ++ tty.name, n) ∷ placed ttys
]

-- In front of the first that has no better place.
abbrev pub insert_place : Bytes × ℕ → List (Bytes × ℕ) → List (Bytes × ℕ)
insert_place f [] = f ∷ []
insert_place f (g ∷ gs) = if leb f.1 g.1 then f ∷ g ∷ gs else g ∷ insert_place f gs

-- Sorted by place; those of a place stay in their order, and those of the last one are left out.
abbrev pub by_place : List (Bytes × ℕ) → List (Bytes × ℕ)
by_place [] = []
by_place (f ∷ fs) = if f.1 == 4 then by_place fs else insert_place f (by_place fs)

abbrev pub last_place : List (Bytes × ℕ) → List (Bytes × ℕ)
last_place [] = []
last_place (f ∷ fs) = let rest = last_place fs in if f.1 == 4 then f ∷ rest else rest

abbrev pub paths : List (Bytes × ℕ) → List Bytes
paths [] = []
paths (f ∷ fs) = f.0 ∷ paths fs

-- Those that may answer, or else those of the last place.
abbrev pub in_order : List (Bytes × ℕ) → List Bytes
in_order fs = if length (by_place fs) == 0 then paths (last_place fs) else paths (by_place fs)

abbrev pairs : List Found → List (Bytes × ℕ)
pairs [] = []
pairs (f ∷ fs) = (f.name, rank f.cls) ∷ pairs fs

insert-pairs :
    (f : Found) (gs : List Found)
    → pairs (insert f gs) ≡ insert_place (f.name, rank f.cls) (pairs gs)
insert-pairs f [] = refl
insert-pairs f (g ∷ gs) = elim (Bool-cases (leb (rank f.cls) (rank g.cls))) [
  | inl front ↦ rw front refl
  | inr behind_it ↦
      rw behind_it (ap (λ (t : List (Bytes × ℕ)). (g.name, rank g.cls) ∷ t) (insert-pairs f gs))
]

sorted-pairs : (fs : List Found) → pairs (sorted fs) ≡ by_place (pairs fs)
sorted-pairs [] = refl
sorted-pairs (f ∷ fs) = elim (Bool-cases (rank f.cls == 4)) [
  | inl silent ↦ rw silent (sorted-pairs fs)
  | inr loud ↦
      rw loud
        (insert-pairs f (sorted fs) ∙ ap (insert_place (f.name, rank f.cls)) (sorted-pairs fs))
]

paths-pairs : (fs : List Found) → names fs ≡ paths (pairs fs)
paths-pairs [] = refl
paths-pairs (f ∷ fs) = ap (λ (t : List Bytes). f.name ∷ t) (paths-pairs fs)

length-pairs : (fs : List Found) → length (names fs) ≡ length (pairs fs)
length-pairs [] = refl
length-pairs (f ∷ fs) = omega (arith, length-pairs fs)

emit-last : (fs : List Found) → emit cand_silent fs ≡ paths (last_place (pairs fs))
unfolding emit
emit-last [] = refl
emit-last (f ∷ fs) = elim (Bool-cases (rank f.cls == 4)) [
  | inl silent ↦ rw silent (ap (λ (t : List Bytes). f.name ∷ t) (emit-last fs))
  | inr loud ↦ rw loud (emit-last fs)
]

first_known_assoc {ℓ} :
    {A : Type ℓ} (x y z : Option A)
    → first_known (first_known x y) z ≡ first_known x (first_known y z)
first_known_assoc none y z = refl
first_known_assoc (some x) y z = refl

first_known-none {ℓ} : {A : Type ℓ} (x : Option A) → first_known x none ≡ x
first_known-none none = refl
first_known-none (some x) = refl

-- The walk upwards finds the first of both.
ids_loop-first :
    (up : ℕ) (vendor : Option Bytes) (iface : Option ℕ) (levels : List Level)
    → ids_loop up vendor iface levels ≡ (
      first_known vendor (first_of (λ (l : Level). l.vendor) (take up levels)),
      first_known iface (first_of (λ (l : Level). l.iface) (take up levels)),
    )
unfolding ids_loop
ids_loop-first zero vendor iface levels = rw (first_known-none vendor, first_known-none iface) refl
ids_loop-first (suc up) vendor iface [] = rw (first_known-none vendor, first_known-none iface) refl
ids_loop-first (suc up) vendor iface (level ∷ levels) =
    ids_loop-first up (first_known vendor level.vendor) (first_known iface level.iface) levels
    ∙ rw
        (
          first_known_assoc vendor level.vendor
              (first_of (λ (l : Level). l.vendor) (take up levels)),
          first_known_assoc iface level.iface (first_of (λ (l : Level). l.iface) (take up levels)),
        )
        refl

abbrev ranked : Option CandClass → Option ℕ
ranked none = none
ranked (some cls) = some (rank cls)

rank-class : (iface : Option ℕ) → rank (cand_class_for iface) ≡ place_of_iface iface
unfolding cand_class_for
rank-class none = refl
rank-class (some zero) = refl
rank-class (some (suc zero)) = refl
rank-class (some (suc (suc zero))) = refl
rank-class (some (suc (suc (suc n)))) =
    let two : suc (suc (suc n)) == 2 ≡ false = ground arith in
    let one : suc (suc (suc n)) == 1 ≡ false = ground arith in
    let nil : suc (suc (suc n)) == 0 ≡ false = ground arith in rw (two, one, nil) refl

class_of-place :
    (vendor : Option Bytes) (iface : Option ℕ)
    → ranked (class_of (vendor, iface)) ≡ place_of_ids vendor iface
unfolding class_of
class_of-place none iface = refl
class_of-place (some vid) iface = elim (Bool-cases (same_ignoring_case vid (codes "2cb7"))) [
  | inl ours ↦ rw ours (ap some (rank-class iface))
  | inr other ↦ rw other refl
]

starts-take :
    (prefix name : Bytes) → starts prefix name ≡ same_text (take (length prefix) name) prefix
unfolding behind same_text
starts-take [] name = refl
starts-take (t ∷ ts) [] = refl
starts-take (t ∷ ts) (c ∷ name) = elim (Bool-cases (t == c)) [
  | inl e ↦ let back : c == t ≡ true = ground arith in rw (e, back, starts) (starts-take ts name)
  | inr e ↦ let back : c == t ≡ false = ground arith in rw (e, back, starts) refl
]

serial-usb : (name : Bytes) → is_serial name ≡ is_usb_tty name
serial-usb name =
    let room : ltb (5 + length name) 32 ≡ leb (length name) 26 = ground arith in
    rw (starts-take (codes "ttyUSB") name, starts-take (codes "ttyACM") name, room) refl

-- The class that the code gives to an entry, if it takes it.
abbrev class_at : Tty → Option CandClass
class_at tty = if is_serial tty.name then class_of (tty_usb_ids tty) else none

class_at-place : (tty : Tty) → ranked (class_at tty) ≡ place tty
unfolding tty_usb_ids
class_at-place tty =
    let near = take 6 tty.levels in
    rw (serial-usb tty.name, ids_loop-first 6 none none tty.levels)
      (elim (Bool-cases (is_usb_tty tty.name)) [
        | inl serial ↦ rw serial (
            class_of-place (first_of (λ (l : Level). l.vendor) near)
              (first_of (λ (l : Level). l.iface) near))
        | inr other ↦ rw other refl
      ])

placed-none : (tty : Tty) (ttys : List Tty) → place tty ≡ none → placed (tty ∷ ttys) ≡ placed ttys
placed-none tty ttys e = rw (e, placed) refl

placed-some :
    (tty : Tty) (ttys : List Tty) (n : ℕ)
    → place tty ≡ some n
    → placed (tty ∷ ttys) ≡ (codes "/dev/" ++ tty.name, n) ∷ placed ttys
placed-some tty ttys n e = rw (e, placed) refl

found_loop-placed :
    (room : ℕ) (ttys : List Tty) → pairs (found_loop room ttys) ≡ take room (placed ttys)
unfolding found_loop
found_loop-placed zero ttys = refl
found_loop-placed (suc room) [] = refl
found_loop-placed (suc room) (tty ∷ ttys) = elim (Option-cases (class_at tty)) [
  | inl left ↦
      let e = sym (class_at-place tty) ∙ ap ranked left in
      rw (left, found_loop)
        (found_loop-placed (suc room) ttys ∙ ap (take (suc room)) (sym (placed-none tty ttys e)))
  | inr (cls, taken) ↦
      let e = sym (class_at-place tty) ∙ ap ranked taken in
      rw (taken, found_loop)
        (ap (λ (t : List (Bytes × ℕ)). (codes "/dev/" ++ tty.name, rank cls) ∷ t)
            (found_loop-placed room ttys)
          ∙ ap (take (suc room)) (sym (placed-some tty ttys (rank cls) e)))
]

to_probe-in_order : (fs : List Found) → to_probe fs ≡ in_order (pairs fs)
to_probe-in_order fs =
    rw (length-pairs (sorted fs), emit-last fs, paths-pairs (sorted fs), sorted-pairs fs) refl

-- A scan takes up the first twelve USB serial ports that are of the vendor, in upper or lower case, or
-- of which none of six directories upwards names one. It tries them in the order of their place, those
-- of a place in the order of the directory: of the vendor's, interface 2 and then 1 and then all but
-- interface 0; then those without a vendor. Those of interface 0 are tried only where there is no other.
pub scan_candidates-places :
    (ttys : List Tty) → fm160_scan_candidates ttys ≡ in_order (take 12 (placed ttys))
scan_candidates-places ttys =
    scan_candidates-sorted ttys
    ∙ to_probe-in_order (found_loop cand_max ttys)
    ∙ ap in_order (found_loop-placed cand_max ttys)
