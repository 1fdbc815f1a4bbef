-- ===== src/Sched/Ports/Scan.antt =====
-- fm160d/src/sched.c: the order of the candidates of `fm160_scan_candidates`.
use openwrt_fm.Sched.Ports.{
  Tty, Found, CandClass, cand_at, cand_at2, cand_fibocom, cand_unknown, cand_silent, rank,
  same_class, emit, emit_ranked, found_loop, fm160_scan_candidates, cand_max,
}
use openwrt_fm.Base.{
  ℕ, ◌≤◌, ◌<◌, true, false, ◌≡◌, refl, sym, ap, ◌∙◌, inl, inr, List, [], ◌∷◌, ◌++◌, arith, All,
  All-append, leb, ◌==◌, if◌then◌else◌, length, Bool-cases, Bytes,
}

-- Insertion in front of the first port that is not ranked better.
abbrev pub insert : Found → List Found → List Found
insert f [] = f ∷ []
insert f (g ∷ gs) = if leb (rank f.cls) (rank g.cls) then f ∷ g ∷ gs else g ∷ insert f gs

-- The ports that may answer, sorted by rank; ports of a rank stay in their order.
abbrev pub sorted : List Found → List Found
sorted [] = []
sorted (f ∷ fs) = if same_class f.cls cand_silent then sorted fs else insert f (sorted fs)

-- The ports of one class.
abbrev group : CandClass → List Found → List Found
group cls [] = []
group cls (f ∷ fs) = if same_class f.cls cls then f ∷ group cls fs else group cls fs

abbrev groups : List Found → List Found
groups fs =
    group cand_at fs ++ (group cand_at2 fs ++ (group cand_fibocom fs ++ group cand_unknown fs))

abbrev pub names : List Found → List Bytes
names [] = []
names (f ∷ fs) = f.name ∷ names fs

emit-group : (cls : CandClass) (fs : List Found) → emit cls fs ≡ names (group cls fs)
unfolding emit
emit-group cls [] = refl
emit-group cls (f ∷ fs) = elim (Bool-cases (same_class f.cls cls)) [
  | inl same ↦ rw same (ap (λ (t : List Bytes). f.name ∷ t) (emit-group cls fs))
  | inr other ↦ rw other (emit-group cls fs)
]

insert-pass :
    (f : Found) (xs ys : List Found)
    → All (λ (g : Found). rank g.cls < rank f.cls) xs
    → insert f (xs ++ ys) ≡ xs ++ insert f ys
insert-pass f [] ys h = refl
insert-pass f (g ∷ xs) ys h =
    let test : leb (rank f.cls) (rank g.cls) ≡ false = ground (arith, h.0) in
    rw test (ap (λ (t : List Found). g ∷ t) (insert-pass f xs ys h.1))

insert-front :
    (f : Found) (ys : List Found)
    → All (λ (g : Found). rank f.cls ≤ rank g.cls) ys
    → insert f ys ≡ f ∷ ys
insert-front f [] h = refl
insert-front f (g ∷ ys) h =
    let test : leb (rank f.cls) (rank g.cls) ≡ true = ground (arith, h.0) in rw test refl

group-rank :
    (cls : CandClass) (fs : List Found) → All (λ (g : Found). rank g.cls ≡ rank cls) (group cls fs)
group-rank cls [] = tt
group-rank cls (f ∷ fs) = elim (Bool-cases (same_class f.cls cls)) [
  | inl same ↦ rw same (ground arith, group-rank cls fs)
  | inr other ↦ rw other (group-rank cls fs)
]

-- Ports of a class with a better number, and with the same or a worse one.
better :
    (n : ℕ) (cls : CandClass) (fs : List Found)
    → rank cls < n
    → All (λ (g : Found). rank g.cls < n) (group cls fs)
better n cls [] lt = tt
better n cls (f ∷ fs) lt = elim (Bool-cases (same_class f.cls cls)) [
  | inl same ↦ rw same (ground arith, better n cls fs lt)
  | inr other ↦ rw other (better n cls fs lt)
]

worse :
    (n : ℕ) (cls : CandClass) (fs : List Found)
    → n ≤ rank cls
    → All (λ (g : Found). n ≤ rank g.cls) (group cls fs)
worse n cls [] le = tt
worse n cls (f ∷ fs) le = elim (Bool-cases (same_class f.cls cls)) [
  | inl same ↦ rw same (ground arith, worse n cls fs le)
  | inr other ↦ rw other (worse n cls fs le)
]

-- The groups from the second, third and fourth on.
abbrev from_at2 : List Found → List Found
from_at2 fs = group cand_at2 fs ++ (group cand_fibocom fs ++ group cand_unknown fs)

abbrev from_fibocom : List Found → List Found
from_fibocom fs = group cand_fibocom fs ++ group cand_unknown fs

worse_fibocom :
    (n : ℕ) (fs : List Found) → n ≤ 2 → All (λ (g : Found). n ≤ rank g.cls) (from_fibocom fs)
worse_fibocom n fs le =
    All-append (λ (g : Found). n ≤ rank g.cls) (group cand_fibocom fs) (group cand_unknown fs)
      (worse n cand_fibocom fs le) (worse n cand_unknown fs (omega (arith, le)))

worse_at2 : (n : ℕ) (fs : List Found) → n ≤ 1 → All (λ (g : Found). n ≤ rank g.cls) (from_at2 fs)
worse_at2 n fs le =
    All-append (λ (g : Found). n ≤ rank g.cls) (group cand_at2 fs) (from_fibocom fs)
      (worse n cand_at2 fs le) (worse_fibocom n fs (omega (arith, le)))

-- A port goes in front of its own group.
insert-groups :
    (name : Bytes) (cls : CandClass) (fs : List Found)
    → same_class cls cand_silent ≡ false
    → insert (record { name = name; cls = cls }) (groups fs)
      ≡ groups (record { name = name; cls = cls } ∷ fs)
insert-groups name cand_silent fs h = absurd (cc)
insert-groups name cand_at fs h =
    insert-front (record { name = name; cls = cand_at }) (groups fs)
      (All-append (λ (g : Found). 0 ≤ rank g.cls) (group cand_at fs) (from_at2 fs)
        (worse 0 cand_at fs (omega arith)) (worse_at2 0 fs (omega arith)))
insert-groups name cand_at2 fs h =
    let f : Found = record { name = name; cls = cand_at2 } in
    insert-pass f (group cand_at fs) (from_at2 fs) (better 1 cand_at fs (omega arith))
    ∙ ap (λ (t : List Found). group cand_at fs ++ t)
        (insert-front f (from_at2 fs) (worse_at2 1 fs (omega arith)))
insert-groups name cand_fibocom fs h =
    let f : Found = record { name = name; cls = cand_fibocom } in
    insert-pass f (group cand_at fs) (from_at2 fs) (better 2 cand_at fs (omega arith))
    ∙ ap (λ (t : List Found). group cand_at fs ++ t)
        (insert-pass f (group cand_at2 fs) (from_fibocom fs) (better 2 cand_at2 fs (omega arith))
          ∙ ap (λ (t : List Found). group cand_at2 fs ++ t)
              (insert-front f (from_fibocom fs) (worse_fibocom 2 fs (omega arith))))
insert-groups name cand_unknown fs h =
    let f : Found = record { name = name; cls = cand_unknown } in
    insert-pass f (group cand_at fs) (from_at2 fs) (better 3 cand_at fs (omega arith))
    ∙ ap (λ (t : List Found). group cand_at fs ++ t)
        (insert-pass f (group cand_at2 fs) (from_fibocom fs) (better 3 cand_at2 fs (omega arith))
          ∙ ap (λ (t : List Found). group cand_at2 fs ++ t)
              (insert-pass f (group cand_fibocom fs) (group cand_unknown fs)
                  (better 3 cand_fibocom fs (omega arith))
                ∙ ap (λ (t : List Found). group cand_fibocom fs ++ t)
                    (insert-front f (group cand_unknown fs)
                      (worse 3 cand_unknown fs (omega arith)))))

groups_silent :
    (name : Bytes) (cls : CandClass) (fs : List Found)
    → same_class cls cand_silent ≡ true
    → groups fs ≡ groups (record { name = name; cls = cls } ∷ fs)
groups_silent name cand_silent fs h = refl
groups_silent name cand_at fs h = absurd (cc)
groups_silent name cand_at2 fs h = absurd (cc)
groups_silent name cand_fibocom fs h = absurd (cc)
groups_silent name cand_unknown fs h = absurd (cc)

sorted-groups : (fs : List Found) → sorted fs ≡ groups fs
sorted-groups [] = refl
sorted-groups (f ∷ fs) = elim (Bool-cases (same_class f.cls cand_silent)) [
  | inl silent ↦ rw silent (sorted-groups fs ∙ groups_silent f.name f.cls fs silent)
  | inr loud ↦ rw loud (ap (insert f) (sorted-groups fs) ∙ insert-groups f.name f.cls fs loud)
]

names-append : (xs ys : List Found) → names (xs ++ ys) ≡ names xs ++ names ys
names-append [] ys = refl
names-append (x ∷ xs) ys = ap (λ (t : List Bytes). x.name ∷ t) (names-append xs ys)

emit_ranked-sorted : (fs : List Found) → emit_ranked fs ≡ names (sorted fs)
emit_ranked-sorted fs =
    let last = names-append (group cand_fibocom fs) (group cand_unknown fs) in
    let middle = names-append (group cand_at2 fs) (from_fibocom fs) in
    let whole = names-append (group cand_at fs) (from_at2 fs) in
    rw
      (
        emit-group cand_at fs,
        emit-group cand_at2 fs,
        emit-group cand_fibocom fs,
        emit-group cand_unknown fs,
      )
      (sym (
        ap names (sorted-groups fs)
        ∙ whole
        ∙ ap (λ (t : List Bytes). names (group cand_at fs) ++ t)
            (middle ∙ ap (λ (t : List Bytes). names (group cand_at2 fs) ++ t) last)))

-- The ports that may answer, and where there is none, those that are known to be silent.
abbrev pub to_probe : List Found → List Bytes
to_probe found =
    if length (names (sorted found)) == 0 then emit cand_silent found else names (sorted found)

pub scan_candidates-sorted :
    (ttys : List Tty) → fm160_scan_candidates ttys ≡ to_probe (found_loop cand_max ttys)
unfolding fm160_scan_candidates
scan_candidates-sorted ttys = rw (emit_ranked-sorted (found_loop cand_max ttys)) refl
