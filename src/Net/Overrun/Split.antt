-- ===== src/Net/Overrun/Split.antt =====
-- fm160d/src/net.c: how many fields `split_csv` counts, and where the loop over them ends.
use openwrt_fm.Net.Address.{addr_from_field}
use openwrt_fm.Net.Answers.{scan_found, scan_none, scan_outside, addr_scan}
use openwrt_fm.Net.Fields.{csv_field, is_over, split_loop}
use openwrt_fm.Net.{net_addr_max}
use openwrt_fm.Base.{
  ℕ, zero, suc, ◌+◌, ◌≤◌, ◌<◌, true, false, ◌≡◌, ◌⊎◌, refl, sym, ap, ◌∙◌, inl, inr, List, [], ◌∷◌,
  Option, none, some, arith, ltb, if◌then◌else◌, Bytes, length, Bool-cases, Option-cases,
}

-- How many fields are kept of those that are seen, with `n` kept before.
abbrev pub Counted : ℕ → ℕ → ℕ → ℕ → Type 0
Counted max n kept seen = ((n + seen ≤ max) × (kept ≡ seen)) ⊎ ((max < n + seen) × (n + kept ≡ max))

pub split_loop-out : (max n : ℕ) (line : Bytes) → split_loop zero max n line ≡ none
unfolding split_loop
split_loop-out max n line = refl

pub split_loop-ends :
    (fuel max n : ℕ) (line : Bytes)
    → is_over line ≡ true
    → split_loop (suc fuel) max n line ≡ some ([], 0)
unfolding split_loop
split_loop-ends fuel max n line over = rw over refl

-- The result with a field more.
abbrev pub with_field : ℕ → ℕ → Bytes → Option (List Bytes × ℕ) → Option (List Bytes × ℕ)
with_field max n field none = none
with_field max n field (some (fields, seen)) =
    some (if ltb n max then field ∷ fields else fields, seen + 1)

pub split_loop-bad :
    (fuel max n : ℕ) (line : Bytes)
    → is_over line ≡ false
    → csv_field net_addr_max line ≡ none
    → split_loop (suc fuel) max n line ≡ none
unfolding split_loop
split_loop-bad fuel max n line more bad = rw (more, bad) refl

pub split_loop-step :
    (fuel max n : ℕ) (line field rest : Bytes)
    → is_over line ≡ false
    → csv_field net_addr_max line ≡ some (field, rest)
    → split_loop (suc fuel) max n line
      ≡ with_field max n field (split_loop fuel max (if ltb n max then n + 1 else n) rest)
unfolding split_loop
split_loop-step fuel max n line field rest more read =
    elim (Option-cases (split_loop fuel max (if ltb n max then n + 1 else n) rest)) [
      | inl bad ↦ rw (more, read) (rw bad refl)
      | inr (result, good) ↦ rw (more, read) (rw good refl)
    ]

pub one_more :
    (max n : ℕ) (field : Bytes) (fields' fields : List Bytes) (seen' seen : ℕ)
    → n ≤ max
    → Counted max (if ltb n max then n + 1 else n) (length fields') seen'
    → (if ltb n max then field ∷ fields' else fields') ≡ fields
    → seen' + 1 ≡ seen
    → Counted max n (length fields) seen
one_more max n field fields' fields seen' seen le counted kept total =
    elim (Bool-cases (ltb n max)) [
      | inl room ↦
          let size = ap (λ (x : List Bytes). length x) (rw room at kept) in
          let inner : Counted max (n + 1) (length fields') seen' = rw room at counted in
          ground (arith, size)
      | inr full ↦
          let size = ap (λ (x : List Bytes). length x) (rw full at kept) in
          let inner : Counted max n (length fields') seen' = rw full at counted in
          ground (arith, size)
    ]

pub split_loop-Counted :
    (fuel max n : ℕ) (line : Bytes) (fields : List Bytes) (seen : ℕ)
    → n ≤ max
    → split_loop fuel max n line ≡ some (fields, seen)
    → Counted max n (length fields) seen
split_loop-Counted zero max n line fields seen le h =
    absurd (let ends = split_loop-out max n line in cc)
split_loop-Counted (suc fuel) max n line fields seen le h = elim (Bool-cases (is_over line)) [
  | inl over ↦
      let ends = split_loop-ends fuel max n line over in
      let none_kept : fields ≡ [] = cc in
      let none_seen : seen ≡ 0 = cc in
      inl (omega (arith, none_seen), ap (λ (x : List Bytes). length x) none_kept ∙ sym none_seen)
  | inr more ↦ elim (Option-cases (csv_field net_addr_max line)) [
    | inl bad ↦ absurd (let stops = split_loop-bad fuel max n line more bad in cc)
    | inr ((field, rest), read) ↦
        let n' = if ltb n max then n + 1 else n in
        let step = split_loop-step fuel max n line field rest more read in
        elim (Option-cases (split_loop fuel max n' rest)) [
          | inl bad ↦ absurd (let lost = ap (with_field max n field) bad in cc)
          | inr ((fields', seen'), good) ↦
              let small : n' ≤ max = ground arith in
              let counted = split_loop-Counted fuel max n' rest fields' seen' small good in
              let whole = ap (with_field max n field) good in
              let kept : (if ltb n max then field ∷ fields' else fields') ≡ fields = cc in
              let total : seen' + 1 ≡ seen = cc in
              one_more max n field fields' fields seen' seen le counted kept total
        ]
  ]
]

pub addr_scan-without :
    (count : ℕ) (field : Bytes) (fields : List Bytes)
    → addr_from_field field ≡ none
    → addr_scan (suc count) (field ∷ fields) ≡ addr_scan count fields
unfolding addr_scan
addr_scan-without count field fields h = rw (h, addr_scan) refl

pub addr_scan-found :
    (count : ℕ) (field addr : Bytes) (fields : List Bytes)
    → addr_from_field field ≡ some addr
    → addr_scan (suc count) (field ∷ fields) ≡ scan_found addr
unfolding addr_scan
addr_scan-found count field addr fields h = rw (h, addr_scan) refl

pub addr_scan-zero : (fields : List Bytes) → addr_scan zero fields ≡ scan_none
unfolding addr_scan
addr_scan-zero fields = refl

pub addr_scan-empty : (count : ℕ) → addr_scan (suc count) [] ≡ scan_outside
unfolding addr_scan
addr_scan-empty count = refl
