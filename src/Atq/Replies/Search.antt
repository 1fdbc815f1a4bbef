-- ===== src/Atq/Replies/Search.antt =====
-- fm160d/src/atq.c: where `fm160_resp_find` finds a value.
use openwrt_fm.Text.Scan.{
  next_line-lf, next_line-other, next_line-empty, length-next_line, walk_lines-here,
  walk_lines-later, walk_lines-over, walk_lines-empty,
}
use openwrt_fm.Text.{behind, next_line, walk_lines, first_line}
use openwrt_fm.Atq.Replies.{token_over, skip_value_seps, find_value, fm160_resp_find, cut_line}
use openwrt_fm.Base.{
  ℕ, zero, suc, Bool, ◌≤◌, if◌then◌else◌, true, false, ◌≡◌, refl, sym, ap, ◌∙◌, [], ◌∷◌, Option,
  none, some, inl, inr, arith, ◌==◌, length, Bool-cases, Option-cases, Bytes,
}

-- The text from the value on, where the prefix stands here as a token of its own.
abbrev pub value_at : Bytes → Bytes → Option Bytes
value_at prefix p = elim (behind prefix p) [
  | none ↦ none
  | some v ↦ if token_over v then some (skip_value_seps v) else none
]

-- The search from the next line on.
abbrev on_next_line : Bytes → Option Bytes → Option Bytes
on_next_line prefix none = none
on_next_line prefix (some q) = find_value prefix true q

-- A round inside a line, and one at its start.
find_value_inside :
    (prefix : Bytes) (c : ℕ) (p : Bytes)
    → find_value prefix false (c ∷ p) ≡ find_value prefix (c == 10) p
unfolding find_value
find_value_inside prefix c p = elim (Option-cases (behind prefix (c ∷ p))) [
  | inl missing ↦ rw (missing, find_value) refl
  | inr (v, found) ↦ rw (found, find_value) refl
]

find_value_later :
    (prefix : Bytes) (c : ℕ) (p : Bytes)
    → value_at prefix (c ∷ p) ≡ none
    → find_value prefix true (c ∷ p) ≡ find_value prefix (c == 10) p
unfolding find_value
find_value_later prefix c p h = elim (Option-cases (behind prefix (c ∷ p))) [
  | inl missing ↦ rw (missing, find_value) refl
  | inr (v, found) ↦ elim (Bool-cases (token_over v)) [
    | inr goes_on ↦ rw (found, find_value) (rw goes_on refl)
    | inl over ↦
        let there : value_at prefix (c ∷ p) ≡ some (skip_value_seps v) =
          rw (found, value_at) (rw over refl) in
        absurd (cc)
  ]
]

find_value_here :
    (prefix : Bytes) (c : ℕ) (p v : Bytes)
    → value_at prefix (c ∷ p) ≡ some v
    → find_value prefix true (c ∷ p) ≡ some v
unfolding find_value
find_value_here prefix c p v h = elim (Option-cases (behind prefix (c ∷ p))) [
  | inl missing ↦
      let none_there : value_at prefix (c ∷ p) ≡ none = rw (missing, value_at) refl in absurd (cc)
  | inr (r, found) ↦ elim (Bool-cases (token_over r)) [
    | inl over ↦
        let there : value_at prefix (c ∷ p) ≡ some (skip_value_seps r) =
          rw (found, value_at) (rw over refl) in
        rw (found, find_value) (rw over (sym there ∙ h))
    | inr goes_on ↦
        let none_there : value_at prefix (c ∷ p) ≡ none = rw (found, value_at) (rw goes_on refl) in
        absurd (cc)
  ]
]

find_value-empty : (t : ℕ) (ts : Bytes) (fresh : Bool) → find_value (t ∷ ts) fresh [] ≡ none
unfolding find_value behind
find_value-empty t ts fresh = refl

-- Behind a character of a line the search goes on with the next line.
find_value-next_line :
    (t : ℕ) (ts : Bytes) (c : ℕ) (p : Bytes)
    → find_value (t ∷ ts) (c == 10) p ≡ on_next_line (t ∷ ts) (next_line (c ∷ p))
find_value-next_line t ts c [] = elim (Bool-cases (c == 10)) [
  | inl lf ↦ rw (lf, next_line-lf c [] lf) refl
  | inr other ↦
      rw (other, next_line-other c [] other, next_line-empty) (find_value-empty t ts false)
]
find_value-next_line t ts c (d ∷ p) = elim (Bool-cases (c == 10)) [
  | inl lf ↦ rw (lf, next_line-lf c (d ∷ p) lf) refl
  | inr other ↦
      rw (other, next_line-other c (d ∷ p) other)
        (find_value_inside (t ∷ ts) d p ∙ find_value-next_line t ts d p)
]

-- The walk over the lines agrees with the search from every line on.
find_value-walk_lines :
    (t : ℕ) (ts : Bytes) (n : ℕ) (p : Bytes)
    → length p ≤ n
    → find_value (t ∷ ts) true p ≡ walk_lines (value_at (t ∷ ts)) n p
find_value-walk_lines t ts n [] le =
    find_value-empty t ts true ∙ sym (walk_lines-empty (value_at (t ∷ ts)) n)
find_value-walk_lines t ts zero (c ∷ p) le = absurd (omega (arith, le))
find_value-walk_lines t ts (suc n) (c ∷ p) le = elim (Option-cases (value_at (t ∷ ts) (c ∷ p))) [
  | inr (v, found) ↦
      find_value_here (t ∷ ts) c p v found ∙ sym (walk_lines-here (value_at (t ∷ ts)) n c p v found)
  | inl missing ↦ elim (Option-cases (next_line (c ∷ p))) [
    | inl last ↦
        find_value_later (t ∷ ts) c p missing
        ∙ find_value-next_line t ts c p
        ∙ ap (on_next_line (t ∷ ts)) last
        ∙ sym (walk_lines-over (value_at (t ∷ ts)) n c p missing last)
    | inr (q, more) ↦
        find_value_later (t ∷ ts) c p missing
        ∙ find_value-next_line t ts c p
        ∙ ap (on_next_line (t ∷ ts)) more
        ∙ find_value-walk_lines t ts n q (omega (arith, length-next_line (c ∷ p) q more, le))
        ∙ sym (walk_lines-later (value_at (t ∷ ts)) n c p q missing more)
  ]
]

abbrev pub cut_value : ℕ → Option Bytes → Option Bytes
cut_value outlen none = none
cut_value outlen (some v) = some (cut_line outlen v)

-- In terms of the first line that has a value.
pub resp_find-first_line :
    (t : ℕ) (ts resp : Bytes) (outlen : ℕ)
    → fm160_resp_find (some resp) (t ∷ ts) outlen
      ≡ cut_value outlen (first_line (value_at (t ∷ ts)) resp)
unfolding fm160_resp_find
resp_find-first_line t ts resp outlen =
    let same = find_value-walk_lines t ts (length resp) resp (omega arith) in
    elim (Option-cases (find_value (t ∷ ts) true resp)) [
      | inl missing ↦ rw (missing, fm160_resp_find) (ap (cut_value outlen) (sym missing ∙ same))
      | inr (v, found) ↦ rw (found, fm160_resp_find) (ap (cut_value outlen) (sym found ∙ same))
    ]
