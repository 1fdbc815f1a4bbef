-- ===== src/Atq/Replies/Value.antt =====
-- fm160d/src/atq.c: the value that a line of a response has for a prefix.
use mathlib.Core.Path.{subst}
use openwrt_fm.Atq.Replies.Search.{value_at}
use openwrt_fm.Atq.Replies.{is_value_sep, token_over, skip_value_seps}
use openwrt_fm.Text.{behind}
use mathlib.Core.Option.{some-injective}
use openwrt_fm.Base.{
  ℕ, true, false, ◌≡◌, ◌⊎◌, ◌↔◌, refl, sym, ap, ◌∙◌, inl, inr, [], ◌∷◌, ◌++◌, none, some, arith,
  ◌==◌, All, Bool-cases, Option-cases, Bytes,
}

-- A colon, a space or a tab; CR or LF; and how a text begins, where it is not empty.
abbrev pub IsSep : ℕ → Type 0
IsSep c = (c ≡ 58) ⊎ ((c ≡ 32) ⊎ (c ≡ 9))

abbrev pub IsEnd : ℕ → Type 0
IsEnd c = (c ≡ 13) ⊎ (c ≡ 10)

abbrev pub Begins : (ℕ → Type 0) → Bytes → Type 0
Begins P [] = Unit
Begins P (c ∷ s) = P c

-- The text opens with the prefix as a token of its own, and `v` is what follows behind the separators.
pub record HasValue (prefix p v : Bytes) : Type 0 where
  pub seps : Bytes
  pub whole : p ≡ prefix ++ (seps ++ v)
  pub only : All IsSep seps
  pub over : Begins (λ c. IsSep c ⊎ IsEnd c) (seps ++ v)
  pub starts : Begins (λ c. ¬ IsSep c) v

behind-same :
    (t : ℕ) (ts : Bytes) (c : ℕ) (p : Bytes) → t == c ≡ true → behind (t ∷ ts) (c ∷ p) ≡ behind ts p
unfolding behind
behind-same t ts c p same = rw same refl

behind-other :
    (t : ℕ) (ts : Bytes) (c : ℕ) (p : Bytes) → t == c ≡ false → behind (t ∷ ts) (c ∷ p) ≡ none
unfolding behind
behind-other t ts c p other = rw other refl

behind-nil : (t : ℕ) (ts : Bytes) → behind (t ∷ ts) [] ≡ none
unfolding behind
behind-nil t ts = refl

behind-empty : (p : Bytes) → behind [] p ≡ some p
unfolding behind
behind-empty p = refl

behind-whole : (prefix p r : Bytes) → behind prefix p ≡ some r → p ≡ prefix ++ r
behind-whole [] p r h = some-injective p r (sym (behind-empty p) ∙ h)
behind-whole (t ∷ ts) [] r h = absurd (let e = behind-nil t ts in cc)
behind-whole (t ∷ ts) (c ∷ p) r h = elim (Bool-cases (t == c)) [
  | inl same ↦
      let e : c ≡ t = ground arith in
      ap (λ (x : ℕ). x ∷ p) e
      ∙ ap (λ (x : Bytes). t ∷ x) (behind-whole ts p r (sym (behind-same t ts c p same) ∙ h))
  | inr other ↦ absurd (let e = behind-other t ts c p other in cc)
]

behind-append : (prefix r : Bytes) → behind prefix (prefix ++ r) ≡ some r
unfolding behind
behind-append [] r = refl
behind-append (t ∷ ts) r = let same : t == t ≡ true = ground arith in rw same (behind-append ts r)

sep_iff : (c : ℕ) → (is_value_sep c ≡ true) ↔ IsSep c
sep_iff c = ground arith

token_over_iff : (s : Bytes) → (token_over s ≡ true) ↔ Begins (λ c. IsSep c ⊎ IsEnd c) s
token_over_iff [] = (λ h. tt, λ h. refl)
token_over_iff (c ∷ s) = ground arith

skip-sep : (c : ℕ) (s : Bytes) → is_value_sep c ≡ true → skip_value_seps (c ∷ s) ≡ skip_value_seps s
unfolding skip_value_seps
skip-sep c s sep = rw sep refl

skip-char : (c : ℕ) (s : Bytes) → is_value_sep c ≡ false → skip_value_seps (c ∷ s) ≡ c ∷ s
unfolding skip_value_seps
skip-char c s char = rw char refl

skip-nil : skip_value_seps [] ≡ []
unfolding skip_value_seps
skip-nil = refl

-- What is passed by, and what is left.
record Skipped (s left : Bytes) : Type 0 where
  seps : Bytes
  whole : s ≡ seps ++ left
  only : All IsSep seps
  starts : Begins (λ c. ¬ IsSep c) left

skip-Skipped : (s : Bytes) → Skipped s (skip_value_seps s)
skip-Skipped [] = rw skip-nil (record { seps = []; whole = refl; only = tt; starts = tt })
skip-Skipped (c ∷ s) = elim (Bool-cases (is_value_sep c)) [
  | inl sep ↦
      let k = skip-Skipped s in
      rw (skip-sep c s sep) (record {
        seps = c ∷ k.seps;
        whole = ap (λ (t : Bytes). c ∷ t) k.whole;
        only = ((sep_iff c).0 sep, k.only);
        starts = k.starts;
      })
  | inr char ↦
      let no_sep : ¬ IsSep c = ground arith in
      rw (skip-char c s char) (record { seps = []; whole = refl; only = tt; starts = no_sep })
]

skip_nothing : (v : Bytes) → Begins (λ c. ¬ IsSep c) v → skip_value_seps v ≡ v
skip_nothing [] h = skip-nil
skip_nothing (c ∷ v) h = let char : is_value_sep c ≡ false = ground (arith, h) in skip-char c v char

skip-append :
    (seps v : Bytes) → All IsSep seps → Begins (λ c. ¬ IsSep c) v → skip_value_seps (seps ++ v) ≡ v
skip-append [] v only h = skip_nothing v h
skip-append (c ∷ seps) v only h =
    skip-sep c (seps ++ v) ((sep_iff c).1 only.0) ∙ skip-append seps v only.1 h

value_at_token :
    (prefix p r : Bytes)
    → behind prefix p ≡ some r
    → token_over r ≡ true
    → value_at prefix p ≡ some (skip_value_seps r)
value_at_token prefix p r e over = rw (e, value_at) (rw over refl)

-- The code's test and the description agree.
pub HasValue-value_at : (prefix p v : Bytes) → HasValue prefix p v → value_at prefix p ≡ some v
HasValue-value_at prefix p v h =
    value_at_token prefix p (h.seps ++ v)
      (ap (behind prefix) h.whole ∙ behind-append prefix (h.seps ++ v))
      ((token_over_iff (h.seps ++ v)).1 h.over)
    ∙ ap some (skip-append h.seps v h.only h.starts)

pub value_at-HasValue : (prefix p v : Bytes) → value_at prefix p ≡ some v → HasValue prefix p v
value_at-HasValue prefix p v h = elim (Option-cases (behind prefix p)) [
  | inl missing ↦
      let none_there : value_at prefix p ≡ none = rw (missing, value_at) refl in absurd (cc)
  | inr (r, there) ↦ elim (Bool-cases (token_over r)) [
    | inr goes_on ↦
        let none_there : value_at prefix p ≡ none = rw (there, value_at) (rw goes_on refl) in
        absurd (cc)
    | inl over ↦
        let k = skip-Skipped r in
        let e : skip_value_seps r ≡ v =
          some-injective (skip_value_seps r) v (sym (value_at_token prefix p r there over) ∙ h) in
        let split : r ≡ k.seps ++ v = k.whole ∙ ap (λ (x : Bytes). k.seps ++ x) e in
        record {
          seps = k.seps;
          whole = behind-whole prefix p r there ∙ ap (λ (x : Bytes). prefix ++ x) split;
          only = k.only;
          over = subst (Begins (λ c. IsSep c ⊎ IsEnd c)) split ((token_over_iff r).0 over);
          starts = subst (Begins (λ c. ¬ IsSep c)) e k.starts;
        }
  ]
]
