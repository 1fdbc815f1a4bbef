-- ===== src/Atq/Replies/FirstValue.antt =====
-- fm160d/src/atq.c: what `fm160_resp_find` finds, in terms of the lines of a response.
use openwrt_fm.Atq.Replies.Value.{IsEnd, Begins, HasValue, HasValue-value_at, value_at-HasValue}
use openwrt_fm.Atq.Replies.Search.{value_at, cut_value, resp_find-first_line}
use openwrt_fm.Atq.Replies.{cut_line, fm160_resp_find}
use openwrt_fm.Text.Scan.{
  span_to-stop, next_line-lf, next_line-other, next_line-empty, FirstLine, here, later,
  first_line_iff,
}
use openwrt_fm.Text.{is_eol, next_line, first_line, span_to}
use mathlib.Core.Path.{subst}
use mathlib.Core.List.{head-eq_of_cons-eq}
use mathlib.Core.Option.{some-injective}
use openwrt_fm.Base.{
  ℕ, zero, suc, ◌-◌, ◌≤◌, true, false, ◌≡◌, ◌⊎◌, ◌↔◌, ◌≢◌, refl, sym, ap, ◌∙◌, inl, inr, [], ◌∷◌,
  ◌++◌, Option, none, some, arith, ◌==◌, length, length-append, take, drop, All, Bool-cases,
  Option-cases, Bytes,
}

-- `q` is the text behind the first line of `p`.
pub record IsNextLine (p q : Bytes) : Type 0 where
  pub line : Bytes
  pub whole : p ≡ line ++ (10 ∷ q)
  pub inside : All (λ c. c ≢ 10) line

-- The value on the first line that has one.
pub data FirstValue (prefix : Bytes) : Bytes → Bytes → Type 0 where
  found : {p v : Bytes} → HasValue prefix p v → FirstValue prefix p v
  further :
      {p q v : Bytes}
      → ((u : Bytes) → ¬ HasValue prefix p u)
      → IsNextLine p q
      → FirstValue prefix q v
      → FirstValue prefix p v

-- As much of the line as there is room for.
pub record IsCut (room : ℕ) (v x : Bytes) : Type 0 where
  pub rest : Bytes
  pub whole : v ≡ x ++ rest
  pub inside : All (λ c. ¬ IsEnd c) x
  pub within : length x ≤ room
  pub longest : Begins IsEnd rest ⊎ (length x ≡ room)

next_line-IsNextLine : (p q : Bytes) → next_line p ≡ some q → IsNextLine p q
next_line-IsNextLine [] q h = absurd (let e = next_line-empty in cc)
next_line-IsNextLine (c ∷ p) q h = elim (Bool-cases (c == 10)) [
  | inl lf ↦
      let e : c ≡ 10 = ground arith in
      let same = some-injective p q (sym (next_line-lf c p lf) ∙ h) in
      record {
        line = [];
        whole = ap (λ (x : ℕ). x ∷ p) e ∙ ap (λ (x : Bytes). 10 ∷ x) same;
        inside = tt;
      }
  | inr other ↦
      let n = next_line-IsNextLine p q (sym (next_line-other c p other) ∙ h) in
      let ne : c ≢ 10 = ground arith in
      record {
        line = c ∷ n.line;
        whole = ap (λ (x : Bytes). c ∷ x) n.whole;
        inside = (ne, n.inside);
      }
]

next_line-append : (line q : Bytes) → All (λ c. c ≢ 10) line → next_line (line ++ (10 ∷ q)) ≡ some q
next_line-append [] q h = next_line-lf 10 q refl
next_line-append (c ∷ line) q h =
    let other : c == 10 ≡ false = ground (arith, h.0) in
    next_line-other c (line ++ (10 ∷ q)) other ∙ next_line-append line q h.1

-- No value is what the code's test calls none.
value_at-none : (prefix p : Bytes) → value_at prefix p ≡ none → (u : Bytes) → ¬ HasValue prefix p u
value_at-none prefix p h u has = absurd (let e = HasValue-value_at prefix p u has in cc)

none-value_at :
    (prefix p : Bytes) → ((u : Bytes) → ¬ HasValue prefix p u) → value_at prefix p ≡ none
none-value_at prefix p h = elim (Option-cases (value_at prefix p)) [
  | inl missing ↦ missing
  | inr (v, there) ↦ absurd (h v (value_at-HasValue prefix p v there))
]

FirstLine-FirstValue :
    {prefix p v : Bytes} → FirstLine (value_at prefix) p v → FirstValue prefix p v
FirstLine-FirstValue {prefix = prefix} (here {c = c} {p = p} {found = v} h) =
    found (value_at-HasValue prefix (c ∷ p) v h)
FirstLine-FirstValue {prefix = prefix} (later {c = c} {p = p} {q = q} h next r) =
    further (value_at-none prefix (c ∷ p) h) (next_line-IsNextLine (c ∷ p) q next)
      (FirstLine-FirstValue r)

FirstValue-FirstLine :
    {t : ℕ} {ts p v : Bytes} → FirstValue (t ∷ ts) p v → FirstLine (value_at (t ∷ ts)) p v
FirstValue-FirstLine {t = t} {ts = ts} (found {p = []} {v = v} h) =
    absurd (omega (arith, ap length h.whole))
FirstValue-FirstLine {t = t} {ts = ts} (found {p = c ∷ p} {v = v} h) =
    here (HasValue-value_at (t ∷ ts) (c ∷ p) v h)
FirstValue-FirstLine (further {p = []} {q = q} missing next r) =
    absurd (omega (arith, ap length next.whole, length-append next.line (10 ∷ q)))
FirstValue-FirstLine {t = t} {ts = ts} (further {p = c ∷ p} {q = q} missing next r) =
    later (none-value_at (t ∷ ts) (c ∷ p) missing)
      (ap next_line next.whole ∙ next_line-append next.line q next.inside) (FirstValue-FirstLine r)

line-pass :
    (c : ℕ) (s : Bytes) → is_eol c ≡ false → (span_to is_eol (c ∷ s)).0 ≡ c ∷ (span_to is_eol s).0
unfolding span_to
line-pass c s h = rw h refl

line-nil : (span_to is_eol []).0 ≡ []
unfolding span_to
line-nil = refl

line-IsCut : (n : ℕ) (v : Bytes) → IsCut n v (take n (span_to is_eol v).0)
line-IsCut zero v = record {
  rest = v;
  whole = refl;
  inside = tt;
  within = omega arith;
  longest = inr refl;
}
line-IsCut (suc n) [] =
    rw line-nil
      (record { rest = []; whole = refl; inside = tt; within = omega arith; longest = inl tt })
line-IsCut (suc n) (c ∷ v) = elim (Bool-cases (is_eol c)) [
  | inl end ↦
      let ends : IsEnd c = ground arith in
      rw (span_to-stop is_eol c v end) (record {
        rest = c ∷ v;
        whole = refl;
        inside = tt;
        within = omega arith;
        longest = inl ends;
      })
  | inr char ↦
      let k = line-IsCut n v in
      let goes_on : ¬ IsEnd c = ground arith in
      rw (line-pass c v char) (record {
        rest = k.rest;
        whole = ap (λ (t : Bytes). c ∷ t) k.whole;
        inside = (goes_on, k.inside);
        within = omega (arith, k.within);
        longest = elim k.longest [ inl e ↦ inl e | inr e ↦ inr (omega (arith, e)) ];
      })
]

IsCut-line : (n : ℕ) (v x : Bytes) → IsCut n v x → take n (span_to is_eol v).0 ≡ x
IsCut-line zero v [] k = refl
IsCut-line zero v (d ∷ x) k = absurd (omega (arith, k.within))
IsCut-line (suc n) [] [] k = rw line-nil refl
IsCut-line (suc n) [] (d ∷ x) k = absurd (omega (arith, ap length k.whole))
IsCut-line (suc n) (c ∷ v) [] k = elim k.longest [
  | inr long ↦ absurd (omega (arith, long))
  | inl ends ↦
      let e : IsEnd c = subst (Begins IsEnd) (sym k.whole) ends in
      let stop : is_eol c ≡ true = ground arith in rw (span_to-stop is_eol c v stop) refl
]
IsCut-line (suc n) (c ∷ v) (d ∷ x) k =
    let same : c ≡ d = head-eq_of_cons-eq k.whole in
    let char : is_eol c ≡ false = ground (arith, k.inside.0) in
    rw (line-pass c v char) (
      ap (λ (y : ℕ). y ∷ take n (span_to is_eol v).0) same
      ∙ ap (λ (t : Bytes). d ∷ t)
          (IsCut-line n v x (record {
            rest = k.rest;
            whole = ap (drop 1) k.whole;
            inside = k.inside.1;
            within = omega (arith, k.within);
            longest = elim k.longest [ inl e ↦ inl e | inr e ↦ inr (omega (arith, e)) ];
          })))

cut_value-some :
    (outlen : ℕ) (o : Option Bytes) (x : Bytes)
    → cut_value outlen o ≡ some x
    → (v : Bytes) × ((o ≡ some v) × (cut_line outlen v ≡ x))
cut_value-some outlen none x h = absurd (cc)
cut_value-some outlen (some v) x h = (v, (refl, some-injective (cut_line outlen v) x h))

-- The search for a prefix that is not empty succeeds with `x` exactly where a line of the response has
-- a value for it: the line opens with the prefix, behind which the text ends or a colon, a space, a
-- tab or the end of the line stands, and the value follows these colons, spaces and tabs. `x` is the
-- value on the first such line, up to CR, LF or the end, cut to one byte less than the buffer.
pub resp_find_iff :
    (t : ℕ) (ts resp x : Bytes) (outlen : ℕ)
    → (fm160_resp_find (some resp) (t ∷ ts) outlen ≡ some x)
      ↔ ((v : Bytes) × (FirstValue (t ∷ ts) resp v × IsCut (outlen - 1) v x))
resp_find_iff t ts resp x outlen =
    let whole = resp_find-first_line t ts resp outlen in
    (
      λ h.
          let (v, (at, cut)) =
            cut_value-some outlen (first_line (value_at (t ∷ ts)) resp) x (sym whole ∙ h) in
          (
            v,
            (
              FirstLine-FirstValue ((first_line_iff (value_at (t ∷ ts)) resp v).0 at),
              subst (IsCut (outlen - 1) v) cut (line-IsCut (outlen - 1) v),
            ),
          ),
      λ (v, (first, k)).
          whole
          ∙ ap (cut_value outlen)
              ((first_line_iff (value_at (t ∷ ts)) resp v).1 (FirstValue-FirstLine first))
          ∙ ap some (IsCut-line (outlen - 1) v x k),
    )
