-- ===== src/Text/Scan.antt =====
-- The walk over the lines of a text, and where a text is cut.
use openwrt_fm.Text.{span_to, next_line, walk_lines, first_line, decimal_loop, decimal}
use openwrt_fm.Base.{
  ℕ, zero, suc, ◌+◌, ◌/◌, ◌%◌, ◌≤◌, ◌<◌, Bool, true, false, ◌≡◌, ◌↔◌, refl, sym, ap, ◌∙◌, [], ◌∷◌,
  Option, none, some, inl, inr, arith, ltb, ◌==◌, length, Bool-cases, Option-cases, Bytes,
}

-- The first line where `at` finds something, and what it finds.
pub data FirstLine {ℓ} {A : Type ℓ} (at : Bytes → Option A) : Bytes → A → Type ℓ where
  here : {c : ℕ} {p : Bytes} {found : A} → at (c ∷ p) ≡ some found → FirstLine at (c ∷ p) found
  later :
      {c : ℕ} {p q : Bytes} {found : A}
      → at (c ∷ p) ≡ none
      → next_line (c ∷ p) ≡ some q
      → FirstLine at q found
      → FirstLine at (c ∷ p) found

-- One step of `next_line`.
pub next_line-lf : (c : ℕ) (p : Bytes) → c == 10 ≡ true → next_line (c ∷ p) ≡ some p
unfolding next_line
next_line-lf c p lf = rw lf refl

pub next_line-other : (c : ℕ) (p : Bytes) → c == 10 ≡ false → next_line (c ∷ p) ≡ next_line p
unfolding next_line
next_line-other c p other = rw other refl

pub next_line-empty : next_line [] ≡ none
unfolding next_line
next_line-empty = refl

pub length-next_line : (p q : Bytes) → next_line p ≡ some q → length q < length p
length-next_line [] q h = absurd (let none_left = next_line-empty in cc)
length-next_line (c ∷ p) q h = elim (Bool-cases (c == 10)) [
  | inl lf ↦
      let step = next_line-lf c p lf in
      let same : p ≡ q = cc in omega (arith, ap (λ (x : Bytes). length x) same)
  | inr other ↦ omega (arith, length-next_line p q (sym (next_line-other c p other) ∙ h))
]

-- A step of the walk.
pub walk_lines-here {ℓ} :
    {A : Type ℓ} (at : Bytes → Option A) (fuel c : ℕ) (p : Bytes) (found : A)
    → at (c ∷ p) ≡ some found
    → walk_lines at (suc fuel) (c ∷ p) ≡ some found
unfolding walk_lines
walk_lines-here at fuel c p found h = rw (walk_lines, h) refl

pub walk_lines-later {ℓ} :
    {A : Type ℓ} (at : Bytes → Option A) (fuel c : ℕ) (p q : Bytes)
    → at (c ∷ p) ≡ none
    → next_line (c ∷ p) ≡ some q
    → walk_lines at (suc fuel) (c ∷ p) ≡ walk_lines at fuel q
unfolding walk_lines
walk_lines-later at fuel c p q h n = rw (walk_lines, h, n) refl

pub walk_lines-over {ℓ} :
    {A : Type ℓ} (at : Bytes → Option A) (fuel c : ℕ) (p : Bytes)
    → at (c ∷ p) ≡ none
    → next_line (c ∷ p) ≡ none
    → walk_lines at (suc fuel) (c ∷ p) ≡ none
unfolding walk_lines
walk_lines-over at fuel c p h n = rw (walk_lines, h, n) refl

walk_lines-out {ℓ} : {A : Type ℓ} (at : Bytes → Option A) (p : Bytes) → walk_lines at zero p ≡ none
unfolding walk_lines
walk_lines-out at p = refl

pub walk_lines-empty {ℓ} :
    {A : Type ℓ} (at : Bytes → Option A) (fuel : ℕ) → walk_lines at fuel [] ≡ none
unfolding walk_lines
walk_lines-empty at zero = refl
walk_lines-empty at (suc fuel) = refl

-- With as much fuel as the text has bytes the walk finds what there is on the first line that has
-- something.
walk_lines_finds {ℓ} :
    {A : Type ℓ} {at : Bytes → Option A} {p : Bytes} {found : A}
    → (fuel : ℕ) → length p ≤ fuel
    → FirstLine at p found
    → walk_lines at fuel p ≡ some found
walk_lines_finds zero le (here h) = absurd (omega arith)
walk_lines_finds {at = at} (suc fuel) le (here {c = c} {p = p} {found = found} h) =
    walk_lines-here at fuel c p found h
walk_lines_finds zero le (later h n r) = absurd (omega arith)
walk_lines_finds {at = at} (suc fuel) le (later {c = c} {p = p} {q = q} h n r) =
    walk_lines-later at fuel c p q h n
    ∙ walk_lines_finds fuel (omega (arith, length-next_line (c ∷ p) q n)) r

walk_lines_sound {ℓ} :
    {A : Type ℓ} (at : Bytes → Option A) (fuel : ℕ) (p : Bytes) (found : A)
    → walk_lines at fuel p ≡ some found
    → FirstLine at p found
walk_lines_sound at zero p found h = absurd (let ends = walk_lines-out at p in cc)
walk_lines_sound at (suc fuel) [] found h = absurd (let ends = walk_lines-empty at (suc fuel) in cc)
walk_lines_sound at (suc fuel) (c ∷ p) found h = elim (Option-cases (at (c ∷ p))) [
  | inr (f, at_line) ↦
      let step = walk_lines-here at fuel c p f at_line in
      let same : f ≡ found = cc in here (at_line ∙ ap some same)
  | inl not_here ↦ elim (Option-cases (next_line (c ∷ p))) [
    | inl last ↦ let step = walk_lines-over at fuel c p not_here last in absurd (cc)
    | inr (q, more) ↦
        later not_here more (
          walk_lines_sound at fuel q found (sym (walk_lines-later at fuel c p q not_here more) ∙ h))
  ]
]

-- The walk over a whole text finds exactly what is on the first line that has something: its fuel is
-- enough for every text.
pub first_line_iff {ℓ} :
    {A : Type ℓ} (at : Bytes → Option A) (p : Bytes) (found : A)
    → (first_line at p ≡ some found) ↔ FirstLine at p found
first_line_iff at p found =
    (walk_lines_sound at (length p) p found, λ r. walk_lines_finds (length p) (omega arith) r)

pub span_to-pass :
    (stops : ℕ → Bool) (c : ℕ) (tail inside rest : Bytes)
    → stops c ≡ false
    → span_to stops tail ≡ (inside, rest)
    → span_to stops (c ∷ tail) ≡ (c ∷ inside, rest)
unfolding span_to
span_to-pass stops c tail inside rest pass h = rw (pass, h) refl

pub span_to-stop :
    (stops : ℕ → Bool) (c : ℕ) (tail : Bytes)
    → stops c ≡ true
    → span_to stops (c ∷ tail) ≡ ([], c ∷ tail)
unfolding span_to
span_to-stop stops c tail stop = rw stop refl

-- Where a text is cut, behind a number.
span_to-decimal_loop :
    (stops : ℕ → Bool) (fuel n : ℕ) (tail inside rest : Bytes)
    → ((d : ℕ) → d < 10 → stops (b'0' + d) ≡ false)
    → n < fuel
    → span_to stops tail ≡ (inside, rest)
    → span_to stops (decimal_loop fuel n tail) ≡ (decimal_loop fuel n inside, rest)
unfolding decimal_loop
span_to-decimal_loop stops zero n tail inside rest digits le h = absurd (omega arith)
span_to-decimal_loop stops (suc fuel) n tail inside rest digits le h =
    elim (Bool-cases (ltb n 10)) [
      | inl small ↦
          let low : n < 10 = ground arith in
          rw small (span_to-pass stops (b'0' + n) tail inside rest (digits n low) h)
      | inr large ↦
          let less : (n / 10 < fuel) = ground arith in
          rw large (
            span_to-decimal_loop stops fuel (n / 10) ((b'0' + n % 10) ∷ tail)
              ((b'0' + n % 10) ∷ inside) rest digits less
              (span_to-pass stops (b'0' + n % 10) tail inside rest (digits (n % 10) (omega arith))
                h))
    ]

pub span_to-decimal :
    (stops : ℕ → Bool) (n : ℕ) (tail inside rest : Bytes)
    → ((d : ℕ) → d < 10 → stops (b'0' + d) ≡ false)
    → span_to stops tail ≡ (inside, rest)
    → span_to stops (decimal n tail) ≡ (decimal n inside, rest)
span_to-decimal stops n tail inside rest digits h =
    span_to-decimal_loop stops (suc n) n tail inside rest digits (omega arith) h
