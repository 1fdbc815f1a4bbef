-- ===== src/Sms/Utf8/Step.antt =====
-- fm160d/src/pdu.c: the characters of a text, one for each `text_step`.
use mathlib.Core.Path.{subst}
use openwrt_fm.Base.{
  ℕ, zero, suc, ◌<◌, ◌≡◌, ◌≢◌, refl, ap, ◌⊎◌, inl, inr, List, [], ◌∷◌, ◌++◌, none, some, arith,
  length, Bytes, drop, All, length-append,
}
use openwrt_fm.Sms.Hex.Laws.{IsByte}
use openwrt_fm.Sms.Utf8.Laws.{IsScalar, utf8_next-utf8_bytes}
use openwrt_fm.Sms.Utf8.Strict.{utf8_next_strict}
use openwrt_fm.Sms.Utf8.{
  Next, char, malformed, finished, utf8_next, utf8_bytes, text_step, text_skip,
}

-- A byte of a C string: not the NUL.
abbrev pub IsChar : ℕ → Type 0
IsChar b = (0 < b) × (b < 256)

pub IsChar-IsByte : (s : Bytes) → All IsChar s → All IsByte s
IsChar-IsByte [] h = tt
IsChar-IsByte (c ∷ s) h = (h.0.1, IsChar-IsByte s h.1)

-- What one step did: it read at least one byte, and its character is a scalar value.
pub record Advances (s : Bytes) (cp : ℕ) (rest : Bytes) : Type 0 where
  pub read : Bytes
  pub splits : s ≡ read ++ rest
  pub moves : 0 < length read
  pub scalar : IsScalar cp
  pub chars : All IsChar rest
  pub ne_zero : cp ≢ 0

utf8_bytes-pos : (cp : ℕ) → 0 < length (utf8_bytes cp)
unfolding utf8_bytes
utf8_bytes-pos cp = ground arith

All-drop_front {ℓ} : {A : Type 0} (P : A → Type ℓ) (xs ys : List A) → All P (xs ++ ys) → All P ys
All-drop_front P [] ys h = h
All-drop_front P (x ∷ xs) ys h = All-drop_front P xs ys h.1

zero_first : (c : ℕ) (s rest : Bytes) → c ∷ s ≡ utf8_bytes 0 ++ rest → c ≡ 0
unfolding utf8_bytes
zero_first c s rest e = cc

-- Replacement: one byte is passed over.
skip-Advances : (c : ℕ) (s : Bytes) → All IsChar (c ∷ s) → Advances (c ∷ s) 0xfffd s
skip-Advances c s h = record {
  read = c ∷ [];
  splits = refl;
  moves = omega arith;
  scalar = inr (omega arith);
  chars = h.1;
  ne_zero = λ e. absurd (omega arith);
}

char-Advances :
    (c : ℕ) (s : Bytes) (cp : ℕ) (rest : Bytes)
    → All IsChar (c ∷ s)
    → utf8_next (c ∷ s) ≡ char cp rest
    → Advances (c ∷ s) cp rest
char-Advances c s cp rest h e =
    let (scalar, splits) = utf8_next_strict (c ∷ s) cp rest (IsChar-IsByte (c ∷ s) h) e in
    record {
      read = utf8_bytes cp;
      splits = splits;
      moves = utf8_bytes-pos cp;
      scalar = scalar;
      chars = All-drop_front IsChar (utf8_bytes cp) rest (subst (All IsChar) splits h);
      ne_zero = λ z. absurd (omega (arith, h.0, zero_first c s rest (rw z at splits)));
    }

Next-cases :
    (n : Next)
    → ((cp : ℕ) × (rest : Bytes) × (n ≡ char cp rest)) ⊎ ((n ≡ finished) ⊎ (n ≡ malformed))
Next-cases finished = inr (inl refl)
Next-cases malformed = inr (inr refl)
Next-cases (char cp rest) = inl (cp, rest, refl)

-- On any C string that is not empty a step succeeds, reads at least one byte and leaves the rest.
pub text_step-Advances :
    (c : ℕ) (s : Bytes)
    → All IsChar (c ∷ s)
    → (cp : ℕ) × (rest : Bytes) × (text_step (c ∷ s) ≡ some (cp, rest)) × Advances (c ∷ s) cp rest
unfolding text_step
text_step-Advances c s h = elim (Next-cases (utf8_next (c ∷ s))) [
  | inl (cp, rest, e) ↦ (cp, rest, rw (e, text_step) refl, char-Advances c s cp rest h e)
  | inr (inl e) ↦ (0xfffd, s, rw (e, text_step) refl, skip-Advances c s h)
  | inr (inr e) ↦ (0xfffd, s, rw (e, text_step) refl, skip-Advances c s h)
]

pub text_step-nil : text_step [] ≡ none
unfolding text_step
text_step-nil = refl

-- `cps` are the characters of the text `s`, one for each step.
pub data Chars : Bytes → List ℕ → Type 0 where
  nil : Chars [] []
  cons :
      {s rest : Bytes} {cps : List ℕ} (cp : ℕ)
      → text_step s ≡ some (cp, rest)
      → length rest < length s
      → cp ≢ 0
      → IsScalar cp
      → Chars rest cps
      → Chars s (cp ∷ cps)

exists_Chars_below :
    (n : ℕ) (s : Bytes) → length s < n → All IsChar s → (cps : List ℕ) × Chars s cps
exists_Chars_below zero s lt h = absurd (omega arith)
exists_Chars_below (suc n) [] lt h = ([], nil)
exists_Chars_below (suc n) (c ∷ s) lt h =
    let (cp, rest, step, a) = text_step-Advances c s h in
    let shorter : length rest < length (c ∷ s) =
      omega (arith, ap length a.splits, length-append a.read rest, a.moves) in
    let (cps, later) = exists_Chars_below n rest (omega (arith, shorter)) a.chars in
    (cp ∷ cps, cons cp step shorter a.ne_zero a.scalar later)

-- Every C string has a list of characters.
pub exists_Chars : (s : Bytes) → All IsChar s → (cps : List ℕ) × Chars s cps
exists_Chars s h = exists_Chars_below (suc (length s)) s (omega arith) h

-- A well-formed text is the encoding of its characters.
abbrev pub text_of : List ℕ → Bytes
text_of [] = []
text_of (cp ∷ cps) = utf8_bytes cp ++ text_of cps

step-char :
    (s : Bytes) (cp : ℕ) (rest : Bytes) → utf8_next s ≡ char cp rest → text_step s ≡ some (cp, rest)
unfolding text_step
step-char [] cp rest e = absurd (unfold utf8_next in cc)
step-char (c ∷ s) cp rest e = rw (e, text_step) refl

-- The characters of a well-formed text are those it encodes: none is replaced, split or joined.
pub Chars-text_of :
    (cps : List ℕ) → All (λ cp. IsScalar cp × (cp ≢ 0)) cps → Chars (text_of cps) cps
Chars-text_of [] h = nil
Chars-text_of (cp ∷ cps) h =
    let next = utf8_next-utf8_bytes cp (text_of cps) h.0.0 in
    let shorter : length (text_of cps) < length (utf8_bytes cp ++ text_of cps) =
      omega (arith, length-append (utf8_bytes cp) (text_of cps), utf8_bytes-pos cp) in
    cons cp (step-char _ cp (text_of cps) next) shorter h.0.1 h.0.0 (Chars-text_of cps h.1)

-- Skipping characters is dropping them from the list; the cursor stops at the end of the text.
pub text_skip-Chars :
    (count : ℕ) {s : Bytes} {cps : List ℕ}
    → Chars s cps
    → Chars (text_skip count s) (drop count cps)
unfolding text_skip
text_skip-Chars zero c = c
text_skip-Chars (suc count) nil = rw (text_step-nil, text_skip) nil
text_skip-Chars (suc count) (cons cp step lt ne sc later) =
    rw (step, text_skip) (text_skip-Chars count later)

-- A C string has no character 0.
pub Chars-ne_zero : {s : Bytes} {cps : List ℕ} → Chars s cps → All (λ cp. cp ≢ 0) cps
Chars-ne_zero nil = tt
Chars-ne_zero (cons cp step lt ne scalar later) = (ne, Chars-ne_zero later)
