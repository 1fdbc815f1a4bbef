-- ===== src/Sms/RoundTrip/Alphabet.antt =====
-- A text in the GSM alphabet: the septets of `sms_pdu_encode`, read back by `sms_pdu_decode`.
use mathlib.Core.List.{append_assoc, append-nil}
use openwrt_fm.Base.{
  ◌*◌, ◌≤◌, ℕ, zero, suc, ◌+◌, ◌<◌, Bool, true, false, ◌≡◌, ◌≢◌, refl, sym, ap, ◌∙◌, inl, inr, List,
  [], ◌∷◌, ◌++◌, none, some, arith, bit_and, ◌==◌, leb, if◌then◌else◌, length, length-append, take,
  All-append, ap₂, Bytes, Bool-cases, Option-cases, All,
}
use openwrt_fm.Base.Bits.{u8}
use openwrt_fm.Sms.Decode.UserData.{septets_text, text_max}
use openwrt_fm.Sms.Encode.{char_septets, or_question, text_septets}
use openwrt_fm.Sms.Gsm7.{gsm7_esc, sms_gsm7_from_ucs, sms_gsm7_to_ucs, is_ext}
use openwrt_fm.Sms.Gsm7.Laws.{from_ucs-Encodes}
use openwrt_fm.Sms.Segments.Scan.{has_septet, all_septets, total}
use openwrt_fm.Sms.Segments.Tiles.{cost_bounds}
use openwrt_fm.Sms.Segments.{gsm7, cost}
use openwrt_fm.Sms.Utf8.Step.{Chars, nil, cons, text_of, text_step-nil}
use openwrt_fm.Sms.Utf8.{utf8_bytes, utf8_put}

-- A septet that is not the escape adds its character to the text.
septets_put :
    (s : ℕ) (esc : Bool) (rest : List ℕ) (text : Bytes) (n cp : ℕ)
    → s ≢ gsm7_esc
    → sms_gsm7_to_ucs s esc ≡ cp
    → cp ≢ 0
    → length text + length (utf8_bytes cp) < text_max
    → septets_text (s ∷ rest) esc text n ≡ septets_text rest false (text ++ utf8_bytes cp) (n + 1)
unfolding septets_text utf8_put
septets_put s esc rest text n cp ne_esc decodes ne_zero room =
    let not_esc : (s == gsm7_esc) ≡ false = ground arith in
    let not_zero : (cp == 0) ≡ false = ground arith in
    let fits : leb text_max (length text + length (utf8_bytes cp)) ≡ false = ground arith in
    rw (decodes, not_esc, not_zero, fits) refl

septets_esc :
    (rest : List ℕ) (text : Bytes) (n : ℕ)
    → septets_text (gsm7_esc ∷ rest) false text n ≡ septets_text rest true text n
unfolding septets_text
septets_esc rest text n = refl

-- What the encoder packs for a character.
question : sms_gsm7_from_ucs 0x3f ≡ some 0x3f
unfolding sms_gsm7_from_ucs
question = refl

question-is_ext : is_ext 0x3f ≡ false
unfolding is_ext
question-is_ext = refl

char_septets-none : (cp : ℕ) → sms_gsm7_from_ucs cp ≡ none → char_septets cp ≡ 0x3f ∷ []
unfolding char_septets or_question
char_septets-none cp absent = rw absent (rw (question, or_question) (rw question-is_ext refl))

char_septets-some :
    (cp s : ℕ)
    → sms_gsm7_from_ucs cp ≡ some s
    → char_septets cp ≡ (if is_ext s then gsm7_esc ∷ bit_and s 0x7f ∷ [] else bit_and s 0x7f ∷ [])
unfolding char_septets or_question
char_septets-some cp s found =
    let e = from_ucs-Encodes cp s found in
    let byte : u8 (bit_and s 0x7f) ≡ bit_and s 0x7f = omega (arith, e.low_lt) in
    elim (Bool-cases (is_ext s)) [
      | inl is_true ↦ rw found (rw (is_true, byte) refl)
      | inr is_false ↦
          let plain : u8 s ≡ bit_and s 0x7f = ap u8 (e.plain is_false) ∙ byte in
          rw found (rw (is_false, plain) refl)
    ]

-- One character with a septet, encoded and read back.
char_septets-read :
    (cp : ℕ) (rest : List ℕ) (text : Bytes) (n : ℕ)
    → has_septet cp ≡ true
    → cp ≢ 0
    → length text + length (utf8_bytes cp) < text_max
    → septets_text (char_septets cp ++ rest) false text n
      ≡ septets_text rest false (text ++ utf8_bytes cp) (n + 1)
char_septets-read cp rest text n has ne room = elim (Option-cases (sms_gsm7_from_ucs cp)) [
  | inl absent ↦ absurd (ground (arith, absent))
  | inr (s, found) ↦
      let e = from_ucs-Encodes cp s found in
      let low = bit_and s 0x7f in
      rw (char_septets-some cp s found) (elim (Bool-cases (is_ext s)) [
        | inl is_true ↦ rw is_true (
            septets_esc (low ∷ rest) text n
            ∙ septets_put low true rest text n cp e.low_ne_esc (rw is_true at e.decodes) ne room)
        | inr is_false ↦
            rw is_false
              (septets_put low false rest text n cp e.low_ne_esc (rw is_false at e.decodes) ne room)
      ])
]

-- The septets of a list of characters.
abbrev pub septets_of : List ℕ → List ℕ
septets_of [] = []
septets_of (cp ∷ cps) = char_septets cp ++ septets_of cps

pub septets_of-read :
    (cps : List ℕ) (text : Bytes) (n : ℕ)
    → all_septets cps ≡ true
    → All (λ cp. cp ≢ 0) cps
    → length text + length (text_of cps) < text_max
    → septets_text (septets_of cps) false text n ≡ (text ++ text_of cps, n + length cps)
septets_of-read [] text n has ne room =
    unfold septets_text in ap₂ (λ (t : Bytes) (k : ℕ). (t, k)) (sym (append-nil text)) (omega arith)
septets_of-read (cp ∷ cps) text n has ne room =
    let size = length-append (utf8_bytes cp) (text_of cps) in
    let longer = length-append text (utf8_bytes cp) in
    let first : has_septet cp ≡ true = ground arith in
    let others : all_septets cps ≡ true = ground arith in
    char_septets-read cp (septets_of cps) text n first ne.0 (omega (arith, size))
    ∙ septets_of-read cps (text ++ utf8_bytes cp) (n + 1) others ne.1 (omega (arith, size, longer))
    ∙ ap₂ (λ (t : Bytes) (k : ℕ). (t, k)) (append_assoc text (utf8_bytes cp) (text_of cps))
        (omega arith)

-- The septets that the encoder packs are those of the characters asked for, as many as are left.
pub text_septets-Chars :
    (left : ℕ) {s : Bytes} {cps : List ℕ}
    → Chars s cps
    → text_septets left s ≡ septets_of (take left cps)
unfolding text_septets
text_septets-Chars zero c = refl
text_septets-Chars (suc left) nil = rw (text_step-nil, text_septets) refl
text_septets-Chars (suc left) (cons cp step lt ne scalar later) =
    rw (step, text_septets)
      (ap (λ (t : Bytes). char_septets cp ++ t) (text_septets-Chars left later))

-- Packing takes the septets that the scan and the plan have counted, for any text.
char_septets-length : (cp : ℕ) → length (char_septets cp) ≡ cost gsm7 cp
unfolding cost
char_septets-length cp = elim (Option-cases (sms_gsm7_from_ucs cp)) [
  | inl absent ↦ rw (char_septets-none cp absent) (rw (absent, cost) refl)
  | inr (s, found) ↦ rw (char_septets-some cp s found) (rw (found, cost) (ground arith))
]

pub septets_of-length : (cps : List ℕ) → length (septets_of cps) ≡ total gsm7 cps
septets_of-length [] = refl
septets_of-length (cp ∷ cps) = omega (
  arith,
  length-append (char_septets cp) (septets_of cps),
  char_septets-length cp,
  septets_of-length cps,
)

char_septets-small : (cp : ℕ) → All (λ s. s < 128) (char_septets cp)
char_septets-small cp = elim (Option-cases (sms_gsm7_from_ucs cp)) [
  | inl absent ↦ rw (char_septets-none cp absent) (omega arith, tt)
  | inr (s, found) ↦
      let low = (from_ucs-Encodes cp s found).low_lt in
      rw (char_septets-some cp s found) (elim (Bool-cases (is_ext s)) [
        | inl is_true ↦ rw is_true (omega arith, (low, tt))
        | inr is_false ↦ rw is_false (low, tt)
      ])
]

pub septets_of-small : (cps : List ℕ) → All (λ s. s < 128) (septets_of cps)
septets_of-small [] = tt
septets_of-small (cp ∷ cps) =
    All-append (λ s. s < 128) (char_septets cp) (septets_of cps) (char_septets-small cp)
      (septets_of-small cps)

utf8_bytes-length : (cp : ℕ) → length (utf8_bytes cp) ≤ 4
unfolding utf8_bytes
utf8_bytes-length cp = ground arith

pub text_of_le : (cps : List ℕ) → length (text_of cps) ≤ 4 * length cps
text_of_le [] = omega arith
text_of_le (cp ∷ cps) =
    omega (arith, length-append (utf8_bytes cp) (text_of cps), utf8_bytes-length cp, text_of_le cps)

-- A segment's text has room in the buffer of the decoder.
pub text_of-length : (cps : List ℕ) → length (text_of cps) ≤ 4 * total gsm7 cps
text_of-length [] = omega arith
text_of-length (cp ∷ cps) =
    let (pos, _) = cost_bounds gsm7 cp in
    omega (
      arith,
      length-append (utf8_bytes cp) (text_of cps),
      utf8_bytes-length cp,
      pos,
      text_of-length cps,
    )
