-- ===== src/Sms/Utf8/Laws.antt =====
-- `utf8_next` against the definition of UTF-8 by arithmetic.
use openwrt_fm.Base.{
  ℕ, suc, ◌+◌, ◌-◌, ◌*◌, ◌/◌, ◌%◌, ◌≤◌, ◌<◌, Bool, true, false, not, ◌&&◌, ◌≡◌, refl, ◌∙◌, ◌⊎◌, inl,
  inr, [], ◌∷◌, ◌++◌, Option, none, some, arith, bit_and, bit_or, ◌==◌, ltb, leb, if◌then◌else◌,
  length, Bytes, holds_below, holds_from, holds_below_sound, Bool-cases,
}
use openwrt_fm.Base.Bits.{◌<<<◌, or-shift, and-mask}
use openwrt_fm.Sms.Utf8.{
  Next, char, malformed, lead, continuation, is_rejected, utf8_next, utf8_bytes,
}

-- A Unicode scalar value: no surrogate, and at most U+10FFFF.
abbrev pub IsScalar : ℕ → Type 0
IsScalar cp = (cp < 0xd800) ⊎ ((0xe000 ≤ cp) × (cp ≤ 0x10ffff))

-- UTF-8 by arithmetic.
abbrev pub encoding : ℕ → Bytes
encoding cp =
    if ltb cp 0x80
    then cp ∷ []
    else if ltb cp 0x800
    then (0xc0 + cp / 64) ∷ (0x80 + cp % 64) ∷ []
    else if ltb cp 0x10000
    then (0xe0 + cp / 4096) ∷ (0x80 + cp / 64 % 64) ∷ (0x80 + cp % 64) ∷ []
    else (0xf0 + cp / 262144)
      ∷ (0x80 + cp / 4096 % 64)
      ∷ (0x80 + cp / 64 % 64)
      ∷ (0x80 + cp % 64)
      ∷ []

-- A continuation byte, as stored.
trail : (x : ℕ) → bit_or 0x80 (bit_and x 0x3f) ≡ 0x80 + x % 64
trail x = omega (arith, and-mask 6 x, or-shift 6 2 (bit_and x 0x3f) (omega (arith, and-mask 6 x)))

-- The bytes that `utf8_put` stores are the encoding.
pub utf8_bytes-encoding : (cp : ℕ) → cp ≤ 0x10ffff → utf8_bytes cp ≡ encoding cp
unfolding utf8_bytes
utf8_bytes-encoding cp h = ground (
  arith,
  trail cp,
  trail (cp / 64),
  trail (cp / 4096),
  or-shift 5 6 (cp / 64),
  or-shift 4 14 (cp / 4096),
  or-shift 3 30 (cp / 262144),
)

abbrev pub lead_of : ℕ → Option (ℕ × ℕ)
lead_of c =
    if ltb c 0xc0
    then none
    else if ltb c 0xe0
    then some (c - 0xc0, 1)
    else if ltb c 0xf0
    then some (c - 0xe0, 2)
    else if ltb c 0xf8
    then some (c - 0xf0, 3)
    else none

abbrev same_lead : Option (ℕ × ℕ) → Option (ℕ × ℕ) → Bool
same_lead none none = true
same_lead (some (v, e)) (some (w, f)) = v == w && e == f
same_lead _ _ = false

same_lead_sound : (a b : Option (ℕ × ℕ)) → same_lead a b ≡ true → a ≡ b
same_lead_sound none none h = refl
same_lead_sound none (some (w, f)) h = absurd (cc)
same_lead_sound (some (v, e)) none h = absurd (cc)
same_lead_sound (some (v, e)) (some (w, f)) h = ground arith

lead_table : holds_below 256 (λ c. same_lead (lead c) (lead_of c)) ≡ true
unfolding holds_from lead
lead_table = refl

pub lead_lem : (c : ℕ) → c < 256 → lead c ≡ lead_of c
lead_lem c h = same_lead_sound _ _ (holds_below_sound 256 _ c lead_table h)

abbrev pub is_trail : ℕ → Bool
is_trail c = leb 0x80 c && ltb c 0xc0

abbrev same_bool : Bool → Bool → Bool
same_bool true b = b
same_bool false b = not b

same_bool_sound : (a b : Bool) → same_bool a b ≡ true → a ≡ b
same_bool_sound a b h = ground arith

trail_table : holds_below 256 (λ c. same_bool (bit_and c 0xc0 == 0x80) (is_trail c)) ≡ true
unfolding holds_from
trail_table = refl

trail_lem : (c : ℕ) → c < 256 → (bit_and c 0xc0 == 0x80) ≡ is_trail c
trail_lem c h = same_bool_sound _ _ (holds_below_sound 256 _ c trail_table h)

if_not {ℓ} : {A : Type ℓ} (b : Bool) (x y : A) → (if not b then x else y) ≡ (if b then y else x)
if_not true x y = refl
if_not false x y = refl

-- One continuation byte.
pub continuation_step :
    (extra v cc : ℕ) (s : Bytes)
    → cc < 256
    → continuation (suc extra) v (cc ∷ s)
      ≡ (if is_trail cc then continuation extra (v * 64 + cc % 64) s else none)
unfolding continuation
continuation_step extra v cc s h =
    let bits : bit_or (v <<< 6) (bit_and cc 0x3f) ≡ v * 64 + cc % 64 =
      omega (arith, and-mask 6 cc, or-shift 6 v (bit_and cc 0x3f) (omega (arith, and-mask 6 cc))) in
    rw (trail_lem cc h, bits) (if_not (is_trail cc) none (continuation extra (v * 64 + cc % 64) s))

-- A well-formed continuation byte.
continuation-trail :
    (extra v x : ℕ) (s : Bytes)
    → x < 64
    → continuation (suc extra) v ((0x80 + x) ∷ s) ≡ continuation extra (v * 64 + x) s
continuation-trail extra v x s h =
    let is : is_trail (0x80 + x) ≡ true = ground arith in
    let low : (0x80 + x) % 64 ≡ x = omega arith in
    continuation_step extra v (0x80 + x) s (omega arith) ∙ rw (is, low)

pub continuation-done : (v : ℕ) (s : Bytes) → continuation 0 v s ≡ some (v, s)
unfolding continuation
continuation-done v s = refl

abbrev accept : ℕ → ℕ → Bytes → Next
accept extra v s = if is_rejected extra v then malformed else char v s

-- The sequences of two, three and four bytes, up to the test on the value.
next-sequence :
    (c v extra w : ℕ) (s rest : Bytes)
    → 0x80 ≤ c
    → lead c ≡ some (v, extra)
    → extra ≤ length s
    → continuation extra v s ≡ some (w, rest)
    → utf8_next (c ∷ s) ≡ accept extra w rest
unfolding utf8_next
next-sequence c v extra w s rest high l room k =
    let not_ascii : ltb c 0x80 ≡ false = ground arith in
    let long : ltb (length s) extra ≡ false = ground arith in
    rw (not_ascii, l) (rw long (rw k refl))

lead_two : (a : ℕ) → a < 32 → lead (0xc0 + a) ≡ some (a, 1)
lead_two a h = lead_lem (0xc0 + a) (omega arith) ∙ ground arith

lead_three : (a : ℕ) → a < 16 → lead (0xe0 + a) ≡ some (a, 2)
lead_three a h = lead_lem (0xe0 + a) (omega arith) ∙ ground arith

lead_four : (a : ℕ) → a < 8 → lead (0xf0 + a) ≡ some (a, 3)
lead_four a h = lead_lem (0xf0 + a) (omega arith) ∙ ground arith

next_two :
    (a b : ℕ) (rest : Bytes)
    → a < 32
    → b < 64
    → utf8_next ((0xc0 + a) ∷ (0x80 + b) ∷ rest) ≡ accept 1 (a * 64 + b) rest
next_two a b rest ha hb =
    next-sequence _ a 1 _ _ rest (omega arith) (lead_two a ha) (omega arith)
      (continuation-trail 0 a b rest hb ∙ continuation-done _ rest)

next_three :
    (a b c : ℕ) (rest : Bytes)
    → a < 16
    → b < 64
    → c < 64
    → utf8_next ((0xe0 + a) ∷ (0x80 + b) ∷ (0x80 + c) ∷ rest)
      ≡ accept 2 ((a * 64 + b) * 64 + c) rest
next_three a b c rest ha hb hc =
    next-sequence _ a 2 _ _ rest (omega arith) (lead_three a ha) (omega arith) (
      continuation-trail 1 a b _ hb
      ∙ continuation-trail 0 (a * 64 + b) c rest hc
      ∙ continuation-done _ rest)

next_four :
    (a b c d : ℕ) (rest : Bytes)
    → a < 8
    → b < 64
    → c < 64
    → d < 64
    → utf8_next ((0xf0 + a) ∷ (0x80 + b) ∷ (0x80 + c) ∷ (0x80 + d) ∷ rest)
      ≡ accept 3 (((a * 64 + b) * 64 + c) * 64 + d) rest
next_four a b c d rest ha hb hc hd =
    next-sequence _ a 3 _ _ rest (omega arith) (lead_four a ha) (omega arith) (
      continuation-trail 2 a b _ hb
      ∙ continuation-trail 1 (a * 64 + b) c _ hc
      ∙ continuation-trail 0 ((a * 64 + b) * 64 + c) d rest hd
      ∙ continuation-done _ rest)

next_ascii : (c : ℕ) (s : Bytes) → c < 0x80 → utf8_next (c ∷ s) ≡ char c s
unfolding utf8_next
next_ascii c s h = let ascii : ltb c 0x80 ≡ true = ground arith in rw ascii

accept-char :
    (extra w cp : ℕ) (rest : Bytes)
    → w ≡ cp
    → is_rejected extra cp ≡ false
    → accept extra w rest ≡ char cp rest
accept-char extra w cp rest e fine = rw e (rw fine refl)

utf8_next-encoding :
    (cp : ℕ) (rest : Bytes) → IsScalar cp → utf8_next (encoding cp ++ rest) ≡ char cp rest
utf8_next-encoding cp rest h = elim (Bool-cases (ltb cp 0x80)) [
  | inl one ↦ rw one (next_ascii cp rest (ground arith))
  | inr more ↦ elim (Bool-cases (ltb cp 0x800)) [
    | inl two ↦
        rw (more, two)
          (next_two (cp / 64) (cp % 64) rest (ground arith) (omega arith)
            ∙ accept-char 1 _ cp rest (omega arith) (unfold is_rejected in ground arith))
    | inr more2 ↦ elim (Bool-cases (ltb cp 0x10000)) [
      | inl three ↦
          rw (more, more2)
            (rw three (
              next_three (cp / 4096) (cp / 64 % 64) (cp % 64) rest (ground arith) (omega arith)
                (omega arith)
              ∙ accept-char 2 _ cp rest (omega arith) (unfold is_rejected in ground arith)))
      | inr four ↦
          rw (more, more2)
            (rw four (
              next_four (cp / 262144) (cp / 4096 % 64) (cp / 64 % 64) (cp % 64) rest (ground arith)
                (omega arith) (omega arith) (omega arith)
              ∙ accept-char 3 _ cp rest (omega arith) (unfold is_rejected in ground arith)))
    ]
  ]
]

pub scalar_le : (cp : ℕ) → IsScalar cp → cp ≤ 0x10ffff
scalar_le cp h = omega arith

-- What `utf8_put` stores for a scalar value, `utf8_next` reads back, whatever follows.
pub utf8_next-utf8_bytes :
    (cp : ℕ) (rest : Bytes) → IsScalar cp → utf8_next (utf8_bytes cp ++ rest) ≡ char cp rest
utf8_next-utf8_bytes cp rest h =
    rw (utf8_bytes-encoding cp (scalar_le cp h)) (utf8_next-encoding cp rest h)
