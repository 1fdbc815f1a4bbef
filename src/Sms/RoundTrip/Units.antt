-- ===== src/Sms/RoundTrip/Units.antt =====
-- A text in UCS2: the units of `sms_pdu_encode`, read back by `sms_pdu_decode`.
use mathlib.Core.List.{append_assoc, append-nil}
use openwrt_fm.Base.{
  ℕ, zero, suc, ◌+◌, ◌*◌, ◌/◌, ◌%◌, ◌≤◌, ◌<◌, false, ◌≡◌, refl, sym, ap, ap₂, ◌∙◌, ◌⊎◌, inl, inr,
  List, [], ◌∷◌, ◌++◌, arith, bit_and, ltb, leb, if◌then◌else◌, length, length-append, take, Bytes,
  Bool-cases, All,
}
use openwrt_fm.Base.Bits.{◌>>>◌, and-mask, or-shift}
use openwrt_fm.Sms.BitWriter.{BitWriter, bw_bits}
use openwrt_fm.Sms.Decode.UserData.{text_max, unit, no_surrogate, is_pair, ucs2_text}
use openwrt_fm.Sms.Encode.{bw_header, bw_units}
use openwrt_fm.Sms.Hex.Laws.{IsByte}
use openwrt_fm.Sms.Utf8.Laws.{IsScalar}
use openwrt_fm.Sms.Utf8.Step.{Chars, nil, cons, text_of, text_step-nil}
use openwrt_fm.Sms.Utf8.{utf8_bytes, utf8_put}

-- A character beyond U+FFFF is sent as U+FFFD.
abbrev pub in_unit : ℕ → ℕ
in_unit cp = if ltb 0xffff cp then 0xfffd else cp

abbrev pub in_units : List ℕ → List ℕ
in_units [] = []
in_units (cp ∷ cps) = in_unit cp ∷ in_units cps

-- The octets of the units, the high one first.
abbrev pub octets_of : List ℕ → Bytes
octets_of [] = []
octets_of (u ∷ us) = u / 256 ∷ u % 256 ∷ octets_of us

-- Not a surrogate, and in one unit.
abbrev pub IsUnit : ℕ → Type 0
IsUnit u = (u < 0xd800) ⊎ ((0xdfff < u) × (u < 0x10000))

pub in_unit-IsUnit : (cp : ℕ) → IsScalar cp → IsUnit (in_unit cp)
in_unit-IsUnit cp h = elim (Bool-cases (ltb 0xffff cp)) [
  | inl far ↦ rw far (inr (omega arith, omega arith))
  | inr near ↦
      let near_le : cp ≤ 0xffff = ground arith in
      rw near (elim h [ inl low ↦ inl low | inr high ↦ inr (omega arith, omega (arith, near_le)) ])
]

pub bw_header-append :
    (a b : Bytes) (w : BitWriter) → bw_header w (a ++ b) ≡ bw_header (bw_header w a) b
unfolding bw_header
bw_header-append [] b w = refl
bw_header-append (x ∷ a) b w = bw_header-append a b (bw_bits w x 8)

high_octet : (u : ℕ) → IsUnit u → bit_and (u >>> 8) 0xff ≡ u / 256
high_octet u h = ground (arith, and-mask 8 (u >>> 8))

low_octet : (u : ℕ) → bit_and u 0xff ≡ u % 256
low_octet u = and-mask 8 u

-- The encoder writes the octets of the units of the characters asked for.
pub bw_units-Chars :
    (left : ℕ) {s : Bytes} {cps : List ℕ} (w : BitWriter)
    → Chars s cps
    → bw_units left s w ≡ bw_header w (octets_of (in_units (take left cps)))
unfolding bw_units bw_header
bw_units-Chars zero w c = refl
bw_units-Chars (suc left) w nil = rw (text_step-nil, bw_units) refl
bw_units-Chars (suc left) w (cons cp step lt ne scalar later) =
    let high = high_octet (in_unit cp) (in_unit-IsUnit cp scalar) in
    rw (step, bw_units) (rw (high, low_octet (in_unit cp)) (bw_units-Chars left _ later))

-- The decoder's unit is the one sent, neither a surrogate nor half of a pair.
unit-octets : (u : ℕ) → unit (u / 256) (u % 256) ≡ u
unit-octets u = omega (arith, or-shift 8 (u / 256) (u % 256) (omega arith))

not_pair : (u lo : ℕ) → IsUnit u → is_pair u lo ≡ false
not_pair u lo h = ground arith

not_surrogate : (u : ℕ) → IsUnit u → no_surrogate u ≡ u
not_surrogate u h = ground arith

ucs2_last :
    (u : ℕ) (text : Bytes) (n : ℕ)
    → IsUnit u
    → length text + length (utf8_bytes u) < text_max
    → ucs2_text (u / 256 ∷ u % 256 ∷ []) text n ≡ (text ++ utf8_bytes u, n + 1)
unfolding ucs2_text utf8_put
ucs2_last u text n h room =
    let fits : leb text_max (length text + length (utf8_bytes u)) ≡ false = ground arith in
    rw (unit-octets u, ucs2_text) (rw (not_surrogate u h) (rw fits refl))

ucs2_more :
    (u a b : ℕ) (ud text : Bytes) (n : ℕ)
    → IsUnit u
    → length text + length (utf8_bytes u) < text_max
    → ucs2_text (u / 256 ∷ u % 256 ∷ a ∷ b ∷ ud) text n
      ≡ ucs2_text (a ∷ b ∷ ud) (text ++ utf8_bytes u) (n + 1)
unfolding ucs2_text utf8_put
ucs2_more u a b ud text n h room =
    let fits : leb text_max (length text + length (utf8_bytes u)) ≡ false = ground arith in
    rw (unit-octets u, not_pair u (unit a b) h, not_surrogate u h) (rw fits refl)

-- The decoder reads the units back as characters.
pub ucs2_text-octets_of :
    (us : List ℕ) (text : Bytes) (n : ℕ)
    → All IsUnit us
    → length text + length (text_of us) < text_max
    → ucs2_text (octets_of us) text n ≡ (text ++ text_of us, n + length us)
ucs2_text-octets_of [] text n h room =
    unfold ucs2_text in ap₂ (λ (t : Bytes) (k : ℕ). (t, k)) (sym (append-nil text)) (omega arith)
ucs2_text-octets_of (u ∷ []) text n h room =
    ucs2_last u text n h.0 (omega (arith, length-append (utf8_bytes u) []))
    ∙ ap₂ (λ (t : Bytes) (k : ℕ). (t, k))
        (ap (λ (t : Bytes). text ++ t) (sym (append-nil (utf8_bytes u)))) (omega arith)
ucs2_text-octets_of (u ∷ v ∷ us) text n h room =
    let size = length-append (utf8_bytes u) (text_of (v ∷ us)) in
    let longer = length-append text (utf8_bytes u) in
    ucs2_more u (v / 256) (v % 256) (octets_of us) text n h.0 (omega (arith, size))
    ∙ ucs2_text-octets_of (v ∷ us) (text ++ utf8_bytes u) (n + 1) h.1 (omega (arith, size, longer))
    ∙ ap₂ (λ (t : Bytes) (k : ℕ). (t, k)) (append_assoc text (utf8_bytes u) (text_of (v ∷ us)))
        (omega arith)

pub in_units-length : (cps : List ℕ) → length (in_units cps) ≡ length cps
in_units-length [] = refl
in_units-length (cp ∷ cps) = ap suc (in_units-length cps)

pub octets_of-length : (us : List ℕ) → length (octets_of us) ≡ 2 * length us
octets_of-length [] = refl
octets_of-length (u ∷ us) = omega (arith, octets_of-length us)

pub octets_of-IsByte : (us : List ℕ) → All IsUnit us → All IsByte (octets_of us)
octets_of-IsByte [] h = tt
octets_of-IsByte (u ∷ us) h =
    let small : u < 65536 = ground arith in (omega arith, (omega arith, octets_of-IsByte us h.1))

pub in_units-IsUnit :
    {s : Bytes} {cps : List ℕ} (n : ℕ) → Chars s cps → All IsUnit (in_units (take n cps))
in_units-IsUnit zero c = tt
in_units-IsUnit (suc n) nil = tt
in_units-IsUnit (suc n) (cons cp step lt ne scalar later) =
    (in_unit-IsUnit cp scalar, in_units-IsUnit n later)
