-- ===== src/Sms/Gsm7/Laws.antt =====
-- fm160d/src/pdu.c: the two look-ups of the GSM 7-bit alphabet against each other.
use openwrt_fm.Base.{
  ℕ, zero, suc, ◌+◌, ◌<◌, Bool, true, false, not, ◌&&◌, ◌||◌, ◌≡◌, ◌≢◌, refl, sym, ap, ◌∙◌, inl,
  inr, Option, none, some, arith, bit_and, bit_or, ◌==◌, get_or, holds_below, holds_from,
  holds_below_sound, ==_iff, Bool-cases, Option-cases,
}
use openwrt_fm.Sms.Gsm7.{
  gsm7_esc, gsm7_ext_flag, gsm7_default, gsm7_ext, find_default, find_ext, or_else,
  sms_gsm7_from_ucs, sms_gsm7_to_ucs, is_ext,
}

-- What the first loop returns is a slot of the table that holds the code point.
find_default_sound :
    (left i cp s : ℕ)
    → find_default left i cp ≡ some s
    → (s < i + left) × (s ≢ gsm7_esc) × (get_or gsm7_default s 0 ≡ cp)
unfolding find_default
find_default_sound zero i cp s h = absurd (cc)
find_default_sound (suc left) i cp s h = ground (arith, find_default_sound left (i + 1) cp s)

-- A slot of the single-shift table that holds the code point, and what stands for it.
record IsExtOf (cp bound s : ℕ) : Type 0 where
  slot : ℕ
  slot_lt : slot < bound
  flagged : s ≡ bit_or gsm7_ext_flag slot
  holds : gsm7_ext slot ≡ cp
  in_use : gsm7_ext slot ≢ 0

find_ext_sound : (left i cp s : ℕ) → find_ext left i cp ≡ some s → IsExtOf cp (i + left) s
unfolding find_ext
find_ext_sound zero i cp s h = absurd (cc)
find_ext_sound (suc left) i cp s h = elim (Bool-cases (not (gsm7_ext i == 0) && gsm7_ext i == cp)) [
  | inl here ↦ record {
    slot = i;
    slot_lt = omega arith;
    flagged = ground arith;
    holds = ground arith;
    in_use = ground arith;
  }
  | inr on ↦
      let later = find_ext_sound left (i + 1) cp s (rw on at h) in
      record {
        slot = later.slot;
        slot_lt = omega (arith, later.slot_lt);
        flagged = later.flagged;
        holds = later.holds;
        in_use = later.in_use;
      }
]

-- The flag does not disturb the low seven bits, and marks no plain septet.
abbrev flag_check : ℕ → Bool
flag_check k =
    bit_and (bit_or gsm7_ext_flag k) 0x7f == k
    && is_ext (bit_or gsm7_ext_flag k)
    && bit_and k 0x7f == k
    && not (is_ext k)

flag_table : holds_below 128 flag_check ≡ true
unfolding holds_from is_ext
flag_table = refl

record FlagLaws (k : ℕ) : Type 0 where
  low : bit_and (bit_or gsm7_ext_flag k) 0x7f ≡ k
  marked : is_ext (bit_or gsm7_ext_flag k) ≡ true
  same : bit_and k 0x7f ≡ k
  unmarked : is_ext k ≡ false

flag_laws : (k : ℕ) → k < 128 → FlagLaws k
flag_laws k h = let c = holds_below_sound 128 flag_check k flag_table h in ground (arith, c)

ext_esc : gsm7_ext gsm7_esc ≡ 0
unfolding gsm7_ext
ext_esc = refl

-- `s` is a septet other than the escape or a flagged one, and stands for `cp`.
pub record Encodes (s cp : ℕ) : Type 0 where
  pub low_lt : bit_and s 0x7f < 128
  pub low_ne_esc : bit_and s 0x7f ≢ gsm7_esc
  pub plain : is_ext s ≡ false → s ≡ bit_and s 0x7f
  pub decodes : sms_gsm7_to_ucs (bit_and s 0x7f) (is_ext s) ≡ cp

default-Encodes : (cp s : ℕ) → find_default 128 0 cp ≡ some s → Encodes s cp
unfolding sms_gsm7_to_ucs
default-Encodes cp s h =
    let f = find_default_sound 128 0 cp s h in
    let k = flag_laws s (omega (arith, f)) in
    record {
      low_lt = omega (arith, f, k);
      low_ne_esc = rw k.same f.1;
      plain = λ _. sym k.same;
      decodes = rw (k.same, k.unmarked) (rw k.same (ground (arith, f)));
    }

ext-Encodes : (cp s : ℕ) → find_ext 128 0 cp ≡ some s → Encodes s cp
unfolding sms_gsm7_to_ucs
ext-Encodes cp s h =
    let f = find_ext_sound 128 0 cp s h in
    let k = flag_laws f.slot f.slot_lt in
    record {
      low_lt = rw (f.flagged, k.low) f.slot_lt;
      low_ne_esc = rw (f.flagged, k.low) (λ e. f.in_use (ap gsm7_ext e ∙ ext_esc));
      plain = λ p. absurd (cc (f.flagged, k.marked));
      decodes = rw (f.flagged, k.low, k.marked) (rw k.same (ground (arith, f)));
    }

-- Whatever septet `sms_gsm7_from_ucs` returns for a code point, `sms_gsm7_to_ucs` turns back into
-- that code point; its low seven bits are never the escape, and a value without the flag is a
-- plain septet.
pub from_ucs-Encodes : (cp s : ℕ) → sms_gsm7_from_ucs cp ≡ some s → Encodes s cp
unfolding sms_gsm7_from_ucs
from_ucs-Encodes cp s h = elim (Option-cases (find_default 128 0 cp)) [
  | inl absent ↦ ext-Encodes cp s (rw (absent, or_else) at h)
  | inr (k, found) ↦ default-Encodes cp s (found ∙ rw (found, or_else) at h)
]

-- `o` is `some s`, as a test.
abbrev is_some_of : Option ℕ → ℕ → Bool
is_some_of none s = false
is_some_of (some t) s = t == s

is_some_of_sound : (o : Option ℕ) (s : ℕ) → is_some_of o s ≡ true → o ≡ some s
is_some_of_sound none s h = absurd (cc)
is_some_of_sound (some t) s h = ap some ((==_iff t s).0 h)

default_table :
    holds_below 128
      (λ s. s == gsm7_esc || is_some_of (sms_gsm7_from_ucs (sms_gsm7_to_ucs s false)) s)
    ≡ true
unfolding holds_from sms_gsm7_from_ucs sms_gsm7_to_ucs
default_table = refl

ext_table :
    holds_below 128 (λ s.
      sms_gsm7_to_ucs s true == 0xfffd
      || is_some_of (sms_gsm7_from_ucs (sms_gsm7_to_ucs s true)) (bit_or gsm7_ext_flag s))
    ≡ true
unfolding holds_from sms_gsm7_from_ucs sms_gsm7_to_ucs gsm7_ext
ext_table = refl

or_left : (a b : Bool) → (a || b) ≡ true → a ≢ true → b ≡ true
or_left a b h n = ground arith

-- Every septet but the escape comes back from the code point it stands for; so does every septet of
-- the single-shift table in use, with the flag. Hence no two septets share a code point.
pub from_ucs-to_ucs :
    (s : ℕ)
    → s < 128
    → (s ≢ gsm7_esc → sms_gsm7_from_ucs (sms_gsm7_to_ucs s false) ≡ some s)
      × (sms_gsm7_to_ucs s true ≢ 0xfffd
          → sms_gsm7_from_ucs (sms_gsm7_to_ucs s true) ≡ some (bit_or gsm7_ext_flag s))
from_ucs-to_ucs s h = (
  λ ne.
      is_some_of_sound _ s (
        or_left _ _ (holds_below_sound 128 _ s default_table h)
          (λ e. ne ((==_iff s gsm7_esc).0 e))),
  λ ne.
      is_some_of_sound _ _
        (or_left _ _ (holds_below_sound 128 _ s ext_table h) (λ e. ne ((==_iff _ 0xfffd).0 e))),
)
