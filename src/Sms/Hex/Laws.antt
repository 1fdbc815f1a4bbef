-- ===== src/Sms/Hex/Laws.antt =====
-- Hex text and octets: the round trip, the bounds of what is parsed, and what is ignored.
use mathlib.Core.List.{append-nil, append_assoc}
use openwrt_fm.Base.{
  ℕ, ◌+◌, ◌≤◌, ◌<◌, Bool, true, false, not, ◌&&◌, ◌≡◌, refl, sym, ap, ◌∙◌, inl, inr, [], ◌∷◌, ◌++◌,
  Option, none, some, arith, bit_and, bit_or, ◌==◌, ltb, leb, if◌then◌else◌, get_or, length, Bytes,
  holds_below, holds_from, holds_below_sound, ==_iff, Bool-cases, Option-cases, All, length-append,
  All-append,
}
use openwrt_fm.Base.Bits.{u8, ◌<<<◌, ◌>>>◌}
use openwrt_fm.Base.Result.{ok}
use openwrt_fm.Sms.Hex.{hexval, is_separator, parse_hex_loop, parse_hex, hex_digits, put_hex}

abbrev pub IsByte : ℕ → Type 0
IsByte b = b < 256

abbrev is_digit_of : Option ℕ → ℕ → Bool
is_digit_of none v = false
is_digit_of (some w) v = w == v

abbrev digit_check : ℕ → Bool
digit_check v =
    is_digit_of (hexval (get_or hex_digits v 0)) v && not (is_separator (get_or hex_digits v 0))

digit_table : holds_below 16 digit_check ≡ true
unfolding holds_from hexval is_separator
digit_table = refl

abbrev byte_check : ℕ → Bool
byte_check b =
    u8 (bit_or ((b >>> 4) <<< 4) (bit_and b 0x0f)) == b
    && ltb (b >>> 4) 16
    && ltb (bit_and b 0x0f) 16

byte_table : holds_below 256 byte_check ≡ true
unfolding holds_from
byte_table = refl

record DigitLaws (v : ℕ) : Type 0 where
  value : hexval (get_or hex_digits v 0) ≡ some v
  kept : is_separator (get_or hex_digits v 0) ≡ false

is_digit_of_sound : (o : Option ℕ) (v : ℕ) → is_digit_of o v ≡ true → o ≡ some v
is_digit_of_sound none v h = absurd (cc)
is_digit_of_sound (some w) v h = ap some ((==_iff w v).0 h)

and_true : (a b : Bool) → (a && b) ≡ true → (a ≡ true) × (b ≡ true)
and_true a b h = ground arith

eq_false_of_not : (a : Bool) → not a ≡ true → a ≡ false
eq_false_of_not a h = ground arith

digit_laws : (v : ℕ) → v < 16 → DigitLaws v
digit_laws v h =
    let c = and_true _ _ (holds_below_sound 16 digit_check v digit_table h) in
    record { value = is_digit_of_sound _ v c.0; kept = eq_false_of_not _ c.1 }

-- One digit, pending or completing an octet.
loop-high :
    (c v outmax : ℕ) (text out : Bytes)
    → is_separator c ≡ false
    → hexval c ≡ some v
    → parse_hex_loop (c ∷ text) outmax none out ≡ parse_hex_loop text outmax (some v) out
unfolding parse_hex_loop
loop-high c v outmax text out s h = rw (s, h)

loop-low :
    (c hi v outmax : ℕ) (text out : Bytes)
    → is_separator c ≡ false
    → hexval c ≡ some v
    → leb outmax (length out) ≡ false
    → parse_hex_loop (c ∷ text) outmax (some hi) out
      ≡ parse_hex_loop text outmax none (out ++ (u8 (bit_or (hi <<< 4) v) ∷ []))
unfolding parse_hex_loop
loop-low c hi v outmax text out s h room = rw (s, h, room)

loop-put_hex :
    (bytes : Bytes) (outmax : ℕ) (out : Bytes)
    → All IsByte bytes
    → length out + length bytes ≤ outmax
    → parse_hex_loop (put_hex bytes) outmax none out ≡ ok (out ++ bytes)
unfolding put_hex
loop-put_hex [] outmax out h room = unfold parse_hex_loop in ap ok (sym (append-nil out))
loop-put_hex (b ∷ bytes) outmax out h room =
    let c = holds_below_sound 256 byte_check b byte_table h.0 in
    let hi = digit_laws (b >>> 4) (ground (arith, c)) in
    let lo = digit_laws (bit_and b 0x0f) (ground (arith, c)) in
    let byte : u8 (bit_or ((b >>> 4) <<< 4) (bit_and b 0x0f)) ≡ b = ground (arith, c) in
    loop-high _ _ outmax _ out hi.kept hi.value
    ∙ loop-low _ _ _ outmax _ out lo.kept lo.value (ground arith)
    ∙ ap (λ x. parse_hex_loop (put_hex bytes) outmax none (out ++ (x ∷ []))) byte
    ∙ loop-put_hex bytes outmax (out ++ (b ∷ [])) h.1 (omega (arith, length-append out (b ∷ [])))
    ∙ ap ok (append_assoc out (b ∷ []) bytes)

-- Octets written by `put_hex` are read back by `parse_hex`, into any buffer that holds them.
pub parse_hex-put_hex :
    (bytes : Bytes) (outmax : ℕ)
    → All IsByte bytes
    → length bytes ≤ outmax
    → parse_hex (put_hex bytes) outmax ≡ ok bytes
parse_hex-put_hex bytes outmax h room =
    unfold parse_hex in loop-put_hex bytes outmax [] h (omega arith)

loop_bounds :
    (text : Bytes) (outmax : ℕ) (hi : Option ℕ) (out bytes : Bytes)
    → length out ≤ outmax
    → All IsByte out
    → parse_hex_loop text outmax hi out ≡ ok bytes
    → (length bytes ≤ outmax) × All IsByte bytes
unfolding parse_hex_loop
loop_bounds [] outmax none out bytes n a e = let same : out ≡ bytes = cc in rw (← same) (n, a)
loop_bounds [] outmax (some h) out bytes n a e = absurd (cc)
loop_bounds (c ∷ text) outmax none out bytes n a e = elim (Bool-cases (is_separator c)) [
  | inl s ↦ loop_bounds text outmax none out bytes n a (rw s at e)
  | inr s ↦ elim (Option-cases (hexval c)) [
    | inl bad ↦ absurd (cc (rw (s, bad) at e))
    | inr (v, good) ↦ loop_bounds text outmax (some v) out bytes n a (rw (s, good) at e)
  ]
]
loop_bounds (c ∷ text) outmax (some h) out bytes n a e = elim (Bool-cases (is_separator c)) [
  | inl s ↦ loop_bounds text outmax (some h) out bytes n a (rw s at e)
  | inr s ↦ elim (Option-cases (hexval c)) [
    | inl bad ↦ absurd (cc (rw (s, bad) at e))
    | inr (v, good) ↦ elim (Bool-cases (leb outmax (length out))) [
      | inl full ↦ absurd (cc (rw (s, good, full) at e))
      | inr room ↦
          loop_bounds text outmax none (out ++ (u8 (bit_or (h <<< 4) v) ∷ [])) bytes
            (ground (arith, length-append out (u8 (bit_or (h <<< 4) v) ∷ [])))
            (All-append IsByte out (u8 (bit_or (h <<< 4) v) ∷ []) a (omega arith, tt))
            (rw (s, good, room) at e)
    ]
  ]
]

-- What `parse_hex` stores is octets and no more of them than the buffer holds, whatever the text.
pub parse_hex_bounds :
    (text : Bytes) (outmax : ℕ) (bytes : Bytes)
    → parse_hex text outmax ≡ ok bytes
    → (length bytes ≤ outmax) × All IsByte bytes
parse_hex_bounds text outmax bytes e =
    loop_bounds text outmax none [] bytes (omega arith) tt (unfold parse_hex in e)

-- The text with the separators taken out.
abbrev pub strip : Bytes → Bytes
strip [] = []
strip (c ∷ text) = if is_separator c then strip text else c ∷ strip text

loop-strip :
    (text : Bytes) (outmax : ℕ) (hi : Option ℕ) (out : Bytes)
    → parse_hex_loop (strip text) outmax hi out ≡ parse_hex_loop text outmax hi out
unfolding parse_hex_loop
loop-strip [] outmax hi out = refl
loop-strip (c ∷ text) outmax none out = elim (Bool-cases (is_separator c)) [
  | inl s ↦ rw s (loop-strip text outmax none out)
  | inr s ↦ elim (Option-cases (hexval c)) [
    | inl bad ↦ rw s (rw (s, bad))
    | inr (v, good) ↦ rw s (rw (s, good) (loop-strip text outmax (some v) out))
  ]
]
loop-strip (c ∷ text) outmax (some h) out = elim (Bool-cases (is_separator c)) [
  | inl s ↦ rw s (loop-strip text outmax (some h) out)
  | inr s ↦ elim (Option-cases (hexval c)) [
    | inl bad ↦ rw s (rw (s, bad))
    | inr (v, good) ↦ rw s (
        rw (s, good)
          (ground (arith, loop-strip text outmax none (out ++ (u8 (bit_or (h <<< 4) v) ∷ [])))))
  ]
]

-- Spaces, tabs, line ends, quotes, commas and colons change nothing, wherever they stand.
pub parse_hex-strip :
    (text : Bytes) (outmax : ℕ) → parse_hex (strip text) outmax ≡ parse_hex text outmax
parse_hex-strip text outmax = unfold parse_hex in loop-strip text outmax none []
