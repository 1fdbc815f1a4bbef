-- ===== src/Sms/Bcd/Laws.antt =====
-- fm160d/src/pdu.c: semi-octets, encoded and decoded.
use mathlib.Core.List.{append-nil, append_assoc}
use openwrt_fm.Base.{
  ℕ, ◌+◌, ◌-◌, ◌*◌, ◌/◌, ◌%◌, ◌≤◌, ◌<◌, Bool, true, false, not, ◌&&◌, ◌||◌, ◌≡◌, refl, ap, ap₂, ◌∙◌,
  [], ◌∷◌, ◌++◌, arith, bit_and, bit_or, ◌==◌, ltb, leb, if◌then◌else◌, length, Bytes, holds_below,
  holds_from, holds_below_sound, All, length-append,
}
use openwrt_fm.Base.Bits.{u8, ◌<<<◌, ◌>>>◌, or-shift, and-mask}
use openwrt_fm.Base.Result.{Result, ok, err}
use openwrt_fm.Sms.Bcd.{bcd_encode, bcd_decode_loop, bcd_decode, scts_pair}

abbrev pub IsDigit : ℕ → Type 0
IsDigit c = (b'0' ≤ c) × (c ≤ b'9')

-- The two semi-octets of an octet as it is stored.
record Nibbles (lo hi o : ℕ) : Type 0 where
  low : bit_and o 0x0f ≡ lo
  high : bit_and (o >>> 4) 0x0f ≡ hi

nibbles : (lo hi : ℕ) → lo < 16 → hi < 16 → Nibbles lo hi (u8 (bit_or (hi <<< 4) lo))
nibbles lo hi p q =
    let o = u8 (bit_or (hi <<< 4) lo) in
    let sum : o ≡ hi * 16 + lo = omega (arith, or-shift 4 hi lo p) in
    record {
      low = omega (arith, sum, and-mask 4 o);
      high = omega (arith, sum, and-mask 4 (o >>> 4));
    }

decode-pair :
    (o x y ndigits outlen : ℕ) (octets out : Bytes)
    → x ≤ 9
    → y ≤ 9
    → Nibbles x y o
    → length out + 1 < ndigits
    → length out + 1 < outlen
    → bcd_decode_loop (o ∷ octets) ndigits outlen out
      ≡ bcd_decode_loop octets ndigits outlen (out ++ ((b'0' + x) ∷ (b'0' + y) ∷ []))
unfolding bcd_decode_loop
decode-pair o x y ndigits outlen octets out hx hy n short room =
    let more : leb ndigits (length out) ≡ false = ground arith in
    let small : (ltb 9 x || (ltb (length out + 1) ndigits && ltb 9 y)) ≡ false = ground arith in
    let fits : leb outlen (length out + 1) ≡ false = ground arith in
    let second : ltb (length out + 1) ndigits ≡ true = ground arith in
    let digit : ltb 9 y ≡ false = ground arith in
    rw (n.low, n.high) (rw (more, small) (rw (fits, second) (rw digit)))

decode-last :
    (o x hi ndigits outlen : ℕ) (out : Bytes)
    → x ≤ 9
    → Nibbles x hi o
    → length out + 1 ≡ ndigits
    → length out + 1 < outlen
    → bcd_decode_loop (o ∷ []) ndigits outlen out ≡ ok (out ++ ((b'0' + x) ∷ []))
unfolding bcd_decode_loop
decode-last o x hi ndigits outlen out hx n last room =
    let more : leb ndigits (length out) ≡ false = ground arith in
    let small : (ltb 9 x || (ltb (length out + 1) ndigits && ltb 9 hi)) ≡ false = ground arith in
    let fits : leb outlen (length out + 1) ≡ false = ground arith in
    let only : ltb (length out + 1) ndigits ≡ false = ground arith in
    let whole : (length (out ++ ((b'0' + x) ∷ [])) == ndigits) ≡ true =
      ground (arith, length-append out ((b'0' + x) ∷ [])) in
    rw (n.low, n.high) (rw (more, small) (rw (fits, only) (rw whole)))

digit_back : (d : ℕ) → IsDigit d → b'0' + (d - b'0') ≡ d
digit_back d h = omega arith

loop-encode :
    (ds : Bytes) (ndigits outlen : ℕ) (out : Bytes)
    → All IsDigit ds
    → length out + length ds ≡ ndigits
    → ndigits < outlen
    → bcd_decode_loop (bcd_encode ds) ndigits outlen out ≡ ok (out ++ ds)
unfolding bcd_encode
loop-encode [] ndigits outlen out h n room = unfold bcd_decode_loop in rw append-nil (ground arith)
loop-encode (d ∷ []) ndigits outlen out h n room =
    let octet = nibbles (d - b'0') 15 (omega arith) (omega arith) in
    decode-last _ (d - b'0') 15 ndigits outlen out (omega arith) octet n (omega arith)
    ∙ ap (λ x. ok (out ++ (x ∷ []))) (digit_back d h.0)
loop-encode (d ∷ e ∷ ds) ndigits outlen out h n room =
    let octet = nibbles (d - b'0') (e - b'0') (omega arith) (omega arith) in
    decode-pair _ (d - b'0') (e - b'0') ndigits outlen _ out (omega arith) (omega arith) octet
      (omega arith) (omega arith)
    ∙ ap₂ (λ x y. bcd_decode_loop (bcd_encode ds) ndigits outlen (out ++ (x ∷ y ∷ [])))
        (digit_back d h.0) (digit_back e h.1.0)
    ∙ loop-encode ds ndigits outlen (out ++ (d ∷ e ∷ [])) h.1.1
        (omega (arith, length-append out (d ∷ e ∷ []))) room
    ∙ ap ok (append_assoc out (d ∷ e ∷ []) ds)

-- Any number of digits, odd or even, that leaves room for the NUL, comes back from its semi-octets.
pub bcd_decode-bcd_encode :
    (ds : Bytes) (outlen : ℕ)
    → All IsDigit ds
    → length ds < outlen
    → bcd_decode (bcd_encode ds) (length ds) outlen ≡ ok ds
bcd_decode-bcd_encode ds outlen h room =
    unfold bcd_decode in loop-encode ds (length ds) outlen [] h (omega arith) room

-- An address of `n` digits takes `(n + 1) / 2` octets.
pub length-bcd_encode : (ds : Bytes) → length (bcd_encode ds) ≡ (length ds + 1) / 2
unfolding bcd_encode
length-bcd_encode [] = omega arith
length-bcd_encode (d ∷ []) = omega arith
length-bcd_encode (d ∷ e ∷ ds) = omega (arith, length-bcd_encode ds)

-- The octet of a value and of its sign: the tens in the low nibble, the sign in its bit 3.
abbrev pub swapped : ℕ → Bool → ℕ
swapped v neg = v % 10 * 16 + v / 10 + (if neg then 8 else 0)

abbrev reads_pair : Result (ℕ × Bool) → ℕ → Bool → Bool
reads_pair (err e) v neg = false
reads_pair (ok (w, true)) v neg = w == v && neg
reads_pair (ok (w, false)) v neg = w == v && not neg

reads_pair_sound :
    (r : Result (ℕ × Bool)) (v : ℕ) (neg : Bool) → reads_pair r v neg ≡ true → r ≡ ok (v, neg)
reads_pair_sound (err e) v neg h = absurd (cc)
reads_pair_sound (ok (w, true)) v neg h = ground arith
reads_pair_sound (ok (w, false)) v neg h = ground arith

abbrev zone_check : Bool → ℕ → Bool
zone_check neg v = reads_pair (scts_pair (swapped v neg) true) v neg

plain_table : holds_below 100 (λ v. reads_pair (scts_pair (swapped v false) false) v false) ≡ true
unfolding holds_from scts_pair
plain_table = refl

zone_table : (neg : Bool) → holds_below 80 (zone_check neg) ≡ true
unfolding holds_from scts_pair
zone_table true = refl
zone_table false = refl

-- A field from 0 to 99 is read back from its semi-octets, the first digit in the low nibble; so is
-- a time zone below 80 quarters with its sign, which takes bit 3 of the tens.
pub scts_pair-swapped :
    (v : ℕ) (neg : Bool)
    → (v < 100 → scts_pair (swapped v false) false ≡ ok (v, false))
      × (v < 80 → scts_pair (swapped v neg) true ≡ ok (v, neg))
scts_pair-swapped v neg = (
  λ h. reads_pair_sound _ v false (holds_below_sound 100 _ v plain_table h),
  λ h. reads_pair_sound _ v neg (holds_below_sound 80 (zone_check neg) v (zone_table neg) h),
)

pub bcd_encode-IsByte : (ds : Bytes) → All (λ o. o < 256) (bcd_encode ds)
unfolding bcd_encode
bcd_encode-IsByte [] = tt
bcd_encode-IsByte (d ∷ []) = (omega arith, tt)
bcd_encode-IsByte (d ∷ e ∷ ds) = (omega arith, bcd_encode-IsByte ds)
