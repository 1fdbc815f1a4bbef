-- ===== src/Sms/BitWriter/Laws.antt =====
-- fm160d/src/pdu.c: what the bit writer writes, and what it leaves alone.
use openwrt_fm.Base.Bits.{u8, ◌<<<◌, ◌>>>◌, and-mask}
use openwrt_fm.Base.{
  List, [], ◌∷◌, get_or-replicate, replicate, ℕ, zero, suc, ◌+◌, ◌-◌, ◌*◌, ◌/◌, ◌%◌, ◌≤◌, ◌<◌, true,
  false, ◌≡◌, ◌≢◌, refl, sym, ap, ◌∙◌, inl, inr, arith, bit_and, bit_or, ltb, ◌==◌, if◌then◌else◌,
  get_or, set, length, Bytes, Bool-cases, All, All-get_or, All-set, get_or-set_self, get_or-set_ne,
  length-set,
}
use openwrt_fm.Sms.BitWriter.Bit.{digit, bit_at, digit-or, or-IsByte, below_eight}
use openwrt_fm.Sms.BitWriter.{BitWriter, bw_bit, bw_bits_loop, bw_bits, bw_septets, bw_init, ud_max}
use openwrt_fm.Sms.Hex.Laws.{IsByte}

-- Octets, and no bit set from the write position on.
pub record IsClean (w : BitWriter) : Type 0 where
  pub bytes : All IsByte w.buf
  pub clear : (j : ℕ) → w.bitpos ≤ j → bit_at w.buf j ≡ 0

-- `w'` is `w` with the `n` bits `f 0`, `f 1`, … written behind it.
pub record Wrote (w w' : BitWriter) (n : ℕ) (f : ℕ → ℕ) : Type 0 where
  pub advanced : w'.bitpos ≡ w.bitpos + n
  pub same_room : length w'.buf ≡ length w.buf
  pub clean : IsClean w'
  pub kept : (j : ℕ) → j < w.bitpos → bit_at w'.buf j ≡ bit_at w.buf j
  pub fresh : (i : ℕ) → i < n → bit_at w'.buf (w.bitpos + i) ≡ f i

one_bit : (m : ℕ) → m < 8 → u8 (1 <<< m) ≡ 1 <<< m
one_bit = below_eight (λ m. u8 (1 <<< m) ≡ 1 <<< m) refl refl refl refl refl refl refl refl

-- The bit that a round of `bw_bits` sets.
bit_at-set :
    (buf : Bytes) (at m j : ℕ)
    → All IsByte buf
    → at < length buf
    → m < 8
    → bit_at (set buf at (bit_or (get_or buf at 0) (1 <<< m))) j
      ≡ (if j == 8 * at + m then 1 else bit_at buf j)
bit_at-set buf at m j bs room hm = elim (Bool-cases (j / 8 == at)) [
  | inl here ↦
      let e : j / 8 ≡ at = ground arith in
      let tests : (j % 8 == m) ≡ (j == 8 * at + m) = ground arith in
      let small = All-get_or IsByte buf at 0 (omega arith) bs in
      rw e (
        rw (get_or-set_self buf at (bit_or (get_or buf at 0) (1 <<< m)) 0 room) (
          digit-or (get_or buf at 0) m (j % 8) small hm (omega arith)
          ∙ ap (λ t. if t then 1 else digit (get_or buf at 0) (j % 8)) tests))
  | inr there ↦
      let ne : at ≢ j / 8 = ground arith in
      let other : (j == 8 * at + m) ≡ false = ground arith in
      rw (get_or-set_ne buf at (j / 8) (bit_or (get_or buf at 0) (1 <<< m)) 0 ne) (rw other refl)
]

-- The new write position, and the octet it stands in.
module _ (w : BitWriter) (clean : IsClean w) (room : w.bitpos < 8 * length w.buf) where
  set_bit : BitWriter
  set_bit = record {
    buf = set w.buf (w.bitpos / 8) (bit_or (get_or w.buf (w.bitpos / 8) 0) (1 <<< (w.bitpos % 8)));
    bitpos = w.bitpos + 1;
  }

  set_bit-at : (j : ℕ) → bit_at set_bit.buf j ≡ (if j == w.bitpos then 1 else bit_at w.buf j)
  unfolding set_bit
  set_bit-at j =
      let whole : 8 * (w.bitpos / 8) + w.bitpos % 8 ≡ w.bitpos = omega arith in
      bit_at-set w.buf (w.bitpos / 8) (w.bitpos % 8) j clean.bytes (omega arith) (omega arith)
      ∙ ap (λ p. if j == p then 1 else bit_at w.buf j) whole

  set_bit-Wrote : (f : ℕ → ℕ) → f 0 ≡ 1 → Wrote w set_bit 1 f
  unfolding set_bit
  set_bit-Wrote f one = record {
    advanced = refl;
    same_room = length-set w.buf (w.bitpos / 8) _;
    clean = record {
      bytes =
          All-set IsByte w.buf (w.bitpos / 8) _
            (or-IsByte (get_or w.buf (w.bitpos / 8) 0) (w.bitpos % 8)
              (All-get_or IsByte w.buf (w.bitpos / 8) 0 (omega arith) clean.bytes) (omega arith))
            clean.bytes;
      clear = λ j h. ground (arith, set_bit-at j, clean.clear j);
    };
    kept = λ j h. ground (arith, set_bit-at j);
    fresh = λ i h.
        let e : i ≡ 0 = omega arith in
        let hit : (w.bitpos + i == w.bitpos) ≡ true = ground arith in
        set_bit-at (w.bitpos + i) ∙ rw hit (sym one ∙ ap f (sym e));
  }

  skip_bit-Wrote : (f : ℕ → ℕ) → f 0 ≡ 0 → Wrote w (record w { bitpos = w.bitpos + 1 }) 1 f
  skip_bit-Wrote f zero_bit = record {
    advanced = refl;
    same_room = refl;
    clean = record { bytes = clean.bytes; clear = λ j h. clean.clear j (omega arith) };
    kept = λ j h. refl;
    fresh = λ i h.
        let e : i ≡ 0 = omega arith in
        clean.clear (w.bitpos + i) (omega arith) ∙ sym zero_bit ∙ ap f (sym e);
  }

bw_bit-Wrote :
    (w : BitWriter) (val i : ℕ)
    → IsClean w
    → w.bitpos < 8 * length w.buf
    → Wrote w (bw_bit w val i) 1 (λ k. digit val (i + k))
unfolding bw_bit
bw_bit-Wrote w val i clean room =
    let here : digit val (i + 0) ≡ digit val i = ap (digit val) (omega arith) in
    let low = and-mask 1 (val >>> i) in
    let place = and-mask 3 w.bitpos in
    elim (Bool-cases (bit_and (val >>> i) 1 == 1)) [
      | inl is_set ↦ rw is_set (
          rw (place, one_bit (w.bitpos % 8) (omega arith))
            (unfold set_bit in
              set_bit-Wrote w clean room (λ k. digit val (i + k)) (here ∙ ground (arith, low))))
      | inr is_clear ↦
          rw is_clear
            (skip_bit-Wrote w clean room (λ k. digit val (i + k)) (here ∙ ground (arith, low)))
    ]

-- Two writes, one behind the other, seen as one.
pub Wrote-trans :
    (w w1 w2 : BitWriter) (n m p : ℕ) (f g h : ℕ → ℕ)
    → n + m ≡ p
    → ((k : ℕ) → k < n → h k ≡ f k)
    → ((k : ℕ) → k < m → h (n + k) ≡ g k)
    → Wrote w w1 n f
    → Wrote w1 w2 m g
    → Wrote w w2 p h
Wrote-trans w w1 w2 n m p f g h e hf hg a b = record {
  advanced = omega (arith, a.advanced, b.advanced);
  same_room = b.same_room ∙ a.same_room;
  clean = b.clean;
  kept = λ j lt. b.kept j (omega (arith, a.advanced)) ∙ a.kept j lt;
  fresh = λ k lt. elim (Bool-cases (ltb k n)) [
    | inl first ↦
        b.kept (w.bitpos + k) (ground (arith, a.advanced))
        ∙ a.fresh k (ground arith)
        ∙ sym (hf k (ground arith))
    | inr second ↦
        let place : w.bitpos + k ≡ w1.bitpos + (k - n) = ground (arith, a.advanced) in
        let back : n + (k - n) ≡ k = ground arith in
        ap (bit_at w2.buf) place
        ∙ b.fresh (k - n) (ground arith)
        ∙ sym (hg (k - n) (ground arith))
        ∙ ap h back
  ];
}

pub Wrote-refl : (w : BitWriter) (f : ℕ → ℕ) → IsClean w → Wrote w w 0 f
Wrote-refl w f clean = record {
  advanced = omega arith;
  same_room = refl;
  clean = clean;
  kept = λ j h. refl;
  fresh = λ i h. absurd (omega arith);
}

bw_bits_loop-Wrote :
    (left i val : ℕ) (w : BitWriter)
    → IsClean w
    → w.bitpos + left ≤ 8 * length w.buf
    → Wrote w (bw_bits_loop left i val w) left (λ k. digit val (i + k))
unfolding bw_bits_loop
bw_bits_loop-Wrote zero i val w clean room = Wrote-refl w _ clean
bw_bits_loop-Wrote (suc left) i val w clean room =
    let one = bw_bit-Wrote w val i clean (omega arith) in
    let more =
      bw_bits_loop-Wrote left (i + 1) val (bw_bit w val i) one.clean
        (omega (arith, one.advanced, ap (λ (t : ℕ). 8 * t) one.same_room)) in
    Wrote-trans w (bw_bit w val i) _ 1 left (suc left) _ _ _ (omega arith) (λ k lt. refl)
      (λ k lt. ap (digit val) (omega arith)) one more

-- `bw_bits` appends the `nbits` low bits of `val`, the lowest first, and disturbs no other bit.
pub bw_bits-Wrote :
    (w : BitWriter) (val nbits : ℕ)
    → IsClean w
    → w.bitpos + nbits ≤ 8 * length w.buf
    → Wrote w (bw_bits w val nbits) nbits (digit val)
unfolding bw_bits
bw_bits-Wrote w val nbits clean room =
    let loop = bw_bits_loop-Wrote nbits 0 val w clean room in
    record {
      advanced = loop.advanced;
      same_room = loop.same_room;
      clean = loop.clean;
      kept = loop.kept;
      fresh = λ i lt. loop.fresh i lt ∙ ap (digit val) (omega arith);
    }

-- The bits of a list of septets.
abbrev pub stream : List ℕ → ℕ → ℕ
stream ss j = digit (get_or ss (j / 7) 0) (j % 7)

stream_first : (s : ℕ) (ss : List ℕ) (k : ℕ) → k < 7 → stream (s ∷ ss) k ≡ digit s k
stream_first s ss k h =
    let zero_th : k / 7 ≡ 0 = omega arith in
    let place : k % 7 ≡ k = omega arith in rw (zero_th, place) refl

stream_later : (s : ℕ) (ss : List ℕ) (k : ℕ) → stream (s ∷ ss) (7 + k) ≡ stream ss k
stream_later s ss k =
    let next : (7 + k) / 7 ≡ suc (k / 7) = omega arith in
    let place : (7 + k) % 7 ≡ k % 7 = omega arith in rw (next, place) refl

-- `bw_septets` appends the seven low bits of each septet.
pub bw_septets-Wrote :
    (ss : List ℕ) (w : BitWriter)
    → IsClean w
    → w.bitpos + 7 * length ss ≤ 8 * length w.buf
    → Wrote w (bw_septets w ss) (7 * length ss) (stream ss)
unfolding bw_septets
bw_septets-Wrote [] w clean room = Wrote-refl w _ clean
bw_septets-Wrote (s ∷ ss) w clean room =
    let one = bw_bits-Wrote w s 7 clean (omega arith) in
    let more =
      bw_septets-Wrote ss (bw_bits w s 7) one.clean
        (omega (arith, one.advanced, ap (λ (t : ℕ). 8 * t) one.same_room)) in
    Wrote-trans w (bw_bits w s 7) _ 7 (7 * length ss) _ _ _ _ (omega arith) (stream_first s ss)
      (λ k lt. stream_later s ss k) one more

zeros-IsByte : (n : ℕ) → All IsByte (replicate n 0)
zeros-IsByte zero = tt
zeros-IsByte (suc n) = (omega arith, zeros-IsByte n)

digit-zero : (k : ℕ) → k < 8 → digit 0 k ≡ 0
digit-zero = below_eight (λ k. digit 0 k ≡ 0) refl refl refl refl refl refl refl refl

pub bw_init-IsClean : IsClean bw_init
unfolding bw_init
bw_init-IsClean = record {
  bytes = zeros-IsByte (ud_max + 16);
  clear = λ j h.
      ap (λ byte. digit byte (j % 8)) (get_or-replicate (ud_max + 16) (j / 8) 0)
      ∙ digit-zero (j % 8) (omega arith);
}
