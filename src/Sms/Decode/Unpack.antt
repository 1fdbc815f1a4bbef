-- ===== src/Sms/Decode/Unpack.antt =====
-- The septets that the decoder unpacks.
use openwrt_fm.Base.{
  ℕ, suc, ◌+◌, ◌*◌, ◌/◌, ◌%◌, ◌≤◌, ◌<◌, List, [], ◌∷◌, false, ◌≡◌, refl, sym, ap, ◌∙◌, inl, inr,
  arith, bit_and, bit_or, ltb, leb, if◌then◌else◌, get_or, get_or_out, get_or-take, length-take_le,
  All-take, take, length, Bytes, Bool-cases, All, All-get_or,
}
use openwrt_fm.Base.Bits.{u8, ◌<<<◌, ◌>>>◌, and-mask, or-shift, or_comm}
use openwrt_fm.Sms.BitWriter.Bit.{digit, bit_at, seven, seven_ext, seven-digit, window-bit_at}
use openwrt_fm.Sms.BitWriter.Laws.{Wrote, stream}
use openwrt_fm.Sms.BitWriter.{BitWriter, bw_octets}
use openwrt_fm.Sms.Decode.UserData.{unpack}
use openwrt_fm.Sms.Hex.Laws.{IsByte}

-- The two octets at `byte`, the second only where there is one.
pair-sum :
    (ud : Bytes) (byte : ℕ)
    → All IsByte ud
    → (if ltb (byte + 1) (length ud)
        then bit_or (get_or ud byte 0) (get_or ud (byte + 1) 0 <<< 8)
        else get_or ud byte 0)
      ≡ get_or ud byte 0 + get_or ud (byte + 1) 0 * 256
pair-sum ud byte bs = elim (Bool-cases (ltb (byte + 1) (length ud))) [
  | inl both ↦
      let low = All-get_or IsByte ud byte 0 (omega arith) bs in
      rw both
        (or_comm _ _ ∙ or-shift 8 (get_or ud (byte + 1) 0) (get_or ud byte 0) low ∙ omega arith)
  | inr last ↦ rw last (omega (arith, get_or_out ud (byte + 1) 0 (ground arith)))
]

unpack_slot :
    (left k : ℕ) (ud : Bytes) (start : ℕ) (stale : ℕ → ℕ)
    → All IsByte ud
    → (k * 7 + start) / 8 < length ud
    → unpack (suc left) k ud start stale false
      ≡ seven (λ j. bit_at ud (k * 7 + start + j)) ∷ unpack left (k + 1) ud start stale false
unfolding unpack
unpack_slot left k ud start stale bs h =
    let place = and-mask 3 (k * 7 + start) in
    let inside : leb (length ud) ((k * 7 + start) / 8) ≡ false = ground arith in
    let at = (k * 7 + start) / 8 in
    let off = (k * 7 + start) % 8 in
    let v = get_or ud at 0 + get_or ud (at + 1) 0 * 256 in
    let whole : 8 * at + off ≡ k * 7 + start = omega arith in
    let septet : u8 (bit_and (v >>> off) 0x7f) ≡ seven (λ j. bit_at ud (k * 7 + start + j)) =
      omega (arith, and-mask 7 (v >>> off))
      ∙ window-bit_at ud at off bs (omega arith)
      ∙ ap (λ p. seven (λ j. bit_at ud (p + j))) whole in
    rw (inside, place, pair-sum ud at bs)
      (ap (λ s. s ∷ unpack left (k + 1) ud start stale false) septet)

-- The septets are read where the windows of seven bits have their values and the octets are there.
unpack-reads :
    (rest : List ℕ) (k : ℕ) (ud : Bytes) (start : ℕ) (stale : ℕ → ℕ)
    → All IsByte ud
    → ((i : ℕ) → i < length rest → ((k + i) * 7 + start) / 8 < length ud)
    → ((i : ℕ)
        → i < length rest
        → seven (λ j. bit_at ud ((k + i) * 7 + start + j)) ≡ get_or rest i 0)
    → unpack (length rest) k ud start stale false ≡ rest
unpack-reads [] k ud start stale bs room window = unfold unpack in refl
unpack-reads (s ∷ rest) k ud start stale bs room window =
    let here : (k + 0) * 7 + start ≡ k * 7 + start = omega arith in
    let value : seven (λ j. bit_at ud (k * 7 + start + j)) ≡ s =
      sym (ap (λ p. seven (λ j. bit_at ud (p + j))) here) ∙ window 0 (omega arith) in
    let later =
      unpack-reads rest (k + 1) ud start stale bs (λ i h. omega (arith, room (suc i) (omega arith)))
        (λ i h.
          let next : (k + 1 + i) * 7 + start ≡ (k + suc i) * 7 + start = omega arith in
          ap (λ p. seven (λ j. bit_at ud (p + j))) next ∙ window (suc i) (omega arith)) in
    unpack_slot (length rest) k ud start stale bs (omega (arith, room 0 (omega arith)))
    ∙ rw (value, later) refl

-- A bit of the octets that the writer has used.
bit_at-take : (n : ℕ) (buf : Bytes) (j : ℕ) → j < 8 * n → bit_at (take n buf) j ≡ bit_at buf j
bit_at-take n buf j h = ap (λ byte. digit byte (j % 8)) (get_or-take n (j / 8) buf 0 (omega arith))

stream_septet : (ss : List ℕ) (i j : ℕ) → j < 7 → stream ss (i * 7 + j) ≡ digit (get_or ss i 0) j
stream_septet ss i j h =
    let septet : (i * 7 + j) / 7 ≡ i = omega arith in
    let place : (i * 7 + j) % 7 ≡ j = omega arith in rw (septet, place) refl

-- The septets that the writer put behind `w`, the decoder reads back, whatever its array held.
pub unpack-Wrote :
    (w w' : BitWriter) (ss : List ℕ) (stale : ℕ → ℕ)
    → Wrote w w' (7 * length ss) (stream ss)
    → All (λ s. s < 128) ss
    → w'.bitpos ≤ 8 * length w'.buf
    → unpack (length ss) 0 (take (bw_octets w') w'.buf) w.bitpos stale false ≡ ss
unpack-Wrote w w' ss stale wrote small room =
    let used : bw_octets w' ≡ (w'.bitpos + 7) / 8 = unfold bw_octets in refl in
    let size = length-take_le (bw_octets w') w'.buf (omega (arith, used)) in
    unpack-reads ss 0 (take (bw_octets w') w'.buf) w.bitpos stale
      (All-take IsByte (bw_octets w') w'.buf wrote.clean.bytes)
      (λ i h. omega (arith, size, used, wrote.advanced))
      (λ i h.
        let septet = All-get_or (λ s. s < 128) ss i 0 (omega arith) small in
        seven_ext _ (digit (get_or ss i 0)) (λ j lt.
          let place : (0 + i) * 7 + w.bitpos + j ≡ w.bitpos + (i * 7 + j) = omega arith in
          bit_at-take (bw_octets w') w'.buf ((0 + i) * 7 + w.bitpos + j)
            (omega (arith, used, wrote.advanced))
          ∙ ap (bit_at w'.buf) place
          ∙ wrote.fresh (i * 7 + j) (omega arith)
          ∙ stream_septet ss i j lt)
        ∙ seven-digit (get_or ss i 0)
        ∙ omega (arith, septet))
