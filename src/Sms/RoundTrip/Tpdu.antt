-- ===== src/Sms/RoundTrip/Tpdu.antt =====
-- The fields of a TPDU as `sms_pdu_encode` lays them out, read by `sms_pdu_decode`.
use Prim.Native.Nat.{min}
use openwrt_fm.Base.{
  ℕ, zero, suc, ◌+◌, ◌-◌, ◌/◌, ◌≤◌, ◌<◌, Bool, true, false, not, ◌≡◌, refl, sym, ap, ◌∙◌, [], ◌∷◌,
  ◌++◌, arith, bit_and, ◌==◌, ltb, leb, length, length-append, get_or, take, drop, Bytes, All,
}
use openwrt_fm.Sms.Bcd.Laws.{IsDigit, bcd_decode-bcd_encode, length-bcd_encode}
use openwrt_fm.Sms.Bcd.{bcd_encode}
use openwrt_fm.Sms.Decode.Defs.{
  PduIn, complete, more, decode_addr, read_addr, read_submit, read_header, addr_max, read_body,
  read_udh, read_text, ud_octets_of, decode_octets, blank,
}
use openwrt_fm.Sms.Segments.{Encoding, dcs_encoding}

get_or-behind : (xs ys : Bytes) (i d : ℕ) → get_or (xs ++ ys) (length xs + i) d ≡ get_or ys i d
get_or-behind [] ys i d = ap (λ k. get_or ys k d) (omega arith)
get_or-behind (x ∷ xs) ys i d =
    let next : length (x ∷ xs) + i ≡ suc (length xs + i) = omega arith in
    rw next (get_or-behind xs ys i d)

drop-behind : (xs ys : Bytes) (i : ℕ) → drop (length xs + i) (xs ++ ys) ≡ drop i ys
drop-behind [] ys i = ap (λ k. drop k ys) (omega arith)
drop-behind (x ∷ xs) ys i =
    let next : length (x ∷ xs) + i ≡ suc (length xs + i) = omega arith in
    rw next (drop-behind xs ys i)

take-front : (xs ys : Bytes) → take (length xs) (xs ++ ys) ≡ xs
take-front [] ys = refl
take-front (x ∷ xs) ys = ap (λ (zs : Bytes). x ∷ zs) (take-front xs ys)

pub take-all : (n : ℕ) (xs : Bytes) → length xs ≤ n → take n xs ≡ xs
take-all zero [] h = refl
take-all zero (x ∷ xs) h = absurd (omega arith)
take-all (suc n) [] h = refl
take-all (suc n) (x ∷ xs) h = ap (λ (zs : Bytes). x ∷ zs) (take-all n xs (omega arith))

-- TP-DA behind three octets.
decode_addr-front :
    (a b c toa n : ℕ) (digits rest : Bytes)
    → All IsDigit digits
    → 0 < length digits
    → length digits ≤ 20
    → 5 + (length digits + 1) / 2 ≤ n
    → decode_addr (a ∷ b ∷ c ∷ length digits ∷ toa ∷ (bcd_encode digits ++ rest)) n 3 (addr_max + 1)
      ≡ complete (5 + (length digits + 1) / 2) digits (bit_and toa 0x70 == 0x10)
unfolding decode_addr
decode_addr-front a b c toa n digits rest ds some_digit fits room =
    let t1 : ltb n 4 ≡ false = ground arith in
    let t2 : (length digits == 0) ≡ false = ground arith in
    let t3 : ltb addr_max (length digits) ≡ false = ground arith in
    let t4 : ltb n (5 + (length digits + 1) / 2) ≡ false = ground arith in
    let content : take ((length digits + 1) / 2) (bcd_encode digits ++ rest) ≡ bcd_encode digits =
      rw (sym (length-bcd_encode digits)) (take-front (bcd_encode digits) rest) in
    let back = bcd_decode-bcd_encode digits (addr_max + 1) ds (omega arith) in
    rw (t1, t2, t3) (rw (t4, content) (rw back refl))

-- The octets of a PDU: no SMSC address, then the fields of an SMS-SUBMIT.
abbrev pub submit_octets : ℕ → ℕ → ℕ → ℕ → Bytes → Bytes → Bytes
submit_octets octet0 toa dcs udl digits ud =
    0 ∷ octet0 ∷ 0 ∷ length digits ∷ toa ∷ (bcd_encode digits ++ (0 ∷ dcs ∷ udl ∷ ud))

-- A TPDU: `front` up to TP-DA, then TP-PID, TP-DCS, TP-UDL and TP-UD.
module _ (octet0 toa dcs udl : ℕ) (digits ud : Bytes) (ds : All IsDigit digits)
    (some_digit : 0 < length digits) (fits : length digits ≤ 20) where
  abbrev front : Bytes
  front = 0 ∷ octet0 ∷ 0 ∷ length digits ∷ toa ∷ bcd_encode digits

  abbrev tail : Bytes
  tail = 0 ∷ dcs ∷ udl ∷ ud

  abbrev octets : Bytes
  octets = submit_octets octet0 toa dcs udl digits ud

  abbrev behind : ℕ
  behind = 5 + (length digits + 1) / 2

  behind-front : length front ≡ behind
  behind-front = omega (arith, length-bcd_encode digits)

  at : (i : ℕ) → get_or octets (behind + i) 0 ≡ get_or tail i 0
  at i = ap (λ k. get_or octets (k + i) 0) (sym behind-front) ∙ get_or-behind front tail i 0

  content : drop (behind + 3) octets ≡ ud
  content = ap (λ k. drop (k + 3) octets) (sym behind-front) ∙ drop-behind front tail 3

  whole : length octets ≡ behind + 3 + length ud
  whole = omega (arith, length-append front tail, behind-front)

  abbrev pub addressed : PduIn
  addressed = record blank {
    mti = 1;
    number = digits;
    number_international = bit_and toa 0x70 == 0x10;
    pid = 0;
    dcs = dcs;
  }

  read_header-front :
      bit_and (octet0 / 8) 3 ≡ 0
      → read_header octets (length octets) octet0 2 (record blank { mti = 1 })
        ≡ more (behind + 2, addressed)
  unfolding read_header read_addr read_submit
  read_header-front no_vp =
      let address =
        decode_addr-front 0 octet0 0 toa (length octets) digits tail ds some_digit fits
          (omega (arith, whole)) in
      let enough : ltb (length octets) (behind + 2) ≡ false = ground (arith, whole) in
      let pid_at : get_or octets behind 0 ≡ 0 = ap (λ k. get_or octets k 0) (omega arith) ∙ at 0 in
      rw (address, read_addr)
        (rw enough (rw (no_vp, pid_at, at 1) (ap (λ (k : ℕ). more (k, addressed)) (omega arith))))

  -- What is known in front of the header in the user data.
  abbrev pub sized : Encoding → PduIn
  sized enc = record addressed { udl = udl; encoding = enc; ud_octets = length ud }

  -- What the decoder makes of the whole, given what it makes of the user data.
  pub decode_octets-front :
      (stale : ℕ → ℕ) (enc : Encoding) (udhi : Bool) (udh_len : ℕ) (out : PduIn) (text : Bytes)
      (n : ℕ)
      → bit_and octet0 0x03 ≡ 1
      → bit_and (octet0 / 8) 3 ≡ 0
      → not (bit_and octet0 0x40 == 0) ≡ udhi
      → dcs_encoding dcs ≡ enc
      → ud_octets_of enc udl ≡ length ud
      → ((p : ℕ) → read_udh udhi p ud (sized enc) ≡ more (udh_len, out))
      → read_text stale enc ud udl udh_len ≡ (text, n)
      → decode_octets stale (submit_octets octet0 toa dcs udl digits ud)
        ≡ more (record out { valid = true; text = text; text_len = n })
  unfolding decode_octets read_body
  decode_octets-front stale enc udhi udh_len out text n submit no_vp flag alphabet count header
        body =
      let t1 : ltb (length octets) 2 ≡ false = ground (arith, whole) in
      let t2 : ltb (length octets) 1 ≡ false = ground (arith, whole) in
      let t3 : leb (length octets) 1 ≡ false = ground (arith, whole) in
      let t4 : leb (length octets) (behind + 2) ≡ false = ground (arith, whole) in
      let place : behind + 2 + 1 ≡ behind + 3 = omega arith in
      let left : min (length ud) (length octets - (behind + 3)) ≡ length ud =
        omega (arith, whole) in
      rw (t1, t2, t3, submit, flag)
        (rw (read_header-front no_vp) (
          rw (t4, at 2, alphabet, count)
            (rw (place, left)
              (rw (content, take-all (length ud) ud (omega arith))
                (rw (header (behind + 3)) (rw body refl))))))
