-- ===== src/Sms/Utf8/Strict.antt =====
-- fm160d/src/pdu.c: what `utf8_next` accepts.
use openwrt_fm.Base.{
  ℕ, suc, ◌+◌, ◌*◌, ◌%◌, ◌<◌, true, false, ◌≡◌, sym, ap, ap₂, ◌∙◌, inl, inr, [], ◌∷◌, ◌++◌, Option,
  some, arith, ltb, length, Bytes, Bool-cases, Option-cases, All,
}
use openwrt_fm.Sms.Hex.Laws.{IsByte}
use openwrt_fm.Sms.Utf8.Laws.{
  IsScalar, encoding, utf8_bytes-encoding, lead_of, lead_lem, continuation_step, is_trail,
  continuation-done, scalar_le,
}
use openwrt_fm.Sms.Utf8.{char, lead, continuation, is_rejected, utf8_next, utf8_bytes}

-- What a successful loop over continuation bytes has read first.
record Trail (extra v w : ℕ) (rest s : Bytes) : Type 0 where
  bits : ℕ
  tail : Bytes
  bits_lt : bits < 64
  starts : s ≡ (0x80 + bits) ∷ tail
  goes_on : continuation extra (v * 64 + bits) tail ≡ some (w, rest)
  bytes : All IsByte tail

continuation-Trail :
    (extra v w : ℕ) (rest s : Bytes)
    → All IsByte s
    → continuation (suc extra) v s ≡ some (w, rest)
    → Trail extra v w rest s
continuation-Trail extra v w rest [] a e = absurd (unfold continuation in cc)
continuation-Trail extra v w rest (c ∷ s) a e = elim (Bool-cases (is_trail c)) [
  | inl good ↦ record {
    bits = c % 64;
    tail = s;
    bits_lt = omega arith;
    starts = ap (λ x. x ∷ s) (ground arith);
    goes_on = rw good at (sym (continuation_step extra v c s a.0) ∙ e);
    bytes = a.1;
  }
  | inr bad ↦ absurd (cc (rw bad at (sym (continuation_step extra v c s a.0) ∙ e)))
]

-- What an accepted sequence from 0x80 on is made of.
record Sequence (c cp : ℕ) (rest s : Bytes) : Type 0 where
  first : ℕ
  extra : ℕ
  leads : lead c ≡ some (first, extra)
  read : continuation extra first s ≡ some (cp, rest)
  fine : is_rejected extra cp ≡ false

next-Sequence :
    (c cp : ℕ) (rest s : Bytes)
    → ltb c 0x80 ≡ false
    → utf8_next (c ∷ s) ≡ char cp rest
    → Sequence c cp rest s
unfolding utf8_next
next-Sequence c cp rest s high e = elim (Option-cases (lead c)) [
  | inl no_lead ↦ absurd (cc (rw (high, no_lead) at e))
  | inr ((v, extra), l) ↦ elim (Bool-cases (ltb (length s) extra)) [
    | inl short ↦ absurd (cc (rw short at (rw (high, l) at e)))
    | inr long ↦ elim (Option-cases (continuation extra v s)) [
      | inl broken ↦ absurd (cc (rw broken at (rw long at (rw (high, l) at e))))
      | inr ((w, tail), k) ↦ elim (Bool-cases (is_rejected extra w)) [
        | inl reject ↦ absurd (cc (rw reject at (rw k at (rw long at (rw (high, l) at e)))))
        | inr keep ↦
            let same : char w tail ≡ char cp rest =
              rw keep at (rw k at (rw long at (rw (high, l) at e))) in
            let value : w ≡ cp = cc in
            record { first = v; extra = extra; leads = l; read = k ∙ cc; fine = rw (← value) keep }
      ]
    ]
  ]
]

some_pair :
    (v w : ℕ) (s t : Bytes)
    → ◌≡◌ {A = Option (ℕ × Bytes)} (some (v, s)) (some (w, t))
    → (v ≡ w) × (s ≡ t)
some_pair v w s t e = ground arith

continuation_end :
    (v w : ℕ) (s rest : Bytes) → continuation 0 v s ≡ some (w, rest) → (v ≡ w) × (s ≡ rest)
continuation_end v w s rest e = some_pair v w s rest (sym (continuation-done v s) ∙ e)

-- A value that is not rejected is a scalar value and has its own encoding.
enc_two :
    (a b cp : ℕ)
    → a * 64 + b ≡ cp
    → a < 32
    → b < 64
    → is_rejected 1 cp ≡ false
    → IsScalar cp × (encoding cp ≡ (0xc0 + a) ∷ (0x80 + b) ∷ [])
unfolding is_rejected
enc_two a b cp e ha hb fine = (ground arith, ground arith)

enc_three :
    (a b c cp : ℕ)
    → (a * 64 + b) * 64 + c ≡ cp
    → a < 16
    → b < 64
    → c < 64
    → is_rejected 2 cp ≡ false
    → IsScalar cp × (encoding cp ≡ (0xe0 + a) ∷ (0x80 + b) ∷ (0x80 + c) ∷ [])
unfolding is_rejected
enc_three a b c cp e ha hb hc fine = (ground arith, ground arith)

enc_four :
    (a b c d cp : ℕ)
    → ((a * 64 + b) * 64 + c) * 64 + d ≡ cp
    → a < 8
    → b < 64
    → c < 64
    → d < 64
    → is_rejected 3 cp ≡ false
    → IsScalar cp × (encoding cp ≡ (0xf0 + a) ∷ (0x80 + b) ∷ (0x80 + c) ∷ (0x80 + d) ∷ [])
unfolding is_rejected
enc_four a b c d cp e ha hb hc hd fine = (ground arith, ground arith)

-- The sequences of two, three and four bytes.
sequence_two :
    (a cp : ℕ) (rest s : Bytes)
    → a < 32
    → All IsByte s
    → continuation 1 a s ≡ some (cp, rest)
    → is_rejected 1 cp ≡ false
    → IsScalar cp × ((0xc0 + a) ∷ s ≡ encoding cp ++ rest)
sequence_two a cp rest s ha bs k fine =
    let t = continuation-Trail 0 a cp rest s bs k in
    let (value, left) = continuation_end _ cp t.tail rest t.goes_on in
    let (scalar, enc) = enc_two a t.bits cp value ha t.bits_lt fine in
    (
      scalar,
      ap (λ x. (0xc0 + a) ∷ x) (t.starts ∙ ap (λ x. (0x80 + t.bits) ∷ x) left)
          ∙ ap (λ x. x ++ rest) (sym enc),
    )

sequence_three :
    (a cp : ℕ) (rest s : Bytes)
    → a < 16
    → All IsByte s
    → continuation 2 a s ≡ some (cp, rest)
    → is_rejected 2 cp ≡ false
    → IsScalar cp × ((0xe0 + a) ∷ s ≡ encoding cp ++ rest)
sequence_three a cp rest s ha bs k fine =
    let t = continuation-Trail 1 a cp rest s bs k in
    let u = continuation-Trail 0 _ cp rest t.tail t.bytes t.goes_on in
    let (value, left) = continuation_end _ cp u.tail rest u.goes_on in
    let (scalar, enc) = enc_three a t.bits u.bits cp value ha t.bits_lt u.bits_lt fine in
    (
      scalar,
      ap (λ x. (0xe0 + a) ∷ x)
            (t.starts
              ∙ ap (λ x. (0x80 + t.bits) ∷ x) (u.starts ∙ ap (λ x. (0x80 + u.bits) ∷ x) left))
          ∙ ap (λ x. x ++ rest) (sym enc),
    )

sequence_four :
    (a cp : ℕ) (rest s : Bytes)
    → a < 8
    → All IsByte s
    → continuation 3 a s ≡ some (cp, rest)
    → is_rejected 3 cp ≡ false
    → IsScalar cp × ((0xf0 + a) ∷ s ≡ encoding cp ++ rest)
sequence_four a cp rest s ha bs k fine =
    let t = continuation-Trail 2 a cp rest s bs k in
    let u = continuation-Trail 1 _ cp rest t.tail t.bytes t.goes_on in
    let v = continuation-Trail 0 _ cp rest u.tail u.bytes u.goes_on in
    let (value, left) = continuation_end _ cp v.tail rest v.goes_on in
    let (scalar, enc) =
      enc_four a t.bits u.bits v.bits cp value ha t.bits_lt u.bits_lt v.bits_lt fine in
    (
      scalar,
      ap (λ x. (0xf0 + a) ∷ x)
            (t.starts
              ∙ ap (λ x. (0x80 + t.bits) ∷ x)
                  (u.starts
                    ∙ ap (λ x. (0x80 + u.bits) ∷ x)
                        (v.starts ∙ ap (λ x. (0x80 + v.bits) ∷ x) left)))
          ∙ ap (λ x. x ++ rest) (sym enc),
    )

-- A lead byte is one of three, by the number of continuation bytes.
data Lead (c first extra : ℕ) : Type 0 where
  two : first < 32 → c ≡ 0xc0 + first → extra ≡ 1 → Lead c first extra
  three : first < 16 → c ≡ 0xe0 + first → extra ≡ 2 → Lead c first extra
  four : first < 8 → c ≡ 0xf0 + first → extra ≡ 3 → Lead c first extra

lead-Lead : (c first extra : ℕ) → c < 256 → lead c ≡ some (first, extra) → Lead c first extra
lead-Lead c first extra h l = elim (Bool-cases (ltb c 0xc0)) [
  | inl low ↦ absurd (cc (rw low at read))
  | inr a ↦ elim (Bool-cases (ltb c 0xe0)) [
    | inl in_two ↦ two (ground (arith, read)) (ground (arith, read)) (ground (arith, read))
    | inr b ↦ elim (Bool-cases (ltb c 0xf0)) [
      | inl in_three ↦ three (ground (arith, read)) (ground (arith, read)) (ground (arith, read))
      | inr d ↦ elim (Bool-cases (ltb c 0xf8)) [
        | inl in_four ↦ four (ground (arith, read)) (ground (arith, read)) (ground (arith, read))
        | inr e ↦ absurd (ground (arith, read))
      ]
    ]
  ]
]
  where
    read : lead_of c ≡ some (first, extra)
    read = sym (lead_lem c h) ∙ l

by_Lead :
    {c first extra : ℕ} (cp : ℕ) (rest s : Bytes)
    → Lead c first extra
    → All IsByte s
    → continuation extra first s ≡ some (cp, rest)
    → is_rejected extra cp ≡ false
    → IsScalar cp × (c ∷ s ≡ encoding cp ++ rest)
by_Lead cp rest s (two h c e) bs k fine =
    rw c (sequence_two _ cp rest s h bs (rw e at k) (rw e at fine))
by_Lead cp rest s (three h c e) bs k fine =
    rw c (sequence_three _ cp rest s h bs (rw e at k) (rw e at fine))
by_Lead cp rest s (four h c e) bs k fine =
    rw c (sequence_four _ cp rest s h bs (rw e at k) (rw e at fine))

next_ascii_inv :
    (c cp : ℕ) (s rest : Bytes)
    → ltb c 0x80 ≡ true
    → utf8_next (c ∷ s) ≡ char cp rest
    → (c ≡ cp) × (s ≡ rest)
unfolding utf8_next
next_ascii_inv c cp s rest ascii e =
    let same : char c s ≡ char cp rest = rw ascii at e in ((cc), (cc))

enc_one : (c : ℕ) → ltb c 0x80 ≡ true → IsScalar c × (encoding c ≡ c ∷ [])
enc_one c h = (ground arith, ground arith)

-- Whatever `utf8_next` accepts begins with the encoding of a scalar value, the value that it
-- reports, and the cursor stands right behind it: overlong forms, surrogates, lone continuation
-- bytes, short sequences and values beyond U+10FFFF are all refused.
pub utf8_next_strict :
    (s : Bytes) (cp : ℕ) (rest : Bytes)
    → All IsByte s
    → utf8_next s ≡ char cp rest
    → IsScalar cp × (s ≡ utf8_bytes cp ++ rest)
utf8_next_strict [] cp rest bs e = absurd (unfold utf8_next in cc)
utf8_next_strict (c ∷ s) cp rest bs e = elim (Bool-cases (ltb c 0x80)) [
  | inl ascii ↦
      let (value, left) = next_ascii_inv c cp s rest ascii e in
      let (scalar, enc) = enc_one cp (rw value at ascii) in
      let stored = utf8_bytes-encoding cp (scalar_le cp scalar) ∙ enc in
      (scalar, ap₂ (λ x y. x ∷ y) value left ∙ ap (λ x. x ++ rest) (sym stored))
  | inr high ↦
      let q = next-Sequence c cp rest s high e in
      let (scalar, same) = by_Lead cp rest s (lead-Lead c _ _ bs.0 q.leads) bs.1 q.read q.fine in
      (scalar, same ∙ ap (λ x. x ++ rest) (sym (utf8_bytes-encoding cp (scalar_le cp scalar))))
]
