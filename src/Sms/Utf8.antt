-- ===== src/Sms/Utf8.antt =====
-- fm160d/src/pdu.c, `utf8_next`, `utf8_put`, `text_step` and `text_skip`. The byte cursor `*i` into
-- `s` is the list of the bytes from it on, so that `len - *i` is its length.
pub mod Laws
pub mod Strict
pub mod Step
use openwrt_fm.Base.{
  ℕ, zero, suc, ◌+◌, Bool, true, false, ◌&&◌, ◌||◌, [], ◌∷◌, ◌++◌, Option, none, some, bit_and,
  bit_or, ◌==◌, ltb, leb, not, if◌then◌else◌, length, Bytes,
}
use openwrt_fm.Base.Bits.{◌<<<◌, ◌>>>◌}

-- What `utf8_next` reports: 0 at the end, -1 on a malformed sequence, or the code point and the
-- cursor after the bytes consumed.
pub data Next : Type 0 where
  finished malformed : Next
  char : ℕ → Bytes → Next

-- The value bits and the continuation count of a lead byte from 0x80 on.
unfoldable pub lead : ℕ → Option (ℕ × ℕ)
lead c =
    if bit_and c 0xe0 == 0xc0
    then some (bit_and c 0x1f, 1)
    else if bit_and c 0xf0 == 0xe0
    then some (bit_and c 0x0f, 2)
    else if bit_and c 0xf8 == 0xf0
    then some (bit_and c 0x07, 3)
    else none

-- The loop over the `extra` continuation bytes.
unfoldable pub continuation : ℕ → ℕ → Bytes → Option (ℕ × Bytes)
continuation zero v s = some (v, s)
continuation (suc extra) v [] = none
continuation (suc extra) v (cc ∷ s) =
    let rest = continuation extra (bit_or (v <<< 6) (bit_and cc 0x3f)) s in
    if not (bit_and cc 0xc0 == 0x80) then none else rest

-- Overlong forms, surrogates and what lies beyond U+10FFFF.
unfoldable pub is_rejected : ℕ → ℕ → Bool
is_rejected extra v =
    (extra == 1 && ltb v 0x80)
    || (extra == 2 && ltb v 0x800)
    || (extra == 3 && ltb v 0x10000)
    || ltb 0x10ffff v
    || (leb 0xd800 v && leb v 0xdfff)

unfoldable pub utf8_next : Bytes → Next
utf8_next [] = finished
utf8_next (c ∷ s) = if ltb c 0x80 then char c s else elim (lead c) [
  | none ↦ malformed
  | some (v, extra) ↦ if ltb (length s) extra then malformed else elim (continuation extra v s) [
    | none ↦ malformed
    | some (v', rest) ↦ if is_rejected extra v' then malformed else char v' rest
  ]
]

-- The bytes that `utf8_put` stores for a code point.
unfoldable pub utf8_bytes : ℕ → Bytes
utf8_bytes cp =
    if ltb cp 0x80
    then cp ∷ []
    else if ltb cp 0x800
    then bit_or 0xc0 (cp >>> 6) ∷ bit_or 0x80 (bit_and cp 0x3f) ∷ []
    else if ltb cp 0x10000
    then bit_or 0xe0 (cp >>> 12)
      ∷ bit_or 0x80 (bit_and (cp >>> 6) 0x3f)
      ∷ bit_or 0x80 (bit_and cp 0x3f)
      ∷ []
    else bit_or 0xf0 (cp >>> 18)
      ∷ bit_or 0x80 (bit_and (cp >>> 12) 0x3f)
      ∷ bit_or 0x80 (bit_and (cp >>> 6) 0x3f)
      ∷ bit_or 0x80 (bit_and cp 0x3f)
      ∷ []

-- `out` holds the `*pos` bytes written; `none` is the -1, and leaves the buffer alone.
unfoldable pub utf8_put : Bytes → ℕ → ℕ → Option Bytes
utf8_put out outlen cp =
    let bytes = utf8_bytes cp in
    if leb outlen (length out + length bytes) then none else some (out ++ bytes)

-- One character, whatever the text holds; `none` is the 0 at the end.
unfoldable pub text_step : Bytes → Option (ℕ × Bytes)
text_step [] = none
text_step (c ∷ s) = elim (utf8_next (c ∷ s)) [
  | char cp rest ↦ some (cp, rest)
  | finished ↦ some (0xfffd, s)
  | malformed ↦ some (0xfffd, s)
]

-- The cursor after `count` characters, or after the last one.
unfoldable pub text_skip : ℕ → Bytes → Bytes
text_skip zero s = s
text_skip (suc count) s = elim (text_step s) [ none ↦ s | some (cp, rest) ↦ text_skip count rest ]
