-- ===== src/Sms/RoundTrip/UserData.antt =====
-- The user data of one segment: what `sms_pdu_encode` packs behind a header, `sms_pdu_decode` reads.
use Prim.Native.Nat.{min}
use openwrt_fm.Base.{
  ℕ, suc, ◌+◌, ◌-◌, ◌*◌, ◌/◌, ◌%◌, ◌≤◌, ◌<◌, true, false, ◌≡◌, ◌≢◌, refl, sym, ap, ◌∙◌, inl, inr,
  List, [], ◌∷◌, arith, ◌==◌, if◌then◌else◌, length, length-replicate, take, drop, All-take, get_or,
  Bytes, Bool-cases, All,
}
use openwrt_fm.Sms.BitWriter.Bit.{digit, bit_at}
use openwrt_fm.Sms.BitWriter.Laws.{
  IsClean, Wrote, Wrote-trans, Wrote-refl, bw_bits-Wrote, bw_septets-Wrote, bw_init-IsClean,
}
use openwrt_fm.Sms.BitWriter.{
  BitWriter, bw_init, bw_bits, bw_septets, bw_octets, udh_fill_bits, udh_septets, ud_max,
}
use openwrt_fm.Sms.Decode.Defs.{read_text}
use openwrt_fm.Sms.Decode.Unpack.{unpack-Wrote}
use openwrt_fm.Sms.Decode.UserData.{unpack}
use openwrt_fm.Sms.Encode.{bw_header, bw_udh, user_data}
use openwrt_fm.Sms.Hex.Laws.{IsByte}
use openwrt_fm.Sms.RoundTrip.Alphabet.{
  septets_of, septets_of-read, septets_of-length, septets_of-small, text_septets-Chars,
  text_of-length,
}
use openwrt_fm.Sms.Segments.Scan.{all_septets, total}
use openwrt_fm.Sms.Segments.{gsm7, SegPlan}
use openwrt_fm.Sms.Utf8.Step.{Chars, Chars-ne_zero, text_of, text_skip-Chars}

-- The bits of a list of octets.
abbrev pub octet_stream : List ℕ → ℕ → ℕ
octet_stream bs j = digit (get_or bs (j / 8) 0) (j % 8)

octet_first : (b : ℕ) (bs : List ℕ) (k : ℕ) → k < 8 → octet_stream (b ∷ bs) k ≡ digit b k
octet_first b bs k h =
    let zero_th : k / 8 ≡ 0 = omega arith in
    let place : k % 8 ≡ k = omega arith in rw (zero_th, place) refl

octet_later : (b : ℕ) (bs : List ℕ) (k : ℕ) → octet_stream (b ∷ bs) (8 + k) ≡ octet_stream bs k
octet_later b bs k =
    let next : (8 + k) / 8 ≡ suc (k / 8) = omega arith in
    let place : (8 + k) % 8 ≡ k % 8 = omega arith in rw (next, place) refl

-- The header's octets, one behind the other.
pub bw_header-Wrote :
    (udh : Bytes) (w : BitWriter)
    → IsClean w
    → w.bitpos + 8 * length udh ≤ 8 * length w.buf
    → Wrote w (bw_header w udh) (8 * length udh) (octet_stream udh)
unfolding bw_header
bw_header-Wrote [] w clean room = Wrote-refl w _ clean
bw_header-Wrote (h ∷ hdr) w clean room =
    let one = bw_bits-Wrote w h 8 clean (omega arith) in
    let more =
      bw_header-Wrote hdr (bw_bits w h 8) one.clean
        (omega (arith, one.advanced, ap (λ (t : ℕ). 8 * t) one.same_room)) in
    Wrote-trans w (bw_bits w h 8) _ 8 (8 * length hdr) _ _ _ _ (omega arith) (octet_first h hdr)
      (λ k lt. octet_later h hdr k) one more

pub bw_init-room : (bw_init.bitpos ≡ 0) × (length bw_init.buf ≡ ud_max + 16)
unfolding bw_init
bw_init-room = (refl, length-replicate {A = ℕ} (ud_max + 16) 0)

-- The header with its fill bits ends where a septet begins.
pub record Aligned (udh : Bytes) (w : BitWriter) : Type 0 where
  pub position : w.bitpos ≡ udh_septets (length udh) * 7
  pub room : length w.buf ≡ ud_max + 16
  pub clean : IsClean w
  pub kept : (j : ℕ) → j < 8 * length udh → bit_at w.buf j ≡ octet_stream udh j

pub fill-septets : (n : ℕ) → n * 8 + udh_fill_bits n ≡ udh_septets n * 7
unfolding udh_fill_bits udh_septets
fill-septets n = omega arith

pub fill_lt : (n : ℕ) → udh_fill_bits n < 7
unfolding udh_fill_bits
fill_lt n = omega arith

pub bw_udh-Aligned : (udh : Bytes) → length udh ≤ 140 → Aligned udh (bw_udh udh)
unfolding bw_udh
bw_udh-Aligned udh h =
    let start = bw_init-room in
    let header = bw_header-Wrote udh bw_init bw_init-IsClean (omega (arith, start)) in
    let whole = fill-septets (length udh) in
    let kept : (j : ℕ)
        → j < 8 * length udh
        → bit_at (bw_header bw_init udh).buf j ≡ octet_stream udh j =
      λ j lt. ap (bit_at (bw_header bw_init udh).buf) (omega (arith, start)) ∙ header.fresh j lt in
    elim (Bool-cases (length udh == 0)) [
      | inl none_sent ↦ rw none_sent (record {
        position = ground (arith, header.advanced, start, whole, fill_lt (length udh));
        room = header.same_room ∙ start.1;
        clean = header.clean;
        kept = kept;
      })
      | inr sent ↦
          let fill =
            bw_bits-Wrote (bw_header bw_init udh) 0 (udh_fill_bits (length udh)) header.clean
              (omega (arith, header.advanced, header.same_room, start, fill_lt (length udh))) in
          rw sent (record {
            position = omega (arith, fill.advanced, header.advanced, start, whole);
            room = fill.same_room ∙ header.same_room ∙ start.1;
            clean = fill.clean;
            kept = λ j lt. fill.kept j (omega (arith, header.advanced, start)) ∙ kept j lt;
          })
    ]

pub record Packed (cps : List ℕ) (udh : Bytes) (out : BitWriter × ℕ) : Type 0 where
  pub octets : bw_octets out.0 ≤ 140
  pub position : out.0.bitpos ≡ 7 * out.1
  pub room : length out.0.buf ≡ ud_max + 16
  pub bytes : All IsByte out.0.buf
  pub size : out.1 ≡ udh_septets (length udh) + total gsm7 cps
  pub kept : (j : ℕ) → j < 8 * length udh → bit_at out.0.buf j ≡ octet_stream udh j
  pub text :
      (stale : ℕ → ℕ)
      → read_text stale gsm7 (take (bw_octets out.0) out.0.buf) out.1 (length udh)
        ≡ (text_of cps, length cps)

read_septets :
    (stale : ℕ → ℕ) (cps : List ℕ) (ud : Bytes) (udl udh_len : ℕ)
    → all_septets cps ≡ true
    → All (λ cp. cp ≢ 0) cps
    → total gsm7 cps ≤ 160
    → udl ≡ udh_septets udh_len + total gsm7 cps
    → unpack (length (septets_of cps)) 0 ud (udh_septets udh_len * 7) stale false ≡ septets_of cps
    → read_text stale gsm7 ud udl udh_len ≡ (text_of cps, length cps)
unfolding read_text
read_septets stale cps ud udl udh_len has ne fits size unpacked =
    let skip : (if udh_len == 0 then 0 else udh_septets udh_len) ≡ udh_septets udh_len =
      ground (arith, fill-septets udh_len, fill_lt udh_len) in
    let count : min (udl - udh_septets udh_len) 168 ≡ length (septets_of cps) =
      omega (arith, size, septets_of-length cps) in
    rw (skip, count, unpacked)
      (septets_of-read cps [] 0 has ne (omega (arith, text_of-length cps))
        ∙ ap (λ (n : ℕ). (text_of cps, n)) (omega arith))

-- The user data of a segment in the GSM alphabet, with or without a header, fits its octets, and
-- the decoder reads back the characters of the segment.
pub user_data-Packed :
    {text : Bytes} {cps : List ℕ} (sg : SegPlan) (udh : Bytes)
    → Chars text cps
    → all_septets (take sg.chars (drop sg.offset cps)) ≡ true
    → udh_septets (length udh) + total gsm7 (take sg.chars (drop sg.offset cps)) ≤ 160
    → Packed (take sg.chars (drop sg.offset cps)) udh (user_data gsm7 text sg udh)
unfolding user_data
user_data-Packed {text} {cps} sg udh c has fits =
    let cs = take sg.chars (drop sg.offset cps) in
    let here = text_skip-Chars sg.offset c in
    let septets = text_septets-Chars sg.chars here in
    let size = septets_of-length cs in
    let whole = fill-septets (length udh) in
    let front = bw_udh-Aligned udh (omega (arith, whole)) in
    let sent =
      bw_septets-Wrote (septets_of cs) (bw_udh udh) front.clean
        (omega (arith, front.position, front.room, size)) in
    let w = bw_septets (bw_udh udh) (septets_of cs) in
    let used : bw_octets w ≡ (w.bitpos + 7) / 8 = unfold bw_octets in refl in
    let all_in : w.bitpos ≤ 1120 = omega (arith, sent.advanced, front.position, size) in
    let read = λ (stale : ℕ → ℕ).
      unpack-Wrote (bw_udh udh) w (septets_of cs) stale sent (septets_of-small cs)
        (omega (arith, all_in, sent.same_room, front.room)) in
    rw septets (record {
      octets = omega (arith, used, all_in);
      position = omega (arith, sent.advanced, front.position);
      room = sent.same_room ∙ front.room;
      bytes = sent.clean.bytes;
      size = omega (arith, size);
      kept = λ j lt. sent.kept j (omega (arith, front.position, whole)) ∙ front.kept j lt;
      text = λ stale.
          read_septets stale cs _ _ (length udh) has
            (All-take (λ cp. cp ≢ 0) sg.chars _ (Chars-ne_zero here)) (omega arith)
            (omega (arith, size))
            (sym (
                ap (λ p. unpack (length (septets_of cs)) 0 (take (bw_octets w) w.buf) p stale false)
                  front.position)
              ∙ read stale);
    })
