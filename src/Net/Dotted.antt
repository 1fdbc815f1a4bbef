-- ===== src/Net/Dotted.antt =====
-- fm160d/src/net.c: `fm160_net_addr_ok` on addresses without a colon.
pub mod Sound
use mathlib.Core.Path.{subst}
use openwrt_fm.Net.Address.{addr4_loop, fm160_net_addr_ok}
use openwrt_fm.Text.{is_num, contains, decimal}
use openwrt_fm.Text.Decimal.{decimal_head, decimal-digit, decimal-next}
use openwrt_fm.Base.{
  ℕ, suc, ◌+◌, ◌-◌, ◌*◌, ◌/◌, ◌%◌, ◌≤◌, ◌<◌, true, false, ◌≡◌, ◌≢◌, ◌↔◌, ◌⊎◌, refl, sym, ap, ◌∙◌,
  inl, inr, [], ◌∷◌, arith, ◌==◌, ltb, Bytes, Bool-cases, ==_iff,
}
pub use openwrt_fm.Net.Dotted.Sound.{OctetThen}
use openwrt_fm.Net.Dotted.Sound.{
  Octets, no_more, dotted, IsInside, digit_of, step_start, step_dot, step_end, no_octet,
  start-IsInside, octet_more,
}

-- What the loop accepts inside an octet is the rest of the octet and those behind it.
inside_sound :
    (octet dots digits first : ℕ) (s : Bytes)
    → IsInside octet digits first
    → addr4_loop octet dots digits first s ≡ true
    → (k : ℕ) × ((dots + k ≡ 3) × OctetThen k (decimal octet s))
inside_sound octet dots digits first [] i ok =
    let ends = step_end octet dots digits first ok in
    (
      0,
      (
        omega (arith, ends),
        record { octet = octet; rest = []; bounded = i.bounded; prints = refl; others = no_more },
      ),
    )
inside_sound octet dots digits first (c ∷ []) i ok = elim (Bool-cases (c == b'.')) [
  | inl dot ↦
      let after = step_dot octet dots digits first c [] dot ok in
      absurd (let ends = no_octet 0 (dots + 1) first in cc)
  | inr other ↦ octet_more octet dots digits first c [] i other ok (inside_sound _ _ _ _ [])
]
inside_sound octet dots digits first (c ∷ c' ∷ s) i ok = elim (Bool-cases (c == b'.')) [
  | inl dot ↦
      let after = step_dot octet dots digits first c (c' ∷ s) dot ok in
      let (num, more) = step_start (dots + 1) first c' s after in
      let (low, same) = digit_of c' num in
      let (k, (count, r)) =
        inside_sound (c' - b'0') (dots + 1) 1 (c' - b'0') s (start-IsInside (c' - b'0') low) more in
      let text : c ∷ c' ∷ s ≡ b'.' ∷ decimal r.octet r.rest =
        ap (λ x. x ∷ c' ∷ s) ((==_iff c b'.').0 dot)
        ∙ ap (λ x. b'.' ∷ x ∷ s) same
        ∙ ap (λ (x : Bytes). b'.' ∷ x) (sym (decimal-digit (c' - b'0') s low) ∙ r.prints) in
      (
        suc k,
        (
          omega (arith, count),
          record {
            octet = octet;
            rest = c ∷ c' ∷ s;
            bounded = i.bounded;
            prints = refl;
            others = subst (Octets (suc k)) (sym text) (dotted r.octet r.bounded r.others);
          },
        ),
      )
  | inr other ↦
      octet_more octet dots digits first c (c' ∷ s) i other ok (inside_sound _ _ _ _ (c' ∷ s))
]

start_step :
    (dots first d : ℕ) (s : Bytes)
    → d < 10
    → addr4_loop 0 dots 0 first ((b'0' + d) ∷ s) ≡ addr4_loop d dots 1 d s
unfolding addr4_loop
start_step dots first d s low = ground arith

inside_step :
    (octet dots digits first d : ℕ) (s : Bytes)
    → d < 10
    → 0 < digits
    → digits < 3
    → octet * 10 + d ≤ 255
    → first ≢ 0
    → addr4_loop octet dots digits first ((b'0' + d) ∷ s)
      ≡ addr4_loop (octet * 10 + d) dots (digits + 1) first s
unfolding addr4_loop
inside_step octet dots digits first d s low some few le f = ground arith

-- An octet is read to its end.
read_octet :
    (n dots first : ℕ) (t : Bytes)
    → n ≤ 255
    → (digits : ℕ) × ((first' : ℕ) × ((0 < digits)
          × (addr4_loop 0 dots 0 first (decimal n t) ≡ addr4_loop n dots digits first' t)))
read_octet n dots first t le = elim (Bool-cases (ltb n 10)) [
  | inl one ↦
      let low : n < 10 = ground arith in
      (
        1,
        (
          n,
          (
            omega arith,
            ap (addr4_loop 0 dots 0 first) (decimal-digit n t low) ∙ start_step dots first n t low,
          ),
        ),
      )
  | inr more ↦
      let a = n / 10 in
      let b = n % 10 in
      let whole : a * 10 + b ≡ n = omega arith in
      let positive : 0 < a = ground arith in
      let shape = ap (λ x. decimal x t) (sym whole) ∙ decimal-next a b t positive (omega arith) in
      elim (Bool-cases (ltb a 10)) [
        | inl two ↦
            let low : a < 10 = ground arith in
            let nonzero : a ≢ 0 = λ e. omega arith in
            (
              2,
              (
                a,
                (
                  omega arith,
                  ap (addr4_loop 0 dots 0 first) (shape ∙ decimal-digit a ((b'0' + b) ∷ t) low)
                      ∙ start_step dots first a ((b'0' + b) ∷ t) low
                      ∙ inside_step a dots 1 a b t (omega arith) (omega arith) (omega arith)
                          (omega arith) nonzero
                      ∙ ap (λ x. addr4_loop x dots 2 a t) whole,
                ),
              ),
            )
        | inr three ↦
            let h = a / 10 in
            let m = a % 10 in
            let whole' : h * 10 + m ≡ a = omega arith in
            let positive' : 0 < h = ground arith in
            let low : h < 10 = omega arith in
            let nonzero : h ≢ 0 = λ e. omega arith in
            let shape' =
              ap (λ x. decimal x ((b'0' + b) ∷ t)) (sym whole')
              ∙ decimal-next h m ((b'0' + b) ∷ t) positive' (omega arith)
              ∙ decimal-digit h ((b'0' + m) ∷ (b'0' + b) ∷ t) low in
            (
              3,
              (
                h,
                (
                  omega arith,
                  ap (addr4_loop 0 dots 0 first) (shape ∙ shape')
                      ∙ start_step dots first h ((b'0' + m) ∷ (b'0' + b) ∷ t) low
                      ∙ inside_step h dots 1 h m ((b'0' + b) ∷ t) (omega arith) (omega arith)
                          (omega arith) (omega arith) nonzero
                      ∙ ap (λ x. addr4_loop x dots 2 h ((b'0' + b) ∷ t)) whole'
                      ∙ inside_step a dots 2 h b t (omega arith) (omega arith) (omega arith)
                          (omega arith) nonzero
                      ∙ ap (λ x. addr4_loop x dots 3 h t) whole,
                ),
              ),
            )
      ]
]

at_end :
    (octet dots digits first : ℕ)
    → 0 < digits
    → dots ≡ 3
    → addr4_loop octet dots digits first [] ≡ true
unfolding addr4_loop
at_end octet dots digits first some_digit three = ground arith

at_dot :
    (octet dots digits first : ℕ) (s : Bytes)
    → 0 < digits
    → addr4_loop octet dots digits first (b'.' ∷ s) ≡ addr4_loop 0 (dots + 1) 0 first s
unfolding addr4_loop
at_dot octet dots digits first s some_digit = ground arith

others_accepted :
    {k : ℕ} {t : Bytes}
    → (octet dots digits first : ℕ) → 0 < digits
    → dots + k ≡ 3
    → Octets k t
    → addr4_loop octet dots digits first t ≡ true
others_accepted octet dots digits first some_digit count no_more =
    at_end octet dots digits first some_digit (omega (arith, count))
others_accepted octet dots digits first some_digit count (dotted {s = s} n le o) =
    let (digits', (first', (some', same))) = read_octet n (dots + 1) first s le in
    at_dot octet dots digits first (decimal n s) some_digit
    ∙ same
    ∙ others_accepted n (dots + 1) digits' first' some' (omega (arith, count)) o

quad_accepted : (s : Bytes) → OctetThen 3 s → addr4_loop 0 0 0 0 s ≡ true
quad_accepted s q =
    let (digits, (first, (some', same))) = read_octet q.octet 0 0 q.rest q.bounded in
    ap (addr4_loop 0 0 0 0) q.prints
    ∙ same
    ∙ others_accepted q.octet 0 digits first some' refl q.others

quad_sound : (c : ℕ) (s : Bytes) → addr4_loop 0 0 0 0 (c ∷ s) ≡ true → OctetThen 3 (c ∷ s)
quad_sound c s ok =
    let (num, more) = step_start 0 0 c s ok in
    let (low, same) = digit_of c num in
    let (k, (count, r)) =
      inside_sound (c - b'0') 0 1 (c - b'0') s (start-IsInside (c - b'0') low) more in
    let three : k ≡ 3 = omega (arith, count) in
    record {
      octet = r.octet;
      rest = r.rest;
      bounded = r.bounded;
      prints = ap (λ x. x ∷ s) same ∙ sym (decimal-digit (c - b'0') s low) ∙ r.prints;
      others = subst (λ n. Octets n r.rest) three r.others;
    }

empty_quad : OctetThen 3 [] → ⊥
empty_quad q =
    let (d, (rest, (low, (eq, size)))) = decimal_head q.octet q.rest in
    let ends = q.prints ∙ eq in cc

-- A text without a colon is accepted exactly when it is four numbers up to 255, printed in decimal
-- without leading zeros, with a dot between each two.
pub addr_ok_iff :
    (s : Bytes) → contains (b':' ∷ []) s ≡ false → (fm160_net_addr_ok s ≡ true) ↔ OctetThen 3 s
unfolding fm160_net_addr_ok
addr_ok_iff [] h = (λ ok. absurd (cc), λ q. absurd (empty_quad q))
addr_ok_iff (c ∷ s) h = rw h (quad_sound c s, quad_accepted (c ∷ s))
