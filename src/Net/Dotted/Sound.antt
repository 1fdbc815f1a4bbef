-- ===== src/Net/Dotted/Sound.antt =====
-- fm160d/src/net.c, `fm160_net_addr_ok` on texts without a colon: numbers with dots, and the rounds of the loop.
use openwrt_fm.Net.Address.{addr4_loop}
use openwrt_fm.Text.{is_num, decimal}
use openwrt_fm.Text.Decimal.{decimal-next}
use openwrt_fm.Base.{
  ℕ, suc, ◌+◌, ◌-◌, ◌*◌, ◌≤◌, ◌<◌, true, false, ◌≡◌, ◌≢◌, ◌⊎◌, refl, sym, ap, ◌∙◌, inl, inr, [],
  ◌∷◌, arith, ◌==◌, Bytes,
}

-- `dots` octets, each behind its dot.
pub data Octets : ℕ → Bytes → Type 0 where
  no_more : Octets 0 []
  dotted :
      {k : ℕ} {s : Bytes} → (n : ℕ) → n ≤ 255 → Octets k s → Octets (suc k) (b'.' ∷ decimal n s)

-- An octet and the ones behind it.
pub record OctetThen (k : ℕ) (s : Bytes) : Type 0 where
  pub octet : ℕ
  pub rest : Bytes
  pub bounded : octet ≤ 255
  pub prints : s ≡ decimal octet rest
  pub others : Octets k rest

-- The state of the loop inside an octet that has a digit at least.
pub record IsInside (octet digits first : ℕ) : Type 0 where
  pub some_digit : 0 < digits
  pub bounded : octet ≤ 255
  pub leading : (digits ≡ 1) ⊎ (0 < octet)
  pub start : (digits ≡ 1) → octet ≡ first
  pub padded : first ≡ 0 → digits ≡ 1

pub digit_of : (c : ℕ) → is_num c ≡ true → (c - b'0' < 10) × (c ≡ b'0' + (c - b'0'))
digit_of c h = (ground arith, ground arith)

-- What a step inside an octet asks for.
pub step_inside :
    (octet dots digits first c : ℕ) (s : Bytes)
    → 0 < digits
    → c == b'.' ≡ false
    → addr4_loop octet dots digits first (c ∷ s) ≡ true
    → (is_num c ≡ true)
      × ((octet * 10 + (c - b'0') ≤ 255)
          × ((first ≢ 0) × (addr4_loop (octet * 10 + (c - b'0')) dots (digits + 1) first s ≡ true)))
unfolding addr4_loop
step_inside octet dots digits first c s h dot ok = ground arith

pub step_start :
    (dots first c : ℕ) (s : Bytes)
    → addr4_loop 0 dots 0 first (c ∷ s) ≡ true
    → (is_num c ≡ true) × (addr4_loop (c - b'0') dots 1 (c - b'0') s ≡ true)
unfolding addr4_loop
step_start dots first c s ok = ground arith

pub step_dot :
    (octet dots digits first c : ℕ) (s : Bytes)
    → c == b'.' ≡ true
    → addr4_loop octet dots digits first (c ∷ s) ≡ true
    → addr4_loop 0 (dots + 1) 0 first s ≡ true
unfolding addr4_loop
step_dot octet dots digits first c s dot ok = ground arith

pub step_end :
    (octet dots digits first : ℕ) → addr4_loop octet dots digits first [] ≡ true → dots ≡ 3
unfolding addr4_loop
step_end octet dots digits first ok = ground arith

pub no_octet : (octet dots first : ℕ) → addr4_loop octet dots 0 first [] ≡ false
unfolding addr4_loop
no_octet octet dots first = refl

pub start-IsInside : (d : ℕ) → d < 10 → IsInside d 1 d
start-IsInside d h = record {
  some_digit = omega arith;
  bounded = omega arith;
  leading = inl refl;
  start = λ e. refl;
  padded = λ e. refl;
}

pub pos_of : (n : ℕ) → n ≢ 0 → 0 < n
pos_of n h = ground arith

pub next-IsInside :
    (octet digits first d : ℕ)
    → IsInside octet digits first
    → first ≢ 0
    → octet * 10 + d ≤ 255
    → (0 < octet) × IsInside (octet * 10 + d) (digits + 1) first
next-IsInside octet digits first d i f le =
    let positive : 0 < octet = elim i.leading [
      | inl one ↦ omega (arith, i.start one, pos_of first f)
      | inr p ↦ p
    ] in
    (
      positive,
      record {
        some_digit = omega arith;
        bounded = le;
        leading = inr (omega (arith, positive));
        start = λ e. absurd (omega (arith, e, i.some_digit));
        padded = λ e. absurd (f e);
      },
    )

-- One digit more, where the claim holds of what is behind it.
pub octet_more :
    (octet dots digits first c : ℕ) (s : Bytes)
    → IsInside octet digits first
    → c == b'.' ≡ false
    → addr4_loop octet dots digits first (c ∷ s) ≡ true
    → (IsInside (octet * 10 + (c - b'0')) (digits + 1) first
        → addr4_loop (octet * 10 + (c - b'0')) dots (digits + 1) first s ≡ true
        → (k : ℕ) × ((dots + k ≡ 3) × OctetThen k (decimal (octet * 10 + (c - b'0')) s)))
    → (k : ℕ) × ((dots + k ≡ 3) × OctetThen k (decimal octet (c ∷ s)))
octet_more octet dots digits first c s i other ok behind_it =
    let (num, (le, (f, more))) = step_inside octet dots digits first c s i.some_digit other ok in
    let (low, same) = digit_of c num in
    let (positive, i') = next-IsInside octet digits first (c - b'0') i f le in
    let (k, (count, r)) = behind_it i' more in
    let shape =
      ap (λ x. decimal octet (x ∷ s)) same ∙ sym (decimal-next octet (c - b'0') s positive low) in
    (
      k,
      (
        count,
        record {
          octet = r.octet;
          rest = r.rest;
          bounded = r.bounded;
          prints = shape ∙ r.prints;
          others = r.others;
        },
      ),
    )
