-- ===== src/Dial/Ledger/Printed.antt =====
-- fm160d/src/dialer.c: the option `reset_stamps` as a list of numbers in decimal.
use mathlib.Core.List.{append-nil, append_assoc}
use native.Mathlib.Nat.{pow-suc}
use openwrt_fm.Dial.Stamps.{
  reset_window_s, llong_max, is_comma, stamp_of, next_stamp, is_empty, ledger_count, ledger_join,
  read_stamps, noted_stamps, stamp_value,
}
use openwrt_fm.Net.ReadBack.{atoi-decimal}
use openwrt_fm.Text.Decimal.{decimal_head, decimal-append}
use openwrt_fm.Text.Scan.{span_to-decimal}
use openwrt_fm.Text.{decimal, decimal_loop, span_to, atoi}
use openwrt_fm.Base.{
  ℕ, zero, suc, ◌+◌, ◌-◌, ◌*◌, ◌/◌, ◌%◌, ◌^◌, ◌≤◌, ◌<◌, true, false, ◌&&◌, ◌||◌, ◌≡◌, refl, sym, ap,
  ◌∙◌, inl, inr, List, [], ◌∷◌, ◌++◌, arith, ◌==◌, ltb, leb, length, length-append, take, drop,
  Bool-cases, All, Bytes,
}

-- A reset of the last 24 hours.
abbrev pub IsRecent : ℕ → ℕ → Type 0
IsRecent wall_s ts = (0 < ts) × ((ts ≤ wall_s) × (wall_s - ts < 86400))

-- Numbers in decimal, with a comma between each and the next.
abbrev pub behind_comma : List ℕ → Bytes
behind_comma [] = []
behind_comma (t ∷ ts) = b',' ∷ decimal t (behind_comma ts)

abbrev pub printed : List ℕ → Bytes
printed [] = []
printed (t ∷ ts) = decimal t (behind_comma ts)

digit_no_comma : (d : ℕ) → d < 10 → is_comma (b'0' + d) ≡ false
digit_no_comma d h = ground arith

span_to-behind_comma : (ts : List ℕ) → span_to is_comma (behind_comma ts) ≡ ([], behind_comma ts)
unfolding span_to
span_to-behind_comma [] = refl
span_to-behind_comma (t ∷ ts) = refl

-- The first number, and the text behind its comma.
span_to-printed :
    (t : ℕ) (ts : List ℕ) → span_to is_comma (printed (t ∷ ts)) ≡ (decimal t [], behind_comma ts)
span_to-printed t ts =
    span_to-decimal is_comma t (behind_comma ts) [] (behind_comma ts) digit_no_comma
      (span_to-behind_comma ts)

pub stamp_of-printed : (t : ℕ) (ts : List ℕ) → t ≤ llong_max → stamp_of (printed (t ∷ ts)) ≡ t
stamp_of-printed t ts h =
    let fits : ltb llong_max t ≡ false = ground arith in
    ap (λ (r : Bytes × Bytes). stamp_value (atoi r.0)) (span_to-printed t ts)
    ∙ ap stamp_value (atoi-decimal t)
    ∙ rw fits refl

pub next_stamp-printed : (t : ℕ) (ts : List ℕ) → next_stamp (printed (t ∷ ts)) ≡ printed ts
next_stamp-printed t [] = ap (λ (r : Bytes × Bytes). drop 1 r.1) (span_to-printed t [])
next_stamp-printed t (u ∷ ts) = ap (λ (r : Bytes × Bytes). drop 1 r.1) (span_to-printed t (u ∷ ts))

pub is_empty-printed : (t : ℕ) (ts : List ℕ) → is_empty (printed (t ∷ ts)) ≡ false
is_empty-printed t ts =
    let (d, (rest, (low, (same, size)))) = decimal_head t (behind_comma ts) in ap is_empty same

count_empty : (i wall_s : ℕ) → ledger_count i wall_s [] ≡ 0
unfolding ledger_count
count_empty zero wall_s = refl
count_empty (suc i) wall_s = refl

count_recent :
    (i wall_s t : ℕ) (ts : List ℕ)
    → IsRecent wall_s t
    → wall_s ≤ llong_max
    → ledger_count (suc i) wall_s (printed (t ∷ ts)) ≡ ledger_count i wall_s (printed ts) + 1
unfolding ledger_count
count_recent i wall_s t ts h fits =
    let recent : (ltb 0 t && leb t wall_s && ltb (wall_s - t) reset_window_s) ≡ true =
      ground (arith, h) in
    rw
      (
        stamp_of-printed t ts (omega (arith, h.1.0, fits)),
        is_empty-printed t ts,
        next_stamp-printed t ts,
      )
      (rw recent refl)

-- As many numbers as the loop looks at are all counted.
pub count-printed :
    (i wall_s : ℕ) (ts : List ℕ)
    → length ts ≤ i
    → All (IsRecent wall_s) ts
    → wall_s ≤ llong_max
    → ledger_count i wall_s (printed ts) ≡ length ts
count-printed i wall_s [] le h fits = count_empty i wall_s
count-printed zero wall_s (t ∷ ts) le h fits = absurd (omega arith)
count-printed (suc i) wall_s (t ∷ ts) le h fits =
    count_recent i wall_s t ts h.0 fits
    ∙ omega (arith, count-printed i wall_s ts (omega (arith, le)) h.1 fits)

digits_bound :
    (fuel d n : ℕ) (tail : Bytes)
    → n < fuel
    → n < 10 ^ suc d
    → length (decimal_loop fuel n tail) ≤ suc d + length tail
unfolding decimal_loop
digits_bound zero d n tail h below = absurd (omega arith)
digits_bound (suc fuel) zero n tail h below =
    let small : ltb n 10 ≡ true = ground arith in rw small (omega arith)
digits_bound (suc fuel) (suc d) n tail h below = elim (Bool-cases (ltb n 10)) [
  | inl small ↦ rw small (omega arith)
  | inr large ↦
      let ten : 10 ≤ n = ground arith in
      let power = pow-suc 10 (suc d) in
      let fewer : n / 10 < 10 ^ suc d = omega (arith, power, below) in
      rw large (
        omega (
          arith,
          digits_bound fuel d (n / 10) ((b'0' + n % 10) ∷ tail) (omega (arith, ten, h)) fewer,
        ))
]

length-decimal : (n : ℕ) → n ≤ llong_max → length (decimal n []) ≤ 19
length-decimal n h = omega (arith, digits_bound (suc n) 18 n [] (omega arith) (omega arith))

-- Each takes up to nineteen digits and the comma.
length-behind_comma :
    (wall_s : ℕ) (ts : List ℕ)
    → All (IsRecent wall_s) ts
    → wall_s ≤ llong_max
    → length (behind_comma ts) ≤ 20 * length ts
length-behind_comma wall_s [] h fits = omega arith
length-behind_comma wall_s (t ∷ ts) h fits = omega (
  arith,
  ap length (decimal-append t (behind_comma ts)),
  length-append (decimal t []) (behind_comma ts),
  length-decimal t (omega (arith, h.0.1.0, fits)),
  length-behind_comma wall_s ts h.1 fits,
)

take_whole : (n : ℕ) (s : Bytes) → length s ≤ n → take n s ≡ s
take_whole zero [] h = refl
take_whole zero (c ∷ s) h = absurd (omega arith)
take_whole (suc n) [] h = refl
take_whole (suc n) (c ∷ s) h = ap (λ (t : Bytes). c ∷ t) (take_whole n s (omega (arith, h)))

join_empty : (i wall_s : ℕ) (stamps : Bytes) → ledger_join i wall_s stamps [] ≡ stamps
unfolding ledger_join
join_empty zero wall_s stamps = refl
join_empty (suc i) wall_s stamps = refl

join_recent :
    (i wall_s t : ℕ) (ts : List ℕ) (stamps : Bytes)
    → IsRecent wall_s t
    → wall_s ≤ llong_max
    → length stamps + 20 ≤ 191
    → ledger_join (suc i) wall_s stamps (printed (t ∷ ts))
      ≡ ledger_join i wall_s (stamps ++ (b',' ∷ decimal t [])) (printed ts)
unfolding ledger_join
join_recent i wall_s t ts stamps h fits room =
    let here = length-decimal t (omega (arith, h.1.0, fits)) in
    let recent : (t == 0 || leb reset_window_s (wall_s - t)) ≡ false = ground (arith, h) in
    let enough : leb (192 - length stamps) (length (b',' ∷ decimal t [])) ≡ false =
      ground (arith, here, room) in
    rw
      (
        stamp_of-printed t ts (omega (arith, h.1.0, fits)),
        is_empty-printed t ts,
        next_stamp-printed t ts,
      )
      (rw (recent, enough) refl)

-- Recent numbers that fit are all written again.
join-printed :
    (i wall_s : ℕ) (ts : List ℕ) (stamps : Bytes)
    → length ts ≤ i
    → All (IsRecent wall_s) ts
    → wall_s ≤ llong_max
    → length stamps + 20 * length ts ≤ 191
    → ledger_join i wall_s stamps (printed ts) ≡ stamps ++ behind_comma ts
join-printed i wall_s [] stamps le h fits room =
    join_empty i wall_s stamps ∙ sym (append-nil stamps)
join-printed zero wall_s (t ∷ ts) stamps le h fits room = absurd (omega arith)
join-printed (suc i) wall_s (t ∷ ts) stamps le h fits room =
    let text = b',' ∷ decimal t [] in
    let size = length-decimal t (omega (arith, h.0.1.0, fits)) in
    join_recent i wall_s t ts stamps h.0 fits (omega (arith, room))
    ∙ join-printed i wall_s ts (stamps ++ text) (omega (arith, le)) h.1 fits
        (omega (arith, length-append stamps text, size, room))
    ∙ append_assoc stamps text (behind_comma ts)
    ∙ ap (λ (r : Bytes). stamps ++ (b',' ∷ r)) (sym (decimal-append t (behind_comma ts)))

pub read_stamps-printed :
    (wall_s : ℕ) (ts : List ℕ)
    → length ts ≤ 8
    → All (IsRecent wall_s) ts
    → wall_s ≤ llong_max
    → read_stamps (printed ts) ≡ printed ts
read_stamps-printed wall_s [] le h fits = refl
read_stamps-printed wall_s (t ∷ ts) le h fits =
    take_whole 191 (printed (t ∷ ts))
      (omega (arith, le, length-behind_comma wall_s (t ∷ ts) h fits))

-- Up to seven recent numbers are kept behind the new one.
pub noted_stamps-printed :
    (wall_s : ℕ) (ts : List ℕ)
    → length ts ≤ 7
    → All (IsRecent wall_s) ts
    → wall_s ≤ llong_max
    → noted_stamps wall_s (printed ts) ≡ printed (wall_s ∷ ts)
noted_stamps-printed wall_s ts le h fits =
    let size = length-decimal wall_s fits in
    rw
      (
        take_whole 191 (decimal wall_s []) (omega (arith, size)),
        read_stamps-printed wall_s ts (omega (arith, le)) h fits,
      )
      (join-printed 7 wall_s ts (decimal wall_s []) le h fits (omega (arith, size, le))
        ∙ sym (decimal-append wall_s (behind_comma ts)))
