-- ===== src/Usb/Answer/Listing.antt =====
-- fm160d/src/usbmode.c: `fm160_usbmode_parse_list` on lists of ranges as the module prints them.
use openwrt_fm.Text.{is_num, span_to, decimal}
use openwrt_fm.Text.Decimal.{Ends, decimal_head}
use openwrt_fm.Text.Scan.{span_to-decimal, span_to-pass, span_to-stop}
use openwrt_fm.Usb.Answer.Current.{
  answer, echo_list, usbmode_field-list, ltrim-paren, read_number-decimal,
}
use openwrt_fm.Usb.Answer.{
  usbmode_field, is_sep, skip_seps, read_number, read_hi, count_up, list_loop, before_close,
  list_body, field_list, fm160_usbmode_parse_list,
}
use openwrt_fm.Base.{
  ℕ, zero, suc, ◌+◌, ◌-◌, ◌≤◌, ◌<◌, Bool, false, ◌||◌, ◌≡◌, refl, sym, ap, ◌∙◌, inl, inr, List, [],
  ◌∷◌, ◌++◌, Option, none, some, arith, ◌==◌, ltb, if◌then◌else◌, Bytes, length, Bool-cases,
}

-- A range with its ends.
abbrev pub Span : Type 0
Span = ℕ × ℕ

-- One number where the ends are the same.
abbrev pub print_span : Span → Bytes → Bytes
print_span (lo, hi) tail = if lo == hi then decimal lo tail else decimal lo (b'-' ∷ decimal hi tail)

abbrev pub print_more : List Span → Bytes → Bytes
print_more [] tail = tail
print_more (s ∷ ss) tail = b',' ∷ print_span s (print_more ss tail)

abbrev pub print_spans : List Span → Bytes → Bytes
print_spans [] tail = tail
print_spans (s ∷ ss) tail = print_span s (print_more ss tail)

-- The numbers of the ranges, if every range is in order, ends at 255 and all of them have room.
abbrev pub listed : ℕ → ℕ → List Span → Option (List ℕ)
listed max n [] = some []
listed max n ((lo, hi) ∷ ss) =
    let more = listed max (n + (hi - lo) + 1) ss in
    if ltb hi lo || ltb 255 hi
    then none
    else if ltb max (n + (hi - lo) + 1)
    then none
    else elim more [ none ↦ none | some ms ↦ some (count_up lo (hi - lo + 1) ++ ms) ]

-- Behind a range: nothing, or a comma.
abbrev Parted : Bytes → Type 0
Parted [] = Unit
Parted (c ∷ p) = c ≡ b','

print_more-Parted : (ss : List Span) → Parted (print_more ss [])
print_more-Parted [] = tt
print_more-Parted (s ∷ ss) = refl

Parted-Ends : (p : Bytes) → Parted p → Ends is_num p
Parted-Ends [] h = tt
Parted-Ends (c ∷ p) h = rw h refl

skip_seps-decimal : (n : ℕ) (tail : Bytes) → skip_seps (decimal n tail) ≡ decimal n tail
unfolding skip_seps
skip_seps-decimal n tail =
    let (d, (rest, (low, (same, size)))) = decimal_head n tail in
    let solid : is_sep (b'0' + d) ≡ false = ground arith in rw same (rw solid refl)

read_hi-Parted : (lo : ℕ) (p : Bytes) → Parted p → read_hi lo p ≡ some (lo, p)
unfolding read_hi
read_hi-Parted lo [] h = refl
read_hi-Parted lo (c ∷ p) h = rw h refl

-- A range as the loop reads it.
read_span :
    (lo hi : ℕ) (p : Bytes)
    → Parted p
    → (r : Bytes) × ((skip_seps (print_span (lo, hi) p) ≡ print_span (lo, hi) p)
        × ((read_number (print_span (lo, hi) p) ≡ some (lo, r)) × (read_hi lo r ≡ some (hi, p))))
read_span lo hi p h = elim (Bool-cases (lo == hi)) [
  | inl same ↦
      let eq : lo ≡ hi = ground arith in
      (
        p,
        (
          rw same (skip_seps-decimal lo p),
          (
            rw same (read_number-decimal lo p (Parted-Ends p h)),
            read_hi-Parted lo p h ∙ ap (λ k. some (k, p)) eq,
          ),
        ),
      )
  | inr range ↦ (
    b'-' ∷ decimal hi p,
    (
      rw range (skip_seps-decimal lo _),
      (
        rw range (read_number-decimal lo _ refl),
        unfold read_hi in read_number-decimal hi p (Parted-Ends p h),
      ),
    ),
  )
]

print_span_head :
    (s : Span) (p : Bytes)
    → (c : ℕ) × ((q : Bytes) × ((print_span s p ≡ c ∷ q) × (length p ≤ length q)))
print_span_head (lo, hi) p = elim (Bool-cases (lo == hi)) [
  | inl same ↦
      let (d, (q, (low, (eq, size)))) = decimal_head lo p in (b'0' + d, (q, (rw same eq, size)))
  | inr range ↦
      let (d, (q, (low, (eq, size)))) = decimal_head lo (b'-' ∷ decimal hi p) in
      let (d', (q', (low', (eq', size')))) = decimal_head hi p in
      let longer : length p ≤ length (b'-' ∷ decimal hi p) =
        omega (arith, size', ap (λ (x : Bytes). length x) eq') in
      (b'0' + d, (q, (rw range eq, omega (arith, size, longer))))
]

-- What the loop does with a range that it has read.
abbrev taken : ℕ → ℕ → ℕ → ℕ → Option (List ℕ) → Option (List ℕ)
taken max n lo hi more =
    if ltb hi lo || ltb 255 hi
    then none
    else if ltb max (n + (hi - lo) + 1)
    then none
    else elim more [ none ↦ none | some ms ↦ some (count_up lo (hi - lo + 1) ++ ms) ]

list_loop-read :
    (fuel max n lo hi c : ℕ) (p q r rest : Bytes)
    → skip_seps p ≡ c ∷ q
    → read_number (c ∷ q) ≡ some (lo, r)
    → read_hi lo r ≡ some (hi, rest)
    → list_loop (suc fuel) max n p ≡ taken max n lo hi (list_loop fuel max (n + (hi - lo) + 1) rest)
unfolding list_loop
list_loop-read fuel max n lo hi c p q r rest h k l = rw (h, list_loop) (rw k (rw l refl))

list_loop-span :
    (fuel max n lo hi : ℕ) (p rest : Bytes)
    → skip_seps p ≡ print_span (lo, hi) rest
    → Parted rest
    → list_loop (suc fuel) max n p ≡ taken max n lo hi (list_loop fuel max (n + (hi - lo) + 1) rest)
list_loop-span fuel max n lo hi p rest h parted =
    let (c, (q, (eq, size))) = print_span_head (lo, hi) rest in
    let (r, (skips, (number, end))) = read_span lo hi rest parted in
    list_loop-read fuel max n lo hi c p q r rest (h ∙ eq)
      (ap (λ (x : Bytes). read_number x) (sym eq) ∙ number) end

list_loop-empty : (fuel max n : ℕ) → list_loop (suc fuel) max n [] ≡ some []
unfolding list_loop skip_seps
list_loop-empty fuel max n = refl

skip_seps-comma : (p : Bytes) → skip_seps (b',' ∷ p) ≡ skip_seps p
unfolding skip_seps
skip_seps-comma p = refl

list_loop-print_more :
    (ss : List Span) (fuel max n : ℕ)
    → length ss < fuel
    → list_loop fuel max n (print_more ss []) ≡ listed max n ss
list_loop-print_more ss zero max n h = absurd (omega arith)
list_loop-print_more [] (suc fuel) max n h = list_loop-empty fuel max n
list_loop-print_more ((lo, hi) ∷ ss) (suc fuel) max n h =
    let rest = print_more ss [] in
    let parted = print_more-Parted ss in
    let (r, (skips, more)) = read_span lo hi rest parted in
    list_loop-span fuel max n lo hi _ rest (skip_seps-comma _ ∙ skips) parted
    ∙ ap (taken max n lo hi)
        (list_loop-print_more ss fuel max (n + (hi - lo) + 1) (omega (arith, h)))

list_loop-print_spans :
    (ss : List Span) (fuel max n : ℕ)
    → length ss < fuel
    → list_loop fuel max n (print_spans ss []) ≡ listed max n ss
list_loop-print_spans ss zero max n h = absurd (omega arith)
list_loop-print_spans [] (suc fuel) max n h = list_loop-empty fuel max n
list_loop-print_spans ((lo, hi) ∷ ss) (suc fuel) max n h =
    let rest = print_more ss [] in
    let parted = print_more-Parted ss in
    let (r, (skips, more)) = read_span lo hi rest parted in
    list_loop-span fuel max n lo hi _ rest skips parted
    ∙ ap (taken max n lo hi)
        (list_loop-print_more ss fuel max (n + (hi - lo) + 1) (omega (arith, h)))

length-print_more : (ss : List Span) → length ss ≤ length (print_more ss [])
length-print_more [] = omega arith
length-print_more (s ∷ ss) =
    let (c, (q, (eq, size))) = print_span_head s (print_more ss []) in
    omega (arith, size, ap (λ (x : Bytes). length x) eq, length-print_more ss)

length-print_spans : (ss : List Span) → length ss ≤ length (print_spans ss [])
length-print_spans [] = omega arith
length-print_spans (s ∷ ss) =
    let (c, (q, (eq, size))) = print_span_head s (print_more ss []) in
    omega (arith, size, ap (λ (x : Bytes). length x) eq, length-print_more ss)

-- Where the list is closed.
abbrev is_close : ℕ → Bool
is_close x = x == b')'

no_close : (d : ℕ) → d < 10 → is_close (b'0' + d) ≡ false
no_close d h = ground arith

span_to-print_span :
    (s : Span) (tail inside rest : Bytes)
    → span_to is_close tail ≡ (inside, rest)
    → span_to is_close (print_span s tail) ≡ (print_span s inside, rest)
span_to-print_span (lo, hi) tail inside rest h = elim (Bool-cases (lo == hi)) [
  | inl same ↦ rw same (span_to-decimal is_close lo tail inside rest no_close h)
  | inr range ↦ rw range (
      span_to-decimal is_close lo _ (b'-' ∷ decimal hi inside) rest no_close (
        span_to-pass is_close b'-' _ (decimal hi inside) rest refl
          (span_to-decimal is_close hi tail inside rest no_close h)))
]

span_to-print_more :
    (ss : List Span) (tail : Bytes)
    → span_to is_close (print_more ss (b')' ∷ tail)) ≡ (print_more ss [], b')' ∷ tail)
span_to-print_more [] tail = span_to-stop is_close b')' tail refl
span_to-print_more (s ∷ ss) tail =
    span_to-pass is_close b',' _ (print_span s (print_more ss [])) (b')' ∷ tail) refl
      (span_to-print_span s _ (print_more ss []) (b')' ∷ tail) (span_to-print_more ss tail))

span_to-print_spans :
    (ss : List Span) (tail : Bytes)
    → span_to is_close (print_spans ss (b')' ∷ tail)) ≡ (print_spans ss [], b')' ∷ tail)
span_to-print_spans [] tail = span_to-stop is_close b')' tail refl
span_to-print_spans (s ∷ ss) tail =
    span_to-print_span s _ (print_more ss []) (b')' ∷ tail) (span_to-print_more ss tail)

list_body-print_spans :
    (ss : List Span) (tail : Bytes)
    → list_body (b'(' ∷ print_spans ss (b')' ∷ tail)) ≡ some (print_spans ss [])
unfolding list_body before_close
list_body-print_spans ss tail = rw (span_to-print_spans ss tail) refl

field_list-print_spans :
    (max : ℕ) (ss : List Span) (tail : Bytes)
    → field_list max (b'(' ∷ print_spans ss (b')' ∷ tail))
      ≡ (if max == 0 then none else listed max 0 ss)
unfolding field_list
field_list-print_spans max ss tail =
    let enough : length ss < suc (length (print_spans ss [])) =
      omega (arith, length-print_spans ss) in
    rw (field_list, ltrim-paren (print_spans ss (b')' ∷ tail)))
      (rw (list_body-print_spans ss tail)
        (rw (list_loop-print_spans ss (suc (length (print_spans ss []))) max 0 enough) refl))

parse_list_field :
    (max : ℕ) (resp p : Bytes)
    → usbmode_field resp ≡ some p
    → fm160_usbmode_parse_list max resp ≡ field_list max p
unfolding fm160_usbmode_parse_list
parse_list_field max resp p h = rw (h, fm160_usbmode_parse_list) refl

-- Behind the echo of the question any list of ranges, printed the way the module does, is read as the
-- numbers of all its ranges, in their order; it is refused as a whole where a range is out of order, a
-- number is above 255 or the numbers have no room.
pub parse_list-listed :
    (max : ℕ) (ss : List Span) (tail : Bytes)
    → fm160_usbmode_parse_list max (answer echo_list (b'(' ∷ print_spans ss (b')' ∷ tail)))
      ≡ (if max == 0 then none else listed max 0 ss)
parse_list-listed max ss tail =
    let text = print_spans ss (b')' ∷ tail) in
    parse_list_field max (answer echo_list (b'(' ∷ text)) (b'(' ∷ text)
      (usbmode_field-list (b'(' ∷ text) ∙ ap some (ltrim-paren text))
    ∙ field_list-print_spans max ss tail
