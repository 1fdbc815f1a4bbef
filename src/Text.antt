-- ===== src/Text.antt =====
-- What the daemon's text parsers share: the functions of the C library that they call, on C strings
-- without their NUL, and `ltrim`, which fm160d/src/net.c and fm160d/src/usbmode.c both have. A
-- pointer into a string is the rest of the string from there.
pub mod Decimal
pub mod Scan
use openwrt_fm.Base.{
  ℕ, zero, suc, ◌+◌, ◌-◌, ◌*◌, ◌/◌, ◌%◌, Bool, true, false, not, ◌&&◌, ◌||◌, List, [], ◌∷◌, ◌++◌,
  Option, none, some, ◌==◌, ltb, leb, if◌then◌else◌, Bytes, length,
}

abbrev pub is_num : ℕ → Bool
is_num c = leb b'0' c && leb c b'9'

abbrev pub is_blank : ℕ → Bool
is_blank c = c == b' ' || c == 9

-- A line ends at CR or LF.
abbrev pub is_eol : ℕ → Bool
is_eol c = c == 13 || c == 10

unfoldable pub ltrim : Bytes → Bytes
ltrim [] = []
ltrim (c ∷ s) = let rest = ltrim s in if is_blank c then rest else c ∷ s

-- The text in front of the first byte that `stops` holds of, and the text from there: `strcspn`.
unfoldable pub span_to : (ℕ → Bool) → Bytes → Bytes × Bytes
span_to stops [] = ([], [])
span_to stops (c ∷ s) =
    let rest = span_to stops s in if stops c then ([], c ∷ s) else (c ∷ rest.0, rest.1)

-- `strcmp` as a test for equality.
unfoldable pub same_text : Bytes → Bytes → Bool
same_text [] [] = true
same_text [] (b ∷ bs) = false
same_text (c ∷ cs) [] = false
same_text (c ∷ cs) (b ∷ bs) = c == b && same_text cs bs

-- The text behind `token`, where the string opens with it: `strncmp` over the token's length.
unfoldable pub behind : Bytes → Bytes → Option Bytes
behind [] s = some s
behind (t ∷ ts) [] = none
behind (t ∷ ts) (c ∷ s) = let rest = behind ts s in if t == c then rest else none

abbrev pub lower : ℕ → ℕ
lower c = if leb b'A' c && leb c b'Z' then c + 32 else c

-- `strcasecmp` as a test for equality.
unfoldable pub same_ignoring_case : Bytes → Bytes → Bool
same_ignoring_case [] [] = true
same_ignoring_case [] (b ∷ bs) = false
same_ignoring_case (c ∷ cs) [] = false
same_ignoring_case (c ∷ cs) (b ∷ bs) = lower c == lower b && same_ignoring_case cs bs

-- `strstr` as a test.
unfoldable pub contains : Bytes → Bytes → Bool
contains word [] = elim word [ [] ↦ true | _ ↦ false ]
contains word (c ∷ s) = elim (behind word (c ∷ s)) [ some _ ↦ true | none ↦ contains word s ]

-- `strtol` from a digit, in base 10: the value, and the text where it stops. Most
-- readers compare the value with small bounds, so that `LONG_MAX` is not written out here.
unfoldable pub digits_loop : ℕ → Bytes → ℕ × Bytes
digits_loop value [] = (value, [])
digits_loop value (c ∷ s) =
    let more = digits_loop (value * 10 + (c - b'0')) s in if is_num c then more else (value, c ∷ s)

abbrev pub strtol : Bytes → ℕ × Bytes
strtol s = digits_loop 0 s

-- `%d` of a number that is not negative, in front of `tail`.
unfoldable pub decimal_loop : ℕ → ℕ → Bytes → Bytes
decimal_loop zero n tail = tail
decimal_loop (suc fuel) n tail =
    let more = decimal_loop fuel (n / 10) ((b'0' + n % 10) ∷ tail) in
    if ltb n 10 then (b'0' + n) ∷ tail else more

-- One step more than the number itself: each step divides by ten.
abbrev pub decimal : ℕ → Bytes → Bytes
decimal n tail = decimal_loop (suc n) n tail

-- The text behind the first LF, if there is one.
unfoldable pub next_line : Bytes → Option Bytes
next_line [] = none
next_line (c ∷ s) = let rest = next_line s in if c == 10 then some s else rest

-- The walk over lines that net.c and usbmode.c write the same way: what `at` finds at the start of the
-- first line where it finds something. On fuel, one step for each line.
unfoldable pub walk_lines {ℓ} : {A : Type ℓ} → (Bytes → Option A) → ℕ → Bytes → Option A
walk_lines at zero p = none
walk_lines at (suc fuel) [] = none
walk_lines at (suc fuel) (c ∷ p) = elim (at (c ∷ p)) [
  | some found ↦ some found
  | none ↦ elim (next_line (c ∷ p)) [ none ↦ none | some q ↦ walk_lines at fuel q ]
]

-- A text has no more lines than bytes.
abbrev pub first_line {ℓ} : {A : Type ℓ} → (Bytes → Option A) → Bytes → Option A
first_line at p = walk_lines at (length p) p

-- The library's integers over the native numbers.
pub data ℤ : Type 0 where
  pos negsuc : ℕ → ℤ

abbrev negate : ℕ → ℤ
negate zero = pos 0
negate (suc n) = negsuc n

-- `isspace`.
abbrev is_space : ℕ → Bool
is_space c = c == b' ' || (leb 9 c && leb c 13)

unfoldable pub skip_space : Bytes → Bytes
skip_space [] = []
skip_space (c ∷ s) = let rest = skip_space s in if is_space c then rest else c ∷ s

unfoldable pub signed : Bytes → ℤ
signed [] = pos 0
signed (c ∷ s) =
    if c == b'-'
    then negate (strtol s).0
    else if c == b'+'
    then pos (strtol s).0
    else pos (strtol (c ∷ s)).0

-- `atoi`, of a value that an `int` holds.
unfoldable pub atoi : Bytes → ℤ
atoi s = signed (skip_space s)
