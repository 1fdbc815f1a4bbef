-- ===== src/Usb/Answer.antt =====
-- fm160d/src/usbmode.c: the parsers of the module's answers to `AT+GTUSBMODE?` and `AT+GTUSBMODE=?`. A
-- NULL pointer and the -1 of the parsers are `none`; an answer that is NULL, and no array for the
-- list, are not modelled.
pub mod Current
pub mod Listing
use openwrt_fm.Text.{is_num, is_blank, is_eol, ltrim, span_to, behind, strtol, first_line}
use openwrt_fm.Base.{
  ℕ, zero, suc, ◌+◌, ◌-◌, Bool, true, false, not, ◌&&◌, ◌||◌, List, [], ◌∷◌, ◌++◌, Option, none,
  some, ◌==◌, ltb, leb, if◌then◌else◌, Bytes, codes, length,
}

-- `SANE_MAX`.
abbrev pub sane_max : ℕ
sane_max = 255

-- What follows the token: `:`, or the end of the token.
unfoldable pub token_end : Bytes → Option Bytes
token_end [] = some []
token_end (c ∷ p) =
    if c == b':'
    then some (ltrim p)
    else if is_blank c || is_eol c
    then some (ltrim (c ∷ p))
    else none

unfoldable pub after_token : Bytes → Bytes → Option Bytes
after_token p tok = elim (behind tok p) [ none ↦ none | some rest ↦ token_end rest ]

-- The body of the loop of `usbmode_field`.
unfoldable pub field_at : Bytes → Option Bytes
field_at p = elim (after_token (ltrim p) (codes "+GTUSBMODE")) [
  | some f ↦ some f
  | none ↦ after_token (ltrim p) (codes "GTUSBMODE")
]

unfoldable pub usbmode_field : Bytes → Option Bytes
usbmode_field [] = none
usbmode_field (c ∷ s) = if c == b'(' || is_num c then some (c ∷ s) else first_line field_at (c ∷ s)

abbrev pub is_sep : ℕ → Bool
is_sep c = is_blank c || c == b','

unfoldable pub skip_seps : Bytes → Bytes
skip_seps [] = []
skip_seps (c ∷ p) = let rest = skip_seps p in if is_sep c then rest else c ∷ p

-- A number from a digit on, and the text behind it.
unfoldable pub read_number : Bytes → Option (ℕ × Bytes)
read_number [] = none
read_number (c ∷ p) = if is_num c then some (strtol (c ∷ p)) else none

-- The end of a range, which is its start where no `-` follows.
unfoldable pub read_hi : ℕ → Bytes → Option (ℕ × Bytes)
read_hi lo [] = some (lo, [])
read_hi lo (c ∷ p) = if c == b'-' then read_number p else some (lo, c ∷ p)

-- `count` numbers from `lo` on.
unfoldable pub count_up : ℕ → ℕ → List ℕ
count_up lo zero = []
count_up lo (suc count) = lo ∷ count_up (lo + 1) count

-- The loop of `fm160_usbmode_parse_list` over the text in front of `end`, on fuel: `n` numbers are in
-- `out`, and the result is what follows them.
unfoldable pub list_loop : ℕ → ℕ → ℕ → Bytes → Option (List ℕ)
list_loop zero max n p = none
list_loop (suc fuel) max n p = elim (skip_seps p) [
  | [] ↦ some []
  | c ∷ q ↦ elim (read_number (c ∷ q)) [
    | none ↦ none
    | some (lo, r) ↦ elim (read_hi lo r) [
      | none ↦ none
      | some (hi, rest) ↦
          let more = list_loop fuel max (n + (hi - lo) + 1) rest in
          if ltb hi lo || ltb sane_max hi
          then none
          else if ltb max (n + (hi - lo) + 1)
          then none
          else elim more [ none ↦ none | some ms ↦ some (count_up lo (hi - lo + 1) ++ ms) ]
    ]
  ]
]

-- A step takes a byte at least.
abbrev pub list_from : ℕ → Bytes → Option (List ℕ)
list_from max body = list_loop (suc (length body)) max 0 body

-- `strchr(p, ')')` must find something.
unfoldable pub before_close : Bytes × Bytes → Option Bytes
before_close (body, []) = none
before_close (body, close ∷ rest) = some body

-- The text in front of `end`.
unfoldable pub list_body : Bytes → Option Bytes
list_body [] = some []
list_body (c ∷ p) =
    if c == b'(' then before_close (span_to (λ x. x == b')') p) else some (span_to is_eol (c ∷ p)).0

unfoldable pub field_list : ℕ → Bytes → Option (List ℕ)
field_list max p =
    if max == 0
    then none
    else elim (list_body (ltrim p)) [ none ↦ none | some body ↦ list_from max body ]

unfoldable pub fm160_usbmode_parse_list : ℕ → Bytes → Option (List ℕ)
fm160_usbmode_parse_list max resp = elim (usbmode_field resp) [
  | none ↦ none
  | some p ↦ field_list max p
]

-- The value where nothing but blanks follows on its line.
unfoldable pub bare_number : ℕ × Bytes → Option ℕ
bare_number (v, stop) =
    if ltb sane_max v
    then none
    else elim (ltrim stop) [ [] ↦ some v | c ∷ rest ↦ if is_eol c then some v else none ]

unfoldable pub field_number : Bytes → Option ℕ
field_number p = elim (read_number (ltrim p)) [ none ↦ none | some number ↦ bare_number number ]

unfoldable pub fm160_usbmode_parse_current : Bytes → Option ℕ
fm160_usbmode_parse_current resp = elim (usbmode_field resp) [
  | none ↦ none
  | some p ↦ field_number p
]
