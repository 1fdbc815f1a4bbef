-- ===== src/Usb/Answer/Current.antt =====
-- fm160d/src/usbmode.c: `fm160_usbmode_parse_current` on what the module answers.
use openwrt_fm.Text.{
  is_num, is_blank, is_eol, ltrim, behind, strtol, next_line, walk_lines, decimal,
}
use openwrt_fm.Text.Decimal.{ltrim-decimal, Ends, strtol-decimal, decimal_head, is_num-digit}
use openwrt_fm.Usb.Answer.{
  token_end, after_token, field_at, usbmode_field, read_number, bare_number, field_number,
  fm160_usbmode_parse_current, sane_max,
}
use openwrt_fm.Base.{
  ℕ, true, false, ◌≡◌, refl, sym, ap, ◌∙◌, [], ◌∷◌, ◌++◌, none, some, arith, ltb, if◌then◌else◌,
  Bytes, codes,
}

-- The echo of a command, a line of it, and the answer.
abbrev pub answer : Bytes → Bytes → Bytes
answer echo text = echo ++ (13 ∷ 13 ∷ 10 ∷ codes "+GTUSBMODE: " ++ text)

abbrev pub echo_current : Bytes
echo_current = codes "AT+GTUSBMODE?"

abbrev pub echo_list : Bytes
echo_list = codes "AT+GTUSBMODE=?"

pub usbmode_field-current :
    (text : Bytes) → usbmode_field (answer echo_current text) ≡ some (ltrim text)
unfolding usbmode_field walk_lines field_at after_token token_end behind next_line ltrim
usbmode_field-current text = refl

pub usbmode_field-list : (text : Bytes) → usbmode_field (answer echo_list text) ≡ some (ltrim text)
unfolding usbmode_field walk_lines field_at after_token token_end behind next_line ltrim
usbmode_field-list text = refl

pub read_number-decimal :
    (n : ℕ) (tail : Bytes) → Ends is_num tail → read_number (decimal n tail) ≡ some (n, tail)
unfolding read_number
read_number-decimal n tail h =
    let (d, (rest, (low, (same, size)))) = decimal_head n tail in
    let back = sym (ap (λ (x : Bytes). strtol x) same) ∙ strtol-decimal n tail h in
    rw same (rw (is_num-digit d low) (ap some back))

-- Where the line ends.
pub data IsLineEnd : Bytes → Type 0 where
  at_end : IsLineEnd []
  at_eol : (c : ℕ) (rest : Bytes) → is_eol c ≡ true → IsLineEnd (c ∷ rest)

line_end_num : {tail : Bytes} → IsLineEnd tail → Ends is_num tail
line_end_num at_end = tt
line_end_num (at_eol c rest h) = ground arith

bare_number-line_end :
    (n : ℕ) {tail : Bytes}
    → IsLineEnd tail
    → bare_number (n, tail) ≡ (if ltb sane_max n then none else some n)
unfolding bare_number ltrim
bare_number-line_end n at_end = refl
bare_number-line_end n (at_eol c rest h) =
    let solid : is_blank c ≡ false = ground arith in rw solid (rw h refl)

parse_current_field :
    (resp p : Bytes)
    → usbmode_field resp ≡ some p
    → fm160_usbmode_parse_current resp ≡ field_number p
unfolding fm160_usbmode_parse_current
parse_current_field resp p h = rw (h, fm160_usbmode_parse_current) refl

field_number-decimal :
    (n : ℕ) {tail : Bytes}
    → IsLineEnd tail
    → field_number (decimal n tail) ≡ (if ltb sane_max n then none else some n)
unfolding field_number
field_number-decimal n {tail} h =
    rw (ltrim-decimal n tail, field_number)
      (rw (read_number-decimal n tail (line_end_num h)) (bare_number-line_end n h))

field_number-list : (list : Bytes) → field_number (b'(' ∷ list) ≡ none
unfolding field_number ltrim read_number
field_number-list list = refl

pub ltrim-paren : (list : Bytes) → ltrim (b'(' ∷ list) ≡ b'(' ∷ list
unfolding ltrim
ltrim-paren list = refl

-- Behind the echo of the question the answer with a number up to 255 at the end of its line is read as
-- that number, a larger number is refused, and an answer with a list of profiles is never read as one.
pub parse_current-answer :
    (n : ℕ) (tail list : Bytes)
    → IsLineEnd tail
    → (fm160_usbmode_parse_current (answer echo_current (decimal n tail))
        ≡ (if ltb 255 n then none else some n))
      × (fm160_usbmode_parse_current (answer echo_list (b'(' ∷ list)) ≡ none)
parse_current-answer n tail list h = (
  parse_current_field (answer echo_current (decimal n tail)) (decimal n tail)
        (usbmode_field-current (decimal n tail) ∙ ap some (ltrim-decimal n tail))
      ∙ field_number-decimal n h,
  parse_current_field (answer echo_list (b'(' ∷ list)) (b'(' ∷ list)
        (usbmode_field-list (b'(' ∷ list) ∙ ap some (ltrim-paren list))
      ∙ field_number-list list,
)
