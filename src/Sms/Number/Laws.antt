-- ===== src/Sms/Number/Laws.antt =====
-- What `sms_number_clean` accepts and returns, by a description that keeps no state.
use mathlib.Core.List.{append-nil, append_assoc}
use openwrt_fm.Base.{
  ℕ, zero, suc, ◌+◌, ◌≤◌, ◌<◌, Bool, true, false, not, ◌&&◌, ◌||◌, ◌≡◌, ◌↔◌, refl, sym, ap, ap₂,
  ◌∙◌, inl, inr, [], ◌∷◌, ◌++◌, arith, ◌==◌, ltb, if◌then◌else◌, length, Bytes, Bool-cases, All,
  length-append,
}
use openwrt_fm.Base.Result.{Result, einval, ok, err}
use openwrt_fm.Sms.Bcd.Laws.{IsDigit}
use openwrt_fm.Sms.Number.{
  is_digit, is_formatting, number_clean_loop, sms_number_clean, all_digits, sms_number_plausible,
}

-- The digits of the text, in order.
abbrev pub digits_of : Bytes → Bytes
digits_of [] = []
digits_of (c ∷ text) = let rest = digits_of text in if is_digit c then c ∷ rest else rest

-- Every character is a digit, a `+` or formatting.
abbrev pub all_allowed : Bytes → Bool
all_allowed [] = true
all_allowed (c ∷ text) = (c == b'+' || is_digit c || is_formatting c) && all_allowed text

-- A `+` stands before the first digit.
abbrev pub leads_plus : Bytes → Bool
leads_plus [] = false
leads_plus (c ∷ text) =
    let rest = leads_plus text in if c == b'+' then true else if is_digit c then false else rest

abbrev pub judge : Bool → Bytes → ℕ → Bool → Result (Bytes × Bool)
judge allowed ds outlen intl =
    if allowed && ltb 0 (length ds) && ltb (length ds) outlen then ok (ds, intl) else err einval

plus_not_digit : (c : ℕ) → c ≡ b'+' → is_digit c ≡ false
unfolding is_digit
plus_not_digit c e = ground arith

plus_flag :
    (z intl l : Bool) → ((if z && not intl then true else intl) || (z && l)) ≡ (intl || (z && true))
plus_flag z intl l = ground arith

digit_flag : (z intl l : Bool) → z ≡ false → (intl || (z && l)) ≡ intl
digit_flag z intl l e = ground arith

no_flag : (z intl : Bool) → (intl || (z && false)) ≡ intl
no_flag z intl = ground arith

judge_full :
    (ds : Bytes) (outlen : ℕ) (a f : Bool) → outlen ≤ length ds → judge a ds outlen f ≡ err einval
judge_full ds outlen a f h = ground arith

loop-judge :
    (text : Bytes) (outlen : ℕ) (out : Bytes) (intl : Bool)
    → length out < outlen
    → number_clean_loop text outlen out intl
      ≡ judge
          (all_allowed text)
          (out ++ digits_of text)
          outlen
          (intl || (length out == 0 && leads_plus text))
unfolding number_clean_loop
loop-judge [] outlen [] intl room = ground arith
loop-judge [] outlen (d ∷ ds) intl room =
    let flag = intl || (length (d ∷ ds) == 0 && leads_plus []) in
    let clean : number_clean_loop [] outlen (d ∷ ds) intl ≡ judge true (d ∷ ds) outlen flag =
      ground arith in
    clean ∙ ap (λ xs. judge true xs outlen flag) (sym (append-nil (d ∷ ds)))
loop-judge (c ∷ text) outlen out intl room = elim (Bool-cases (c == b'+')) [
  | inl plus ↦
      let flag = if length out == 0 && not intl then true else intl in
      rw (plus, plus_not_digit c (ground arith))
        (loop-judge text outlen out flag room
          ∙ ap (judge (all_allowed text) (out ++ digits_of text) outlen) (plus_flag _ intl _))
  | inr other ↦ elim (Bool-cases (is_digit c)) [
    | inl digit ↦ elim (Bool-cases (ltb outlen (length out + 2))) [
      | inl full ↦
          rw (other, digit, full)
            (sym (
              judge_full (out ++ (c ∷ digits_of text)) outlen (all_allowed text)
                (intl || (length out == 0 && false))
                (ground (arith, length-append out (c ∷ digits_of text)))))
      | inr fits ↦
          rw (other, digit, fits)
            (loop-judge text outlen (out ++ (c ∷ [])) intl
                (ground (arith, length-append out (c ∷ [])))
              ∙ ap₂ (λ xs f. judge (all_allowed text) xs outlen f)
                  (append_assoc out (c ∷ []) (digits_of text))
                  (digit_flag (length (out ++ (c ∷ [])) == 0) intl (leads_plus text)
                      (ground (arith, length-append out (c ∷ [])))
                    ∙ sym (no_flag (length out == 0) intl)))
    ]
    | inr none ↦ elim (Bool-cases (is_formatting c)) [
      | inl skip ↦ rw (other, none, skip) (loop-judge text outlen out intl room)
      | inr bad ↦ rw (other, none, bad) refl
    ]
  ]
]

-- `sms_number_clean` accepts a text exactly when each of its characters is a digit, a `+` or
-- formatting, and its digits are at least one and leave room for the NUL; it returns those digits in
-- order, and calls the number international exactly when a `+` stands before the first of them.
pub sms_number_clean-judge :
    (text : Bytes) (outlen : ℕ)
    → sms_number_clean text outlen
      ≡ judge (all_allowed text) (digits_of text) outlen (leads_plus text)
unfolding sms_number_clean
sms_number_clean-judge text zero =
    sym (judge_full (digits_of text) 0 (all_allowed text) (leads_plus text) (omega arith))
sms_number_clean-judge text (suc n) =
    let some_room : (suc n == 0) ≡ false = ground arith in
    rw some_room (loop-judge text (suc n) [] false (omega arith))

all_digits_iff : (ds : Bytes) → (all_digits ds ≡ true) ↔ All IsDigit ds
unfolding all_digits is_digit
all_digits_iff [] = (λ _. tt, λ _. refl)
all_digits_iff (d ∷ ds) = ground (arith, all_digits_iff ds)

-- A number is plausible exactly when it is from 2 to 20 bytes long and each of them is a digit.
pub sms_number_plausible_iff :
    (ds : Bytes)
    → (sms_number_plausible ds ≡ true) ↔ (2 ≤ length ds) × (length ds ≤ 20) × All IsDigit ds
unfolding sms_number_plausible
sms_number_plausible_iff ds = ground (arith, all_digits_iff ds)
