-- ===== src/Atq/Replies.antt =====
-- fm160d/src/atq.c: the helpers that read a response, `fm160_resp_error`, `fm160_resp_ok`,
-- `fm160_resp_find` and `fm160_resp_lines`. A response that is not there is NULL in C and `none` here.
pub mod Search
pub mod Value
pub mod FirstValue
use openwrt_fm.Text.{is_eol, behind, contains, span_to}
use openwrt_fm.Base.{
  ℕ, zero, suc, ◌+◌, ◌-◌, Bool, true, false, not, ◌||◌, List, [], ◌∷◌, Option, none, some, ◌==◌,
  if◌then◌else◌, take, drop, Bytes, codes, length,
}

-- `FM160_STR_MAX`.
abbrev pub str_max : ℕ
str_max = 96

unfoldable pub fm160_resp_error : Option Bytes → Bool
fm160_resp_error none = true
fm160_resp_error (some resp) = contains (codes "ERROR") resp

unfoldable pub fm160_resp_ok : Option Bytes → Bool
fm160_resp_ok none = false
fm160_resp_ok (some resp) =
    if fm160_resp_error (some resp) then false else contains (codes "OK") resp

abbrev pub is_value_sep : ℕ → Bool
is_value_sep c = c == b':' || c == b' ' || c == 9

-- The character behind the prefix does not go on with the token.
abbrev pub token_over : Bytes → Bool
token_over [] = true
token_over (c ∷ v) = is_value_sep c || is_eol c

unfoldable pub skip_value_seps : Bytes → Bytes
skip_value_seps [] = []
skip_value_seps (c ∷ v) = let rest = skip_value_seps v in if is_value_sep c then rest else c ∷ v

-- The search with `strstr` from a place on, of which `fresh` says whether it is the start of a line. A
-- place where the prefix stands is passed by where it is none, and where the token goes on.
unfoldable pub find_value : Bytes → Bool → Bytes → Option Bytes
find_value prefix fresh [] = elim (behind prefix []) [
  | none ↦ none
  | some v ↦
      if not fresh then none else if not (token_over v) then none else some (skip_value_seps v)
]
find_value prefix fresh (c ∷ p) =
    let later = find_value prefix (c == 10) p in
    elim (behind prefix (c ∷ p)) [
      | none ↦ later
      | some v ↦
          if not fresh
          then later
          else if not (token_over v)
          then later
          else some (skip_value_seps v)
    ]

-- The value ends with the line, and is cut to the buffer.
abbrev pub cut_line : ℕ → Bytes → Bytes
cut_line outlen v = take (outlen - 1) (span_to is_eol v).0

unfoldable pub fm160_resp_find : Option Bytes → Bytes → ℕ → Option Bytes
fm160_resp_find none prefix outlen = none
fm160_resp_find (some resp) prefix outlen = elim (find_value prefix true resp) [
  | none ↦ none
  | some v ↦ some (cut_line outlen v)
]

-- The loop of `fm160_resp_lines`, with room for `max` values more. The search goes on behind what was
-- copied of the line, in the middle of it.
unfoldable pub lines_loop : ℕ → Bytes → Bool → Bytes → List Bytes
lines_loop zero prefix fresh p = []
lines_loop (suc max) prefix fresh p = elim (find_value prefix fresh p) [
  | none ↦ []
  | some v ↦ cut_line str_max v ∷ lines_loop max prefix false (drop (length (cut_line str_max v)) v)
]
