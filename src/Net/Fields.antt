-- ===== src/Net/Fields.antt =====
-- fm160d/src/net.c: the fields of an answer, `csv_field`, `split_csv`, `tag_line` and `find_tagged`.
use openwrt_fm.Net.{net_addr_max}
use openwrt_fm.Text.{is_eol, ltrim, behind, first_line}
use openwrt_fm.Base.{
  ℕ, zero, suc, ◌+◌, Bool, true, ◌||◌, List, [], ◌∷◌, Option, none, some, ◌==◌, ltb, if◌then◌else◌,
  Bytes, length,
}

-- A byte is stored while the buffer has room; `n` bytes are in it.
abbrev pub kept : ℕ → ℕ → ℕ → Bytes → Bytes
kept outlen n c out = if ltb (n + 1) outlen then c ∷ out else out

abbrev pub stored : ℕ → ℕ → ℕ
stored outlen n = if ltb (n + 1) outlen then n + 1 else n

-- The loop behind an opening quote: what is stored from here on, and the text behind the closing one.
unfoldable pub quoted_loop : ℕ → ℕ → Bytes → Option (Bytes × Bytes)
quoted_loop outlen n [] = none
quoted_loop outlen n (c ∷ s) =
    let rest = quoted_loop outlen (stored outlen n) s in
    if is_eol c
    then none
    else if c == b'"'
    then some ([], s)
    else elim rest [ none ↦ none | some (out, p) ↦ some (kept outlen n c out, p) ]

-- The loop over a field without quotes.
unfoldable pub bare_loop : ℕ → ℕ → Bytes → Bytes × Bytes
bare_loop outlen n [] = ([], [])
bare_loop outlen n (c ∷ s) =
    let rest = bare_loop outlen (stored outlen n) s in
    if c == b',' || is_eol c then ([], c ∷ s) else (kept outlen n c rest.0, rest.1)

unfoldable pub skip_comma : Bytes → Bytes
skip_comma [] = []
skip_comma (c ∷ s) = if c == b',' then s else c ∷ s

-- The field and the text behind it; `outlen` is not 0.
unfoldable pub csv_field : ℕ → Bytes → Option (Bytes × Bytes)
csv_field outlen [] = some ([], [])
csv_field outlen (c ∷ s) =
    if c == b'"'
    then elim (quoted_loop outlen 0 s) [ none ↦ none | some (out, p) ↦ some (out, skip_comma p) ]
    else let (out, p) = bare_loop outlen 0 (c ∷ s) in some (out, skip_comma p)

abbrev pub is_over : Bytes → Bool
is_over [] = true
is_over (c ∷ s) = is_eol c

-- The loop of `split_csv`, on fuel: the fields kept from here on, of which `n` are kept already, and
-- how many are seen.
unfoldable pub split_loop : ℕ → ℕ → ℕ → Bytes → Option (List Bytes × ℕ)
split_loop zero max n line = none
split_loop (suc fuel) max n line =
    if is_over line then some ([], 0) else elim (csv_field net_addr_max line) [
      | none ↦ none
      | some (field, rest) ↦ elim (split_loop fuel max (if ltb n max then n + 1 else n) rest) [
        | none ↦ none
        | some (fields, seen) ↦ some (if ltb n max then field ∷ fields else fields, seen + 1)
      ]
    ]

-- A field takes a byte at least. The -1 is `none`.
unfoldable pub split_csv : ℕ → Bytes → Option (List Bytes × ℕ)
split_csv max line = split_loop (suc (length (ltrim line))) max 0 (ltrim line)

-- The text behind the token and an optional colon.
abbrev pub skip_colon : Bytes → Bytes
skip_colon [] = []
skip_colon (c ∷ s) = if c == b':' then s else c ∷ s

unfoldable pub tag_line : Bytes → Bytes → Option Bytes
tag_line p tok = elim (behind tok p) [ none ↦ none | some rest ↦ some (ltrim (skip_colon rest)) ]

unfoldable pub find_tagged : Bytes → Bytes → Option Bytes
find_tagged resp tok = first_line (λ line. tag_line (ltrim line) tok) resp
