-- ===== src/Net/Commands.antt =====
-- fm160d/src/net.c: the commands that are built, and the reconnect ladder.
use mathlib.Core.Path.{subst}
use openwrt_fm.Net.{
  NetPdp, pdp_ip, pdp_ipv6, pdp_ipv4v6, fm160_net_pdp_name, apn_char, apn_chars, fm160_net_apn_ok,
  fm160_net_cid_ok, cgdcont_fields, fm160_net_apn_command, fitting, net_addr_max, net_cmd_max,
}
use openwrt_fm.Net.Fields.{
  quoted_loop, bare_loop, skip_comma, csv_field, is_over, split_loop, split_csv,
}
use openwrt_fm.Text.{is_num, is_eol, decimal}
use openwrt_fm.Text.Decimal.{
  decimal_head, length-decimal, decimal-append, decimal-All, ltrim-decimal,
}
use openwrt_fm.Base.{
  ℕ, zero, suc, ◌+◌, ◌-◌, ◌≤◌, ◌<◌, true, false, ◌||◌, ◌≡◌, refl, sym, ap, ◌∙◌, List, [], ◌∷◌, ◌++◌,
  some, arith, ◌==◌, ltb, leb, Bytes, codes, length, take, All, length-append,
}

-- No byte that ends a quoted field or its line.
abbrev pub IsPlain : ℕ → Type 0
IsPlain c = (is_eol c ≡ false) × (c == b'"' ≡ false)

apn_char-IsPlain : (c : ℕ) → apn_char c ≡ true → IsPlain c
apn_char-IsPlain c h = (ground arith, ground arith)

pub apn_chars-IsPlain : (apn : Bytes) → apn_chars apn ≡ true → All IsPlain apn
unfolding apn_chars
apn_chars-IsPlain [] h = tt
apn_chars-IsPlain (c ∷ s) h =
    (apn_char-IsPlain c (ground arith), apn_chars-IsPlain s (ground arith))

-- A quoted text is read up to its closing quote, as much of it as the buffer has room for.
quoted_loop-plain :
    (room outlen n : ℕ) (text rest : Bytes)
    → All IsPlain text
    → outlen ≡ n + 1 + room
    → quoted_loop outlen n (text ++ (b'"' ∷ rest)) ≡ some (take room text, rest)
unfolding quoted_loop
quoted_loop-plain zero outlen n [] rest h size = refl
quoted_loop-plain (suc room) outlen n [] rest h size = refl
quoted_loop-plain zero outlen n (c ∷ text) rest h size =
    let full : ltb (n + 1) outlen ≡ false = ground arith in
    rw (h.0.0, h.0.1)
      (rw full (rw (quoted_loop-plain zero outlen n text rest h.1 size) (rw full refl)))
quoted_loop-plain (suc room) outlen n (c ∷ text) rest h size =
    let free : ltb (n + 1) outlen ≡ true = ground arith in
    rw (h.0.0, h.0.1)
      (rw free (
        rw (quoted_loop-plain room outlen (n + 1) text rest h.1 (omega (arith, size)))
          (rw free refl)))

pub csv_field-quoted :
    (text rest : Bytes)
    → All IsPlain text
    → csv_field net_addr_max (b'"' ∷ (text ++ (b'"' ∷ rest))) ≡ some (take 63 text, skip_comma rest)
unfolding csv_field
csv_field-quoted text rest h = rw (quoted_loop-plain 63 64 0 text rest h refl) refl

-- A number is read up to the comma.
bare_loop-digits :
    (outlen n : ℕ) (text rest : Bytes)
    → All (λ c. is_num c ≡ true) text
    → n + length text < outlen
    → bare_loop outlen n (text ++ (b',' ∷ rest)) ≡ (text, b',' ∷ rest)
unfolding bare_loop
bare_loop-digits outlen n [] rest h room = refl
bare_loop-digits outlen n (c ∷ text) rest h room =
    let inside : (c == b',' || is_eol c) ≡ false = ground (arith, h.0) in
    let free : ltb (n + 1) outlen ≡ true = ground arith in
    rw inside
      (rw free (rw (bare_loop-digits outlen (n + 1) text rest h.1 (omega (arith, room))) refl))

csv_field-bare :
    (c : ℕ) (text rest : Bytes)
    → All (λ c. is_num c ≡ true) (c ∷ text)
    → 1 + length text < 64
    → csv_field net_addr_max ((c ∷ text) ++ (b',' ∷ rest)) ≡ some (c ∷ text, rest)
unfolding csv_field skip_comma
csv_field-bare c text rest h room =
    let solid : c == b'"' ≡ false = ground (arith, h.0) in
    rw solid (rw (bare_loop-digits 64 0 (c ∷ text) rest h (omega (arith, room))) refl)

pub csv_field-decimal :
    (n : ℕ) (rest : Bytes)
    → n < 60
    → csv_field net_addr_max (decimal n (b',' ∷ rest)) ≡ some (decimal n [], rest)
csv_field-decimal n rest h =
    let (d, (q, (low, (eq, size)))) = decimal_head n [] in
    let digits = subst (All (λ c. is_num c ≡ true)) eq (decimal-All n) in
    let short : 1 + length q < 64 =
      omega (arith, length-decimal n, ap (λ (x : Bytes). length x) eq) in
    ap (csv_field net_addr_max)
      (decimal-append n (b',' ∷ rest) ∙ ap (λ (x : Bytes). x ++ (b',' ∷ rest)) eq)
    ∙ csv_field-bare (b'0' + d) q rest digits short
    ∙ ap (λ (x : Bytes). some (x, rest)) (sym eq)

-- A field that is read and counted.
pub split_loop-field :
    (fuel max n : ℕ) (line field rest : Bytes) (fields : List Bytes) (seen : ℕ)
    → is_over line ≡ false
    → csv_field net_addr_max line ≡ some (field, rest)
    → n < max
    → split_loop fuel max (n + 1) rest ≡ some (fields, seen)
    → split_loop (suc fuel) max n line ≡ some (field ∷ fields, seen + 1)
unfolding split_loop
split_loop-field fuel max n line field rest fields seen open_line read room more =
    let free : ltb n max ≡ true = ground arith in
    rw (open_line, read) (rw free (rw more (rw free refl)))

pub split_loop-over :
    (fuel max n : ℕ) (line : Bytes)
    → is_over line ≡ true
    → split_loop (suc fuel) max n line ≡ some ([], 0)
unfolding split_loop
split_loop-over fuel max n line over = rw over refl

pub pdp_name-IsPlain : (pdp : NetPdp) → All IsPlain (fm160_net_pdp_name pdp)
pdp_name-IsPlain pdp_ip = ((refl, refl), ((refl, refl), tt))
pdp_name-IsPlain pdp_ipv6 = ((refl, refl), ((refl, refl), ((refl, refl), ((refl, refl), tt))))
pdp_name-IsPlain pdp_ipv4v6 = (
  (refl, refl),
  ((refl, refl), ((refl, refl), ((refl, refl), ((refl, refl), ((refl, refl), tt))))),
)

take-pdp_name : (pdp : NetPdp) → take 63 (fm160_net_pdp_name pdp) ≡ fm160_net_pdp_name pdp
take-pdp_name pdp_ip = refl
take-pdp_name pdp_ipv6 = refl
take-pdp_name pdp_ipv4v6 = refl

skip_comma-comma : (rest : Bytes) → skip_comma (b',' ∷ rest) ≡ rest
unfolding skip_comma
skip_comma-comma rest = refl

over-skip_comma : (tail : Bytes) → is_over tail ≡ true → skip_comma tail ≡ tail
unfolding skip_comma
over-skip_comma [] h = refl
over-skip_comma (c ∷ s) h = let solid : c == b',' ≡ false = ground arith in rw solid refl

not_over-decimal : (n : ℕ) (tail : Bytes) → is_over (decimal n tail) ≡ false
not_over-decimal n tail =
    let (d, (q, (low, (eq, size)))) = decimal_head n tail in rw eq (ground arith)

-- The arguments of the command are three fields, whatever comes behind them on a new line.
pub split_csv-cgdcont_fields :
    (cid : ℕ) (pdp : NetPdp) (apn tail : Bytes)
    → cid < 60
    → All IsPlain apn
    → is_over tail ≡ true
    → split_csv 6 (cgdcont_fields cid pdp apn tail)
      ≡ some (decimal cid [] ∷ fm160_net_pdp_name pdp ∷ take 63 apn ∷ [], 3)
unfolding split_csv
split_csv-cgdcont_fields cid pdp apn tail small plain over =
    let third = b'"' ∷ (apn ++ (b'"' ∷ tail)) in
    let second = b'"' ∷ (fm160_net_pdp_name pdp ++ (b'"' ∷ b',' ∷ third)) in
    let line = cgdcont_fields cid pdp apn tail in
    let (d, (q, (low, (eq, size)))) = decimal_head cid (b',' ∷ second) in
    let inner = length-append (fm160_net_pdp_name pdp) (b'"' ∷ b',' ∷ third) in
    let k = length line - 3 in
    let fuel : suc (length line) ≡ suc (suc (suc (suc k))) =
      omega (arith, size, ap (λ (x : Bytes). length x) eq, inner) in
    let last =
      split_loop-field (suc k) 6 2 third (take 63 apn) tail [] 0 refl
        (csv_field-quoted apn tail plain
          ∙ ap (λ (x : Bytes). some (take 63 apn, x)) (over-skip_comma tail over))
        (omega arith) (split_loop-over k 6 3 tail over) in
    let middle =
      split_loop-field (suc (suc k)) 6 1 second (fm160_net_pdp_name pdp) third (take 63 apn ∷ []) 1
        refl
        (csv_field-quoted (fm160_net_pdp_name pdp) (b',' ∷ third) (pdp_name-IsPlain pdp)
          ∙ ap (λ (x : Bytes). some (x, skip_comma (b',' ∷ third))) (take-pdp_name pdp)
          ∙ ap (λ (x : Bytes). some (fm160_net_pdp_name pdp, x)) (skip_comma-comma third))
        (omega arith) last in
    rw (ltrim-decimal cid (b',' ∷ second)) (
      rw fuel (
        split_loop-field (suc (suc (suc k))) 6 0 line (decimal cid []) second
          (fm160_net_pdp_name pdp ∷ take 63 apn ∷ []) 2 (not_over-decimal cid (b',' ∷ second))
          (csv_field-decimal cid second small) (omega arith) middle))

fitting-short : (outlen : ℕ) (text : Bytes) → length text < outlen → fitting outlen text ≡ some text
unfolding fitting
fitting-short outlen text h =
    let short : leb outlen (length text) ≡ false = ground arith in rw short refl

apn_length : (apn : Bytes) → fm160_net_apn_ok apn ≡ true → length apn ≤ 99
unfolding fm160_net_apn_ok
apn_length apn h = ground arith

pub apn_all : (apn : Bytes) → fm160_net_apn_ok apn ≡ true → apn_chars apn ≡ true
unfolding fm160_net_apn_ok
apn_all apn h = ground arith

pub cid_bound : (cid : ℕ) → fm160_net_cid_ok cid ≡ true → cid ≤ 15
unfolding fm160_net_cid_ok
cid_bound cid h = ground arith

length-pdp_name : (pdp : NetPdp) → length (fm160_net_pdp_name pdp) ≤ 6
length-pdp_name pdp_ip = omega arith
length-pdp_name pdp_ipv6 = omega arith
length-pdp_name pdp_ipv4v6 = omega arith

length-cgdcont_fields :
    (cid : ℕ) (pdp : NetPdp) (apn : Bytes)
    → length (cgdcont_fields cid pdp apn []) ≤ cid + length apn + 15
length-cgdcont_fields cid pdp apn =
    let third = b'"' ∷ (apn ++ (b'"' ∷ [])) in
    let second = b'"' ∷ (fm160_net_pdp_name pdp ++ (b'"' ∷ b',' ∷ third)) in
    let number = length-decimal cid in
    let whole = ap (λ (x : Bytes). length x) (decimal-append cid (b',' ∷ second)) in
    let front = length-append (decimal cid []) (b',' ∷ second) in
    let name = length-append (fm160_net_pdp_name pdp) (b'"' ∷ b',' ∷ third) in
    let end = length-append apn (b'"' ∷ []) in
    omega (arith, number, whole, front, name, end, length-pdp_name pdp)

-- A context id from 1 to 15 and an APN that passes the check always make a command that fits, and
-- nothing in the APN adds a field to it: it has the id, the name of the type and the APN, of which a
-- reader with fields of 64 bytes keeps the first 63.
pub apn_command-split :
    (cid : ℕ) (pdp : NetPdp) (apn : Bytes)
    → fm160_net_cid_ok cid ≡ true
    → fm160_net_apn_ok apn ≡ true
    → (fm160_net_apn_command net_cmd_max cid pdp apn
        ≡ some (codes "AT+CGDCONT=" ++ cgdcont_fields cid pdp apn []))
      × (split_csv 6 (cgdcont_fields cid pdp apn [])
          ≡ some (decimal cid [] ∷ fm160_net_pdp_name pdp ∷ take 63 apn ∷ [], 3))
unfolding fm160_net_apn_command
apn_command-split cid pdp apn c a =
    let low : cid ≤ 15 = cid_bound cid c in
    let size : length (codes "AT+CGDCONT=" ++ cgdcont_fields cid pdp apn []) < net_cmd_max =
      omega (arith, length-cgdcont_fields cid pdp apn, apn_length apn a) in
    (
      rw (c, a)
          (fitting-short net_cmd_max (codes "AT+CGDCONT=" ++ cgdcont_fields cid pdp apn []) size),
      split_csv-cgdcont_fields cid pdp apn [] (omega arith) (apn_chars-IsPlain apn (apn_all apn a))
          refl,
    )
