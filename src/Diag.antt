-- ===== src/Diag.antt =====
-- fm160d/src/diag.c: the writer of the support bundle, `struct w` and `w_put`, the small formatters, and
-- the end of `fm160_diag_format`. The texts that it puts one after the other are an argument, and
-- `vsnprintf` does not fail.
pub mod Whole
mod Tests
use openwrt_fm.Text.{decimal}
use openwrt_fm.Base.{
  ℕ, ◌+◌, ◌-◌, ◌/◌, ◌%◌, Bool, true, false, ◌||◌, List, [], ◌∷◌, ◌++◌, Option, none, some, ◌==◌,
  ltb, leb, if◌then◌else◌, Bytes, codes, length, take,
}

-- `len` is the length of what is written.
pub record Writer : Type 0 where
  pub buf : Bytes
  pub cap : ℕ
  pub over : Bool

unfoldable pub w_put : Bytes → Writer → Writer
w_put text w =
    let room = w.cap - length w.buf in
    if leb w.cap (length w.buf + 1)
    then record w { over = true }
    else if leb room (length text)
    then record w { buf = w.buf ++ take (room - 1) text; over = true }
    else record w { buf = w.buf ++ text }

unfoldable pub put_all : List Bytes → Writer → Writer
put_all [] w = w
put_all (text ∷ texts) w = put_all texts (w_put text w)

-- The -1 is `none`.
abbrev pub bundle : Writer → Option Bytes
bundle w = if w.over then none else some w.buf

unfoldable pub format_texts : ℕ → List Bytes → Option Bytes
format_texts buflen texts =
    if buflen == 0
    then none
    else bundle (put_all texts (record { buf = []; cap = buflen; over = false }))

unfoldable pub age_of : ℕ → ℕ → ℕ
age_of now then_ms = if then_ms == 0 || ltb now then_ms then 0 else now - then_ms

-- `%03llu` of a number below 1000, in front of `tail`.
abbrev pub milliseconds : ℕ → Bytes → Bytes
milliseconds n tail = (b'0' + n / 100) ∷ ((b'0' + n / 10 % 10) ∷ ((b'0' + n % 10) ∷ tail))

unfoldable pub w_ago : ℕ → ℕ → Writer → Writer
w_ago now then_ms w =
    let a = age_of now then_ms in
    if then_ms == 0
    then w_put (codes "never") w
    else w_put (decimal (a / 1000) (b'.' ∷ milliseconds (a % 1000) (codes " s ago"))) w

unfoldable pub w_str : Bytes → Writer → Writer
w_str s w = w_put (if length s == 0 then codes "-" else s) w

abbrev pub bool_str : Bool → Bytes
bool_str true = codes "yes"
bool_str false = codes "no"
