-- ===== src/Dial/Stamps.antt =====
-- fm160d/src/dialer.c: the option `reset_stamps`, read by `ledger_load` and written by
-- `ledger_note_reset`, and the digits of a number of time. A time below 1 counts as 0.
use openwrt_fm.Text.{ℤ, pos, negsuc, atoi, decimal, span_to}
use openwrt_fm.Base.{
  ℕ, zero, suc, ◌+◌, ◌-◌, Bool, true, false, ◌&&◌, ◌||◌, [], ◌∷◌, ◌++◌, ◌==◌, ltb, leb,
  if◌then◌else◌, length, take, drop, Bytes,
}

-- `FM160_NET_RESET_WINDOW_S`, `LEDGER_MAX`, the size of `v` and `stamps`, and `LLONG_MAX`.
abbrev pub reset_window_s : ℕ
reset_window_s = 86400

abbrev pub ledger_max : ℕ
ledger_max = 8

abbrev pub stamps_size : ℕ
stamps_size = 192

abbrev pub llong_max : ℕ
llong_max = 9223372036854775807

-- `strtoll`, which stops at `LLONG_MAX`.
abbrev pub stamp_value : ℤ → ℕ
stamp_value (pos n) = if ltb llong_max n then llong_max else n
stamp_value (negsuc n) = 0

abbrev pub is_comma : ℕ → Bool
is_comma c = c == b','

-- The number in front of the first comma.
abbrev pub stamp_of : Bytes → ℕ
stamp_of v = stamp_value (atoi (span_to is_comma v).0)

-- The text behind it, empty where there is no comma: the loops end at an empty text.
abbrev pub next_stamp : Bytes → Bytes
next_stamp v = drop 1 (span_to is_comma v).1

abbrev pub is_empty : Bytes → Bool
is_empty [] = true
is_empty (c ∷ s) = false

-- The loop of `ledger_load` over the text, of which `i` numbers at most are left to look at.
unfoldable pub ledger_count : ℕ → ℕ → Bytes → ℕ
ledger_count zero wall_s v = 0
ledger_count (suc i) wall_s v =
    let ts = stamp_of v in
    let rest = ledger_count i wall_s (next_stamp v) in
    if is_empty v
    then 0
    else if ltb 0 ts && leb ts wall_s && ltb (wall_s - ts) reset_window_s
    then rest + 1
    else rest

-- The loop of `ledger_note_reset`, with `stamps` printed so far. It stops at the first number that is
-- too old, or that does not fit, of which the beginning stays. A time ahead of the clock is kept.
unfoldable pub ledger_join : ℕ → ℕ → Bytes → Bytes → Bytes
ledger_join zero wall_s stamps v = stamps
ledger_join (suc i) wall_s stamps v =
    let ts = stamp_of v in
    let text = b',' ∷ decimal ts [] in
    let room = stamps_size - length stamps in
    let rest = ledger_join i wall_s (stamps ++ text) (next_stamp v) in
    if is_empty v
    then stamps
    else if ts == 0 || leb reset_window_s (wall_s - ts)
    then stamps
    else if leb room (length text)
    then stamps ++ take (room - 1) text
    else rest

-- What `fm160_uci_get_section` puts into a buffer of that size.
abbrev pub read_stamps : Bytes → Bytes
read_stamps = take (stamps_size - 1)

-- The option behind `ledger_note_reset`.
abbrev pub noted_stamps : ℕ → Bytes → Bytes
noted_stamps wall_s option =
    ledger_join (ledger_max - 1) wall_s (take (stamps_size - 1) (decimal wall_s []))
      (read_stamps option)
