-- ===== src/Net/Address.antt =====
-- fm160d/src/net.c: `fm160_net_addr_ok` and `addr_from_field`.
use openwrt_fm.Net.{net_addr_max}
use openwrt_fm.Net.Fields.{csv_field}
use openwrt_fm.Text.{is_num, contains}
use openwrt_fm.Base.{
  ℕ, zero, suc, ◌+◌, ◌-◌, ◌*◌, Bool, false, not, ◌&&◌, ◌||◌, [], ◌∷◌, Option, none, some, ◌==◌, ltb,
  leb, if◌then◌else◌, Bytes, length,
}

abbrev pub is_hex : ℕ → Bool
is_hex c = is_num c || (leb b'a' c && leb c b'f') || (leb b'A' c && leb c b'F')

-- The loop over an address with a colon.
unfoldable pub addr6_loop : ℕ → ℕ → ℕ → ℕ → Bytes → Bool
addr6_loop colons run best group [] = leb 2 colons && leb best 2
addr6_loop colons run best group (c ∷ s) =
    let at_colon =
      addr6_loop (colons + 1) (run + 1) (if ltb best (run + 1) then run + 1 else best) 0 s in
    let in_group = addr6_loop colons 0 best (group + 1) s in
    if c == b':'
    then at_colon
    else if not (is_hex c)
    then false
    else if ltb 4 (group + 1)
    then false
    else in_group

-- The loop over any other address.
unfoldable pub addr4_loop : ℕ → ℕ → ℕ → ℕ → Bytes → Bool
addr4_loop octet dots digits first [] = ltb 0 digits && dots == 3
addr4_loop octet dots digits first (c ∷ s) =
    let at_dot = addr4_loop 0 (dots + 1) 0 first s in
    let d = c - b'0' in
    let first' = if digits == 0 then d else first in
    let octet' = octet * 10 + d in
    let in_octet = addr4_loop octet' dots (digits + 1) first' s in
    if c == b'.'
    then (if digits == 0 then false else at_dot)
    else if not (is_num c)
    then false
    else if ltb 3 (digits + 1) || ltb 255 octet' || (ltb 1 (digits + 1) && first' == 0)
    then false
    else in_octet

unfoldable pub fm160_net_addr_ok : Bytes → Bool
fm160_net_addr_ok [] = false
fm160_net_addr_ok (c ∷ s) =
    if contains (b':' ∷ []) (c ∷ s) then addr6_loop 0 0 0 0 (c ∷ s) else addr4_loop 0 0 0 0 (c ∷ s)

-- The loop of `addr_from_field`, on fuel. `out` has room for what a part holds.
unfoldable pub addr_loop : ℕ → Bytes → Option Bytes
addr_loop zero p = none
addr_loop (suc fuel) [] = none
addr_loop (suc fuel) (c ∷ p) = elim (csv_field net_addr_max (c ∷ p)) [
  | none ↦ none
  | some (part, rest) ↦
      let more = addr_loop fuel rest in if fm160_net_addr_ok part then some part else more
]

-- A part takes a byte at least.
unfoldable pub addr_from_field : Bytes → Option Bytes
addr_from_field field = addr_loop (length field) field
