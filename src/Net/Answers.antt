-- ===== src/Net/Answers.antt =====
-- fm160d/src/net.c: the parsers of the modem's answers. The NULL pointers that they refuse and the
-- buffers that are not there have no counterpart.
use openwrt_fm.Net.{fm160_net_pdp_name, fm160_net_pdp_parse}
use openwrt_fm.Net.Address.{addr_from_field}
use openwrt_fm.Net.Fields.{split_csv, tag_line, find_tagged}
use openwrt_fm.Text.{ℤ, pos, negsuc, atoi, is_num, ltrim, same_ignoring_case, first_line, next_line}
use openwrt_fm.Base.{
  ℕ, zero, suc, ◌-◌, Bool, true, false, not, ◌&&◌, ◌||◌, List, [], ◌∷◌, Option, none, some, ◌==◌,
  leb, if◌then◌else◌, Bytes, codes, length, get_or,
}

-- `struct fm160_net_wwan`; `raw` are the fields kept, and `raw_n` counts those that were seen.
pub record NetWwan : Type 0 where
  pub valid : Bool
  pub cid : ℤ
  pub active : ℤ
  pub pdp : Bytes
  pub dns1 : Bytes
  pub dns2 : Bytes
  pub has_addr : Bool
  pub addr : Bytes
  pub raw : List Bytes
  pub raw_n : ℕ

abbrev pub no_wwan : NetWwan
no_wwan = record {
  valid = false;
  cid = negsuc 0;
  active = negsuc 0;
  pdp = [];
  dns1 = [];
  dns2 = [];
  has_addr = false;
  addr = [];
  raw = [];
  raw_n = 0;
}

abbrev pub text_or_empty : Option Bytes → Bytes
text_or_empty none = []
text_or_empty (some text) = text

-- The canonical name, where the field is one.
abbrev pub canonical_pdp : Bytes → Bytes
canonical_pdp field = elim (fm160_net_pdp_parse field) [ none ↦ [] | some p ↦ fm160_net_pdp_name p ]

-- How the loop that looks for the address ends: with one, without, or at an index outside of `raw`.
pub data AddrScan : Type 0 where
  scan_found : Bytes → AddrScan
  scan_none scan_outside : AddrScan

-- The loop over the `count` fields from here on, of which `fields` are kept in the array.
unfoldable pub addr_scan : ℕ → List Bytes → AddrScan
addr_scan zero fields = scan_none
addr_scan (suc count) [] = scan_outside
addr_scan (suc count) (field ∷ fields) = elim (addr_from_field field) [
  | some addr ↦ scan_found addr
  | none ↦ addr_scan count fields
]

-- What the parser leaves: the struct, whose `valid` is the result, or an access outside of it.
pub data WwanResult : Type 0 where
  parsed : NetWwan → WwanResult
  outside : WwanResult

abbrev pub wwan_with : List Bytes → ℕ → Bytes → Bytes → List Bytes → AddrScan → WwanResult
wwan_with raw seen f0 f1 more scan_outside = outside
wwan_with raw seen f0 f1 more scan_none = parsed (record {
  valid = true;
  cid = atoi f0;
  active = atoi f1;
  pdp = canonical_pdp (get_or more 0 []);
  dns1 = text_or_empty (addr_from_field (get_or more 1 []));
  dns2 = text_or_empty (addr_from_field (get_or more 2 []));
  has_addr = false;
  addr = [];
  raw = raw;
  raw_n = seen;
})
wwan_with raw seen f0 f1 more (scan_found addr) = parsed (record {
  valid = true;
  cid = atoi f0;
  active = atoi f1;
  pdp = canonical_pdp (get_or more 0 []);
  dns1 = text_or_empty (addr_from_field (get_or more 1 []));
  dns2 = text_or_empty (addr_from_field (get_or more 2 []));
  has_addr = true;
  addr = addr;
  raw = raw;
  raw_n = seen;
})

-- From the test of `raw_n` on: the fields kept and how many were seen.
unfoldable pub wwan_of : List Bytes → ℕ → WwanResult
wwan_of [] seen = parsed no_wwan
wwan_of (f0 ∷ []) seen =
    parsed (record no_wwan { valid = true; active = atoi f0; raw = f0 ∷ []; raw_n = seen })
wwan_of (f0 ∷ f1 ∷ more) seen =
    wwan_with (f0 ∷ f1 ∷ more) seen f0 f1 more (addr_scan (seen - 2) more)

abbrev pub opens_with_digit : Bytes → Bool
opens_with_digit [] = false
opens_with_digit (c ∷ s) = is_num c

abbrev pub wwan_body : Bytes → Option Bytes
wwan_body resp = elim (find_tagged resp (codes "+GTWWAN")) [
  | some body ↦ some body
  | none ↦ find_tagged resp (codes "+GTRNDIS")
]

unfoldable pub fm160_net_parse_wwan : Bytes → WwanResult
fm160_net_parse_wwan resp = elim (wwan_body resp) [
  | none ↦ parsed no_wwan
  | some body ↦
      if not (opens_with_digit body)
      then parsed no_wwan
      else elim (split_csv 6 body) [ none ↦ parsed no_wwan | some (raw, seen) ↦ wwan_of raw seen ]
]

-- `struct fm160_net_cgdcont`.
pub record NetCgdcont : Type 0 where
  pub cid : ℤ
  pub pdp : Bytes
  pub apn : Bytes

-- A line behind the header that goes on with a context.
abbrev pub continues : Bytes → Bool
continues [] = false
continues (c ∷ s) = c == b'"' || is_num c

-- The text of a line that is looked at, and whether the header has been seen then.
abbrev pub cgdcont_text : Bool → Bytes → Option Bytes × Bool
cgdcont_text header_seen line = elim (tag_line (ltrim line) (codes "+CGDCONT")) [
  | some txt ↦ (some txt, true)
  | none ↦ (if header_seen && continues (ltrim line) then some (ltrim line) else none, header_seen)
]

-- The context on it, if it has three fields.
abbrev pub cgdcont_of : Option Bytes → Option NetCgdcont
cgdcont_of none = none
cgdcont_of (some txt) = elim (split_csv 6 txt) [
  | none ↦ none
  | some (f, seen) ↦
      if leb 3 seen
      then some (record {
        cid = atoi (get_or f 0 []);
        pdp = canonical_pdp (get_or f 1 []);
        apn = get_or f 2 [];
      })
      else none
]

-- The loop over the lines, on fuel, with room for `room` contexts more.
unfoldable pub cgdcont_loop : ℕ → Bool → ℕ → Bytes → List NetCgdcont
cgdcont_loop zero header_seen room line = []
cgdcont_loop (suc fuel) header_seen zero line = []
cgdcont_loop (suc fuel) header_seen (suc room) [] = []
cgdcont_loop (suc fuel) header_seen (suc room) (c ∷ line) =
    let (txt, seen) = cgdcont_text header_seen (c ∷ line) in
    elim (cgdcont_of txt) [
      | none ↦ elim (next_line (c ∷ line)) [
        | none ↦ []
        | some next ↦ cgdcont_loop fuel seen (suc room) next
      ]
      | some context ↦
          context
          ∷ elim (next_line (c ∷ line)) [ none ↦ [] | some next ↦ cgdcont_loop fuel seen room next ]
    ]

-- A text has no more lines than bytes.
unfoldable pub fm160_net_parse_cgdcont : ℕ → Bytes → List NetCgdcont
fm160_net_parse_cgdcont max resp = cgdcont_loop (length resp) false max resp

-- The -1, 0 and 1 of `fm160_net_parse_cpin`.
pub data CpinAnswer : Type 0 where
  no_cpin not_ready ready : CpinAnswer

unfoldable pub fm160_net_parse_cpin : Bytes → CpinAnswer
fm160_net_parse_cpin resp = elim (find_tagged resp (codes "+CPIN")) [
  | none ↦ no_cpin
  | some txt ↦ elim (split_csv 2 txt) [
    | none ↦ not_ready
    | some (f, seen) ↦
        if seen == 0
        then not_ready
        else if same_ignoring_case (get_or f 0 []) (codes "READY")
        then ready
        else not_ready
  ]
]

abbrev pub is_int : ℤ → ℕ → Bool
is_int (pos n) m = n == m
is_int (negsuc n) m = false

-- A line for the context, and its state.
abbrev pub cgact_at : ℕ → Bytes → Option ℤ
cgact_at cid line = elim (tag_line (ltrim line) (codes "+CGACT")) [
  | none ↦ none
  | some txt ↦ elim (split_csv 3 txt) [
    | none ↦ none
    | some (f, seen) ↦
        if leb 2 seen && is_int (atoi (get_or f 0 [])) cid
        then some (atoi (get_or f 1 []))
        else none
  ]
]

unfoldable pub fm160_net_parse_cgact : Bytes → ℕ → ℤ
fm160_net_parse_cgact resp cid = elim (first_line (cgact_at cid) resp) [
  | none ↦ negsuc 0
  | some state ↦ state
]

-- `FM160_NET_REG_UNKNOWN`.
abbrev pub net_reg_unknown : ℤ
net_reg_unknown = pos 99

unfoldable pub fm160_net_parse_reg : Bytes → Bytes → ℤ
fm160_net_parse_reg resp token = elim (find_tagged resp (b'+' ∷ token)) [
  | none ↦ net_reg_unknown
  | some txt ↦ elim (split_csv 4 txt) [
    | none ↦ net_reg_unknown
    | some (f, seen) ↦
        if seen == 0
        then net_reg_unknown
        else atoi (if leb 2 seen then get_or f 1 [] else get_or f 0 [])
  ]
]
