-- ===== src/Net/Tests.antt =====
-- fm160d/src/net.c: answers of the modem, and the theorems about the commands and the parsers.
use openwrt_fm.Net.{
  pdp_ipv4v6, pdp_ip, fm160_net_pdp_name, fm160_net_apn_command, fm160_net_apn_ok, fm160_net_cid_ok,
  net_cmd_max, cgdcont_fields, apn_chars, fm160_net_pdp_parse,
}
use openwrt_fm.Net.Address.{addr4_loop, addr_loop, addr_from_field, fm160_net_addr_ok}
use openwrt_fm.Net.Answers.{
  WwanResult, parsed, outside, addr_scan, wwan_of, fm160_net_parse_wwan, fm160_net_parse_cgdcont,
}
use openwrt_fm.Net.Commands.{apn_command-split}
use openwrt_fm.Net.Dotted.{OctetThen, addr_ok_iff}
use openwrt_fm.Net.Fields.{
  quoted_loop, bare_loop, skip_comma, csv_field, split_loop, split_csv, tag_line, find_tagged,
}
use openwrt_fm.Net.Overrun.{IsOverrun, parse_wwan_outside_iff}
use openwrt_fm.Net.ReadBack.{context_of, parse_cgdcont-context}
use openwrt_fm.Text.{
  atoi, signed, skip_space, digits_loop, decimal, ltrim, behind, contains, walk_lines, span_to,
  same_ignoring_case,
}
use openwrt_fm.Base.{true, false, ◌≡◌, ◌↔◌, refl, [], ◌∷◌, ◌++◌, some, Bytes, codes, take}

-- What a module with an address of each kind answers.
abbrev up_answer : Bytes
up_answer =
    codes "+GTWWAN: 1,1,"
    ++ (b'"' ∷ codes "10.179.143.75,240e:400:1638:3d:3897:ecce:bfca:6f88" ++ (b'"' ∷ []))

abbrev addr_of : WwanResult → Bytes
addr_of (parsed st) = st.addr
addr_of outside = []

up_addr : addr_of (fm160_net_parse_wwan up_answer) ≡ codes "10.179.143.75"
unfolding fm160_net_parse_wwan find_tagged walk_lines tag_line behind ltrim split_csv split_loop
    csv_field bare_loop quoted_loop skip_comma wwan_of addr_scan addr_from_field addr_loop
    fm160_net_addr_ok contains addr4_loop atoi signed skip_space digits_loop fm160_net_pdp_parse
    span_to same_ignoring_case
up_addr = refl

-- Seven fields and no address.
abbrev long_answer : Bytes
long_answer = codes "+GTWWAN: 1,1,0,0,0,0,0"

long_outside : fm160_net_parse_wwan long_answer ≡ outside
unfolding fm160_net_parse_wwan find_tagged walk_lines tag_line behind ltrim split_csv split_loop
    csv_field bare_loop quoted_loop skip_comma wwan_of addr_scan addr_from_field addr_loop
    fm160_net_addr_ok contains addr4_loop
long_outside = refl

parse_wwan_outside_iff_example :
    (fm160_net_parse_wwan long_answer ≡ outside) ↔ IsOverrun long_answer
parse_wwan_outside_iff_example = parse_wwan_outside_iff long_answer

addr_ok_iff_example :
    (fm160_net_addr_ok (codes "10.0.0.255") ≡ true) ↔ OctetThen 3 (codes "10.0.0.255")
unfolding contains behind
addr_ok_iff_example = addr_ok_iff (codes "10.0.0.255") refl

octal_refused : fm160_net_addr_ok (codes "10.0.010.1") ≡ false
unfolding fm160_net_addr_ok contains behind addr4_loop
octal_refused = refl

abbrev apn : Bytes
apn = codes "cm.net-1"

apn_command-split_example :
    (fm160_net_apn_command net_cmd_max 1 pdp_ipv4v6 apn
      ≡ some (codes "AT+CGDCONT=" ++ cgdcont_fields 1 pdp_ipv4v6 apn []))
    × (split_csv 6 (cgdcont_fields 1 pdp_ipv4v6 apn [])
        ≡ some (decimal 1 [] ∷ fm160_net_pdp_name pdp_ipv4v6 ∷ take 63 apn ∷ [], 3))
unfolding fm160_net_cid_ok fm160_net_apn_ok apn_chars
apn_command-split_example = apn_command-split 1 pdp_ipv4v6 apn refl refl

parse_cgdcont-context_example :
    fm160_net_parse_cgdcont 8 (codes "+CGDCONT: " ++ cgdcont_fields 1 pdp_ip apn (13 ∷ 10 ∷ []))
    ≡ context_of 1 pdp_ip apn ∷ []
unfolding fm160_net_cid_ok fm160_net_apn_ok apn_chars
parse_cgdcont-context_example = parse_cgdcont-context 1 pdp_ip apn 7 refl refl
