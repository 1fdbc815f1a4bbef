-- ===== src/Net.antt =====
-- fm160d/src/net.c and net.h: the commands of the data plane, their parts and the reconnect ladder. A
-- buffer is as long as its size says; the -1 of a builder is `none`.
pub mod Fields
pub mod Address
pub mod Answers
pub mod Commands
pub mod Dotted
pub mod ReadBack
pub mod Overrun
mod Tests
use openwrt_fm.Text.{is_num, is_blank, is_eol, ltrim, same_ignoring_case, span_to, decimal}
use openwrt_fm.Base.{
  ℕ, zero, suc, ◌+◌, ◌-◌, ◌*◌, Bool, true, false, not, ◌&&◌, ◌||◌, List, [], ◌∷◌, ◌++◌, Option,
  none, some, ◌==◌, ltb, leb, if◌then◌else◌, Bytes, codes, length, get_or,
}

-- `FM160_NET_CMD_MAX`, `FM160_NET_APN_MAX`, `FM160_NET_ADDR_MAX` and `FM160_NET_CID_LIMIT`.
abbrev pub net_cmd_max : ℕ
net_cmd_max = 160

abbrev pub net_apn_max : ℕ
net_apn_max = 100

abbrev pub net_addr_max : ℕ
net_addr_max = 64

abbrev pub net_cid_limit : ℕ
net_cid_limit = 15

-- `snprintf` that reports what does not fit.
abbrev pub fitting : ℕ → Bytes → Option Bytes
fitting outlen text = if leb outlen (length text) then none else some text

pub data NetVerb : Type 0 where
  gtwwan gtrndis : NetVerb

abbrev pub fm160_net_verb_name : NetVerb → Bytes
fm160_net_verb_name gtwwan = codes "GTWWAN"
fm160_net_verb_name gtrndis = codes "GTRNDIS"

unfoldable pub fm160_net_probe_command : ℕ → NetVerb → Bool → Option Bytes
fm160_net_probe_command outlen v caps =
    fitting outlen
      (codes "AT+" ++ fm160_net_verb_name v ++ (if caps then codes "=?" else codes "?"))

unfoldable pub fm160_net_cid_ok : ℕ → Bool
fm160_net_cid_ok cid = leb 1 cid && leb cid net_cid_limit

unfoldable pub fm160_net_activate_command : ℕ → NetVerb → ℕ → Bool → Option Bytes
fm160_net_activate_command outlen v cid up =
    if not (fm160_net_cid_ok cid)
    then none
    else fitting outlen (
        codes "AT+"
        ++ fm160_net_verb_name v
        ++ (b'=' ∷ decimal (if up then 1 else 0) (b',' ∷ decimal cid [])))

pub data NetPdp : Type 0 where
  pdp_ip pdp_ipv6 pdp_ipv4v6 : NetPdp

abbrev pub fm160_net_pdp_name : NetPdp → Bytes
fm160_net_pdp_name pdp_ip = codes "IP"
fm160_net_pdp_name pdp_ipv6 = codes "IPV6"
fm160_net_pdp_name pdp_ipv4v6 = codes "IPV4V6"

abbrev pub pdp_stop : ℕ → Bool
pdp_stop c = is_blank c || is_eol c

-- The table of names.
abbrev pub pdp_named : Bytes → Option NetPdp
pdp_named buf =
    if same_ignoring_case buf (codes "IP")
    then some pdp_ip
    else if same_ignoring_case buf (codes "IPV6")
    then some pdp_ipv6
    else if same_ignoring_case buf (codes "IPV4V6")
    then some pdp_ipv4v6
    else none

unfoldable pub fm160_net_pdp_parse : Bytes → Option NetPdp
fm160_net_pdp_parse s =
    let buf = (span_to pdp_stop (ltrim s)).0 in
    if length buf == 0 || leb 16 (length buf) then none else pdp_named buf

abbrev pub apn_char : ℕ → Bool
apn_char c =
    (leb b'a' c && leb c b'z')
    || (leb b'A' c && leb c b'Z')
    || (leb b'0' c && leb c b'9')
    || c == b'.'
    || c == b'-'
    || c == b'_'

unfoldable pub apn_chars : Bytes → Bool
apn_chars [] = true
apn_chars (c ∷ s) = apn_char c && apn_chars s

unfoldable pub fm160_net_apn_ok : Bytes → Bool
fm160_net_apn_ok apn =
    let n = length apn in
    if n == 0 || ltb (net_apn_max - 1) n
    then false
    else if get_or apn 0 0 == b'.' || get_or apn (n - 1) 0 == b'.'
    then false
    else apn_chars apn

-- The arguments of `AT+CGDCONT=`, in front of `tail`.
abbrev pub cgdcont_fields : ℕ → NetPdp → Bytes → Bytes → Bytes
cgdcont_fields cid pdp apn tail =
    decimal cid
      (b',' ∷ b'"' ∷ (fm160_net_pdp_name pdp ++ (b'"' ∷ b',' ∷ b'"' ∷ (apn ++ (b'"' ∷ tail)))))

unfoldable pub fm160_net_apn_command : ℕ → ℕ → NetPdp → Bytes → Option Bytes
fm160_net_apn_command outlen cid pdp apn =
    if not (fm160_net_cid_ok cid)
    then none
    else if not (fm160_net_apn_ok apn)
    then none
    else fitting outlen (codes "AT+CGDCONT=" ++ cgdcont_fields cid pdp apn [])

-- `ladder_s`, and `FM160_NET_RESET_LIMIT`.
abbrev pub ladder_s : List ℕ
ladder_s = 0 ∷ 5 ∷ 15 ∷ 60 ∷ 300 ∷ []

abbrev pub net_ladder_max : ℕ
net_ladder_max = 5

abbrev pub net_reset_limit : ℕ
net_reset_limit = 3

-- An attempt below 0, which the source reads as 0, does not occur.
unfoldable pub fm160_net_backoff_s : ℕ → ℕ
fm160_net_backoff_s attempt =
    get_or ladder_s (if leb net_ladder_max attempt then net_ladder_max - 1 else attempt) 0

unfoldable pub fm160_net_backoff_ms : ℕ → ℕ
fm160_net_backoff_ms attempt = fm160_net_backoff_s attempt * 1000

unfoldable pub fm160_net_reset_allowed : ℕ → Bool
fm160_net_reset_allowed resets_in_window = ltb resets_in_window net_reset_limit
