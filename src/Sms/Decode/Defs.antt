-- ===== src/Sms/Decode/Defs.antt =====
-- fm160d/src/pdu.c, `decode_addr` and `sms_pdu_decode`; fm160d/src/pdu.h, `struct sms_pdu_in`.
use openwrt_fm.Base.{
  ℕ, ◌+◌, ◌-◌, ◌*◌, ◌/◌, Bool, true, false, not, ◌||◌, [], Option, none, some, bit_and, ◌==◌, ltb,
  leb, if◌then◌else◌, get_or, length, take, drop, Bytes,
}
use Prim.Native.Nat.{min}
use openwrt_fm.Base.Bits.{◌>>>◌}
use openwrt_fm.Base.Result.{Result, ok, err}
use openwrt_fm.Sms.Bcd.{bcd_decode, bcd_written, scts_pair}
use openwrt_fm.Sms.BitWriter.{ud_max, udh_septets, septets_to_octets}
use openwrt_fm.Sms.Decode.UserData.{Concat, no_concat, parse_udh, unpack, septets_text, ucs2_text}
use openwrt_fm.Sms.Hex.{parse_hex}
use openwrt_fm.Sms.Segments.{Encoding, gsm7, dcs_encoding}

-- `SMS_PDU_ADDR_MAX`.
abbrev pub addr_max : ℕ
addr_max = 24

pub data Reason : Type 0 where
  no_reason not_hex too_short smsc_runs_past no_tpdu bad_address unknown_mti : Reason
  no_udh truncated bad_time report_without_body : Reason

pub record Stamp : Type 0 where
  pub year : ℕ
  pub month : ℕ
  pub day : ℕ
  pub hour : ℕ
  pub min : ℕ
  pub sec : ℕ
  pub tz_quarters : ℕ
  pub tz_negative : Bool

-- `scts` is `none` where `has_scts` is false, and `bad_octet` where it is -1.
pub record PduIn : Type 0 where
  pub valid : Bool
  pub number : Bytes
  pub number_international : Bool
  pub text : Bytes
  pub text_len : ℕ
  pub encoding : Encoding
  pub dcs : ℕ
  pub pid : ℕ
  pub mti : ℕ
  pub scts : Option Stamp
  pub udh : Concat
  pub udh_octets : ℕ
  pub udl : ℕ
  pub ud_octets : ℕ
  pub bad_octet : Option ℕ
  pub reason : Reason

abbrev pub blank : PduIn
blank = record {
  valid = false;
  number = [];
  number_international = false;
  text = [];
  text_len = 0;
  encoding = gsm7;
  dcs = 0;
  pid = 0;
  mti = 0;
  scts = none;
  udh = no_concat;
  udh_octets = 0;
  udl = 0;
  ud_octets = 0;
  bad_octet = none;
  reason = no_reason;
}

-- A stage of the decoder goes on or returns -EINVAL with what `out` holds.
pub data Stage {ℓ} (A : Type ℓ) : Type ℓ where
  more : A → Stage A
  failed : PduIn → Stage A

infixl 5 ◌>>=◌
abbrev pub ◌>>=◌ {ℓ κ} : {A : Type ℓ} {B : Type κ} → Stage A → (A → Stage B) → Stage B
stage >>= next = elim stage [ more value ↦ next value | failed out ↦ failed out ]

abbrev fail {ℓ} : {A : Type ℓ} → PduIn → Reason → Stage A
fail out why = failed (record out { reason = why })

abbrev truncated_at {ℓ} : {A : Type ℓ} → PduIn → ℕ → Stage A
truncated_at out p = failed (record out { bad_octet = some p; reason = truncated })

-- What `decode_addr` does: it returns 0, with the cursor behind the address, its digits and the flag,
-- or -EINVAL, before it has written anything or behind the flag and some digits.
pub data Addr : Type 0 where
  complete : ℕ → Bytes → Bool → Addr
  untouched : Addr
  partial : Bytes → Bool → Addr

unfoldable pub decode_addr : Bytes → ℕ → ℕ → ℕ → Addr
decode_addr b n p outlen =
    let ndig = get_or b p 0 in
    let octets = (ndig + 1) / 2 in
    let toa = get_or b (p + 1) 0 in
    let intl = bit_and toa 0x70 == 0x10 in
    let semi_octets = take octets (drop (p + 2) b) in
    if ltb n (p + 1)
    then untouched
    else if ndig == 0
    then complete (p + 1) [] false
    else if ltb addr_max ndig
    then untouched
    else if ltb n (p + 1 + 1 + octets)
    then untouched
    else elim (bcd_decode semi_octets ndig outlen) [
      | err e ↦ partial (bcd_written semi_octets ndig outlen []) intl
      | ok digits ↦ complete (p + 2 + octets) digits intl
    ]

-- The array is cleared in front, so that digits without a NUL behind them are a string as well.
unfoldable pub read_addr : Bytes → ℕ → ℕ → PduIn → Stage (ℕ × PduIn)
read_addr b n p out = elim (decode_addr b n p (addr_max + 1)) [
  | complete p' digits intl ↦ more (p', record out { number = digits; number_international = intl })
  | untouched ↦ fail out bad_address
  | partial digits intl ↦
      fail (record out { number = digits; number_international = intl }) bad_address
]

-- The seven pairs of a time stamp at `p`; only the last has a sign.
unfoldable pub read_scts : Bytes → ℕ → Result Stamp
read_scts b p = elim (scts_pair (get_or b p 0) false) [
  | err e ↦ err e
  | ok (year, _) ↦ elim (scts_pair (get_or b (p + 1) 0) false) [
    | err e ↦ err e
    | ok (month, _) ↦ elim (scts_pair (get_or b (p + 2) 0) false) [
      | err e ↦ err e
      | ok (day, _) ↦ elim (scts_pair (get_or b (p + 3) 0) false) [
        | err e ↦ err e
        | ok (hour, _) ↦ elim (scts_pair (get_or b (p + 4) 0) false) [
          | err e ↦ err e
          | ok (minute, _) ↦ elim (scts_pair (get_or b (p + 5) 0) false) [
            | err e ↦ err e
            | ok (sec, _) ↦ elim (scts_pair (get_or b (p + 6) 0) true) [
              | err e ↦ err e
              | ok (zone, neg) ↦ ok (record {
                year = year;
                month = month;
                day = day;
                hour = hour;
                min = minute;
                sec = sec;
                tz_quarters = zone;
                tz_negative = neg;
              })
            ]
          ]
        ]
      ]
    ]
  ]
]

abbrev with_pid_dcs : Bytes → ℕ → PduIn → PduIn
with_pid_dcs b p out = record out { pid = get_or b p 0; dcs = get_or b (p + 1) 0 }

-- SMS-DELIVER, behind the address.
unfoldable pub read_deliver : Bytes → ℕ → ℕ × PduIn → Stage (ℕ × PduIn)
read_deliver b n (p, out) =
    let out' = with_pid_dcs b p out in
    if ltb n (p + 2)
    then truncated_at out p
    else if ltb n (p + 2 + 7)
    then truncated_at out' (p + 2)
    else elim (read_scts b (p + 2)) [
      | err e ↦ failed (record out' { bad_octet = some (p + 2); reason = bad_time })
      | ok stamp ↦ more (p + 9, record out' { scts = some stamp })
    ]

-- SMS-SUBMIT, behind the address: the validity period is skipped.
unfoldable pub read_submit : Bytes → ℕ → ℕ → ℕ × PduIn → Stage (ℕ × PduIn)
read_submit b n octet0 (p, out) =
    let vpf = bit_and (octet0 >>> 3) 0x03 in
    let skipped = if vpf == 1 then 1 else if vpf == 2 || vpf == 3 then 7 else 0 in
    if ltb n (p + 2) then truncated_at out p else more (p + 2 + skipped, with_pid_dcs b p out)

-- SMS-STATUS-REPORT, behind the address: two stamps and the status are skipped.
unfoldable pub read_report : Bytes → ℕ → ℕ × PduIn → Stage (ℕ × PduIn)
read_report b n (p, out) =
    if ltb n (p + 7 + 7 + 3) then truncated_at out p else more (p + 17, with_pid_dcs b (p + 15) out)

unfoldable pub read_header : Bytes → ℕ → ℕ → ℕ → PduIn → Stage (ℕ × PduIn)
unfolding read_addr
read_header b n octet0 p out =
    if out.mti == 0
    then (do at ← read_addr b n p out; read_deliver b n at)
    else if out.mti == 1
    then (do at ← read_addr b n (p + 1) out; read_submit b n octet0 at)
    else if out.mti == 2
    then (do at ← read_addr b n (p + 1) out; read_report b n at)
    else fail out unknown_mti

-- The text of the user data `ud` behind a header of `udh_len` octets.
unfoldable pub read_text : (ℕ → ℕ) → Encoding → Bytes → ℕ → ℕ → Bytes × ℕ
read_text stale gsm7 ud udl udh_len =
    let skip = if udh_len == 0 then 0 else udh_septets udh_len in
    let nsept = min (udl - skip) 168 in
    septets_text (unpack nsept 0 ud (skip * 7) stale false) false [] 0
read_text stale _ ud udl udh_len = ucs2_text (drop udh_len ud) [] 0

-- The header in the user data, if the bit is set: its octets.
unfoldable pub read_udh : Bool → ℕ → Bytes → PduIn → Stage (ℕ × PduIn)
read_udh false p ud out = more (0, out)
read_udh true p ud out =
    let hl = get_or ud 0 0 + 1 in
    if ltb (length ud) 1
    then fail out no_udh
    else if ltb (length ud) hl
    then truncated_at out p
    else more (hl, record out { udh_octets = hl; udh = parse_udh ud hl })

abbrev pub ud_octets_of : Encoding → ℕ → ℕ
ud_octets_of gsm7 udl = septets_to_octets udl
ud_octets_of _ udl = udl

-- From the octet TP-UDL at `p` on.
unfoldable pub read_body : (ℕ → ℕ) → Bytes → ℕ → Bool → ℕ × PduIn → Stage PduIn
read_body stale b n udhi (p, out) =
    let udl = get_or b p 0 in
    let enc = dcs_encoding out.dcs in
    let ud = take (min (ud_octets_of enc udl) (n - (p + 1))) (drop (p + 1) b) in
    let out' = record out { udl = udl; encoding = enc } in
    if leb n p
    then truncated_at out p
    else if out.mti == 2
    then more (record out' { valid = true; reason = report_without_body })
    else do
      (udh_len, out2) ← read_udh udhi (p + 1) ud (record out' { ud_octets = length ud })
      let (text, text_len) = read_text stale enc ud udl udh_len
      more (record out2 { valid = true; text = text; text_len = text_len })

-- The octets, once parsed.
unfoldable pub decode_octets : (ℕ → ℕ) → Bytes → Stage PduIn
decode_octets stale b =
    let n = length b in
    let smsc_len = get_or b 0 0 in
    let p = 1 + smsc_len in
    let octet0 = get_or b p 0 in
    let out = record blank { mti = bit_and octet0 0x03 } in
    if ltb n 2
    then fail blank too_short
    else if ltb n p
    then fail blank smsc_runs_past
    else if leb n p
    then fail blank no_tpdu
    else do
      at ← read_header b n octet0 (p + 1) out
      read_body stale b n (not (bit_and octet0 0x40 == 0)) at

-- `stale` is what the array `sept` holds before.
unfoldable pub sms_pdu_decode : (ℕ → ℕ) → Bytes → Stage PduIn
sms_pdu_decode stale hex = elim (parse_hex hex (ud_max + 48)) [
  | err e ↦ fail blank not_hex
  | ok b ↦ decode_octets stale b
]
