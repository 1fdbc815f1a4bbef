-- ===== src/Net/Overrun.antt =====
-- fm160d/src/net.c: the bounds of the array `raw` of `struct fm160_net_wwan`.
pub mod Split
use openwrt_fm.Net.Address.{addr_from_field}
use openwrt_fm.Net.Answers.{
  no_wwan, AddrScan, scan_found, scan_none, scan_outside, addr_scan, parsed, outside, wwan_with,
  wwan_of, opens_with_digit, wwan_body, fm160_net_parse_wwan,
}
use openwrt_fm.Net.Fields.{csv_field, is_over, split_loop, split_csv}
use openwrt_fm.Net.{net_addr_max}
use openwrt_fm.Text.{ltrim}
use openwrt_fm.Base.{
  ℕ, zero, suc, ◌+◌, ◌-◌, ◌≤◌, ◌<◌, true, false, ◌≡◌, ◌↔◌, ◌⊎◌, refl, sym, ap, ◌∙◌, inl, inr, List,
  [], ◌∷◌, Option, none, some, arith, ltb, if◌then◌else◌, Bytes, length, All, Bool-cases,
  Option-cases,
}
use openwrt_fm.Net.Overrun.Split.{
  Counted, split_loop-Counted, addr_scan-without, addr_scan-found, addr_scan-zero, addr_scan-empty,
}

-- The scan leaves the fields kept exactly where fewer are kept than counted and none has an address.
addr_scan_iff :
    (count : ℕ) (fields : List Bytes)
    → (addr_scan count fields ≡ scan_outside)
      ↔ ((length fields < count) × All (λ f. addr_from_field f ≡ none) fields)
addr_scan_iff zero fields =
    (λ h. absurd (let over = addr_scan-zero fields in cc), λ h. absurd (omega (arith, h.0)))
addr_scan_iff (suc count) [] = (λ h. (omega arith, tt), λ h. addr_scan-empty count)
addr_scan_iff (suc count) (field ∷ fields) = elim (Option-cases (addr_from_field field)) [
  | inl without ↦
      let step = addr_scan-without count field fields without in
      (
        λ h.
            let (short, all) = (addr_scan_iff count fields).0 (sym step ∙ h) in
            (omega (arith, short), (without, all)),
        λ h. step ∙ (addr_scan_iff count fields).1 (omega (arith, h.0), h.1.1),
      )
  | inr (addr, found) ↦
      let step = addr_scan-found count field addr fields found in
      (λ h. absurd (cc), λ h. absurd (let no_addr = h.1.0 in cc))
]

-- An answer of which more fields are counted than kept, with no address in those kept.
pub record IsOverrun (resp : Bytes) : Type 0 where
  pub body : Bytes
  pub f0 : Bytes
  pub f1 : Bytes
  pub more : List Bytes
  pub seen : ℕ
  pub tagged : wwan_body resp ≡ some body
  pub number : opens_with_digit body ≡ true
  pub split : split_csv 6 body ≡ some (f0 ∷ f1 ∷ more, seen)
  pub many : 6 < seen
  pub no_address : All (λ f. addr_from_field f ≡ none) more

wwan_with-outside :
    (raw : List Bytes) (seen : ℕ) (f0 f1 : Bytes) (more : List Bytes) (scan : AddrScan)
    → wwan_with raw seen f0 f1 more scan ≡ outside
    → scan ≡ scan_outside
wwan_with-outside raw seen f0 f1 more scan_outside h = refl
wwan_with-outside raw seen f0 f1 more scan_none h = absurd (cc)
wwan_with-outside raw seen f0 f1 more (scan_found addr) h = absurd (cc)

split_csv-Counted :
    (max : ℕ) (line : Bytes) (fields : List Bytes) (seen : ℕ)
    → split_csv max line ≡ some (fields, seen)
    → Counted max 0 (length fields) seen
unfolding split_csv
split_csv-Counted max line fields seen h =
    split_loop-Counted (suc (length (ltrim line))) max 0 (ltrim line) fields seen (omega arith) h

-- What the parser does from the fields on.
wwan_of_outside :
    (body : Bytes) (raw : List Bytes) (seen : ℕ)
    → split_csv 6 body ≡ some (raw, seen)
    → wwan_of raw seen ≡ outside
    → (f0 : Bytes) × ((f1 : Bytes) × ((more : List Bytes) × ((raw ≡ f0 ∷ f1 ∷ more)
            × ((6 < seen) × All (λ f. addr_from_field f ≡ none) more))))
unfolding wwan_of
wwan_of_outside body [] seen split h = absurd (cc)
wwan_of_outside body (f0 ∷ []) seen split h = absurd (cc)
wwan_of_outside body (f0 ∷ f1 ∷ more) seen split h =
    let (short, all) =
      (addr_scan_iff (seen - 2) more).0
        (wwan_with-outside (f0 ∷ f1 ∷ more) seen f0 f1 more (addr_scan (seen - 2) more) h) in
    let counted = split_csv-Counted 6 body (f0 ∷ f1 ∷ more) seen split in
    (f0, (f1, (more, (refl, (ground arith, all)))))

wwan_of-outside :
    (f0 f1 : Bytes) (more : List Bytes) (seen : ℕ)
    → addr_scan (seen - 2) more ≡ scan_outside
    → wwan_of (f0 ∷ f1 ∷ more) seen ≡ outside
unfolding wwan_of
wwan_of-outside f0 f1 more seen scan = ap (wwan_with (f0 ∷ f1 ∷ more) seen f0 f1 more) scan

-- The branches of the parser in front of the fields.
parse_wwan-untagged :
    (resp : Bytes) → wwan_body resp ≡ none → fm160_net_parse_wwan resp ≡ parsed no_wwan
unfolding fm160_net_parse_wwan
parse_wwan-untagged resp h = rw (h, fm160_net_parse_wwan) refl

parse_wwan-other :
    (resp body : Bytes)
    → wwan_body resp ≡ some body
    → opens_with_digit body ≡ false
    → fm160_net_parse_wwan resp ≡ parsed no_wwan
unfolding fm160_net_parse_wwan
parse_wwan-other resp body h k = rw (h, fm160_net_parse_wwan) (rw k refl)

parse_wwan-unsplit :
    (resp body : Bytes)
    → wwan_body resp ≡ some body
    → split_csv 6 body ≡ none
    → fm160_net_parse_wwan resp ≡ parsed no_wwan
unfolding fm160_net_parse_wwan
parse_wwan-unsplit resp body h k = elim (Bool-cases (opens_with_digit body)) [
  | inl digit ↦ rw (h, fm160_net_parse_wwan) (rw (digit, k) refl)
  | inr other ↦ parse_wwan-other resp body h other
]

parse_wwan-fields :
    (resp body : Bytes) (raw : List Bytes) (seen : ℕ)
    → wwan_body resp ≡ some body
    → opens_with_digit body ≡ true
    → split_csv 6 body ≡ some (raw, seen)
    → fm160_net_parse_wwan resp ≡ wwan_of raw seen
unfolding fm160_net_parse_wwan
parse_wwan-fields resp body raw seen h digit k = rw (h, fm160_net_parse_wwan) (rw (digit, k) refl)

parse_wwan-IsOverrun : (resp : Bytes) → fm160_net_parse_wwan resp ≡ outside → IsOverrun resp
parse_wwan-IsOverrun resp h = elim (Option-cases (wwan_body resp)) [
  | inl untagged ↦ absurd (let stays = parse_wwan-untagged resp untagged in cc)
  | inr (body, tagged) ↦ elim (Bool-cases (opens_with_digit body)) [
    | inr other ↦ absurd (let stays = parse_wwan-other resp body tagged other in cc)
    | inl digit ↦ elim (Option-cases (split_csv 6 body)) [
      | inl unsplit ↦ absurd (let stays = parse_wwan-unsplit resp body tagged unsplit in cc)
      | inr ((raw, seen), split) ↦
          let whole = parse_wwan-fields resp body raw seen tagged digit split in
          let (f0, (f1, (more, (shape, (many, all))))) =
            wwan_of_outside body raw seen split (sym whole ∙ h) in
          record {
            body = body;
            f0 = f0;
            f1 = f1;
            more = more;
            seen = seen;
            tagged = tagged;
            number = digit;
            split = split ∙ ap (λ (x : List Bytes). some (x, seen)) shape;
            many = many;
            no_address = all;
          }
    ]
  ]
]

-- The parser of the context's state reads outside of its array exactly for an answer that opens with a
-- digit, has more than six fields and no address in the third to the sixth.
pub parse_wwan_outside_iff : (resp : Bytes) → (fm160_net_parse_wwan resp ≡ outside) ↔ IsOverrun resp
parse_wwan_outside_iff resp = (
  parse_wwan-IsOverrun resp,
  λ o.
      let counted = split_csv-Counted 6 o.body (o.f0 ∷ o.f1 ∷ o.more) o.seen o.split in
      let many = o.many in
      let short : length o.more < o.seen - 2 = ground arith in
      let scan = (addr_scan_iff (o.seen - 2) o.more).1 (short, o.no_address) in
      parse_wwan-fields resp o.body (o.f0 ∷ o.f1 ∷ o.more) o.seen o.tagged o.number o.split
      ∙ wwan_of-outside o.f0 o.f1 o.more o.seen scan,
)
