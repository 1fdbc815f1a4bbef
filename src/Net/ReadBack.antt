-- ===== src/Net/ReadBack.antt =====
-- fm160d/src/net.c: a context that `fm160_net_apn_command` sets, as `fm160_net_parse_cgdcont` reads it
-- from the modem.
use openwrt_fm.Net.{
  NetPdp, pdp_ip, pdp_ipv6, pdp_ipv4v6, fm160_net_pdp_name, fm160_net_pdp_parse, fm160_net_apn_ok,
  fm160_net_cid_ok, cgdcont_fields,
}
use openwrt_fm.Net.Answers.{
  NetCgdcont, canonical_pdp, cgdcont_text, cgdcont_of, cgdcont_loop, fm160_net_parse_cgdcont,
}
use openwrt_fm.Net.Commands.{
  IsPlain, apn_chars-IsPlain, apn_all, cid_bound, split_csv-cgdcont_fields, pdp_name-IsPlain,
}
use openwrt_fm.Net.Fields.{split_csv, tag_line}
use openwrt_fm.Text.{
  pos, atoi, signed, skip_space, strtol, is_num, ltrim, behind, span_to, same_ignoring_case,
  next_line, decimal,
}
use openwrt_fm.Text.Decimal.{
  decimal_head, decimal-append, decimal-All, ltrim-decimal, strtol-decimal,
}
use openwrt_fm.Base.{
  ℕ, zero, suc, ◌+◌, ◌<◌, Bool, true, false, ◌&&◌, ◌||◌, ◌≡◌, refl, sym, ap, ◌∙◌, List, [], ◌∷◌,
  ◌++◌, Option, some, arith, ◌==◌, leb, Bytes, codes, length, take, All,
}

atoi-digit : (d : ℕ) (q : Bytes) → d < 10 → atoi ((b'0' + d) ∷ q) ≡ pos (strtol ((b'0' + d) ∷ q)).0
unfolding atoi skip_space signed
atoi-digit d q low =
    let solid : (b'0' + d == b' ' || (leb 9 (b'0' + d) && leb (b'0' + d) 13)) ≡ false =
      ground arith in
    let minus : b'0' + d == b'-' ≡ false = ground arith in
    let plus : b'0' + d == b'+' ≡ false = ground arith in rw solid (rw (minus, plus) refl)

pub atoi-decimal : (n : ℕ) → atoi (decimal n []) ≡ pos n
atoi-decimal n =
    let (d, (q, (low, (eq, size)))) = decimal_head n [] in
    let value =
      ap (λ (x : Bytes). pos (strtol x).0) (sym eq)
      ∙ ap (λ (r : ℕ × Bytes). pos r.0) (strtol-decimal n [] tt) in
    ap atoi eq ∙ atoi-digit d q low ∙ value

canonical_pdp-name :
    (pdp : NetPdp) → canonical_pdp (fm160_net_pdp_name pdp) ≡ fm160_net_pdp_name pdp
unfolding fm160_net_pdp_parse span_to ltrim same_ignoring_case
canonical_pdp-name pdp_ip = refl
canonical_pdp-name pdp_ipv6 = refl
canonical_pdp-name pdp_ipv4v6 = refl

-- The line ends where it should.
next_line-All :
    (text tail : Bytes)
    → All (λ c. c == 10 ≡ false) text
    → next_line (text ++ tail) ≡ next_line tail
unfolding next_line
next_line-All [] tail h = refl
next_line-All (c ∷ text) tail h = rw h.0 (next_line-All text tail h.1)

next_line-one : (c : ℕ) (s : Bytes) → c == 10 ≡ false → next_line (c ∷ s) ≡ next_line s
unfolding next_line
next_line-one c s h = rw h refl

next_line-two :
    (c d : ℕ) (s : Bytes) → c == 10 ≡ false → d == 10 ≡ false → next_line (c ∷ d ∷ s) ≡ next_line s
next_line-two c d s h k = next_line-one c (d ∷ s) h ∙ next_line-one d s k

All-impl {κ μ} :
    (P : ℕ → Type κ) (Q : ℕ → Type μ) (xs : Bytes) → ((c : ℕ) → P c → Q c) → All P xs → All Q xs
All-impl P Q [] f h = tt
All-impl P Q (x ∷ xs) f h = (f x h.0, All-impl P Q xs f h.1)

plain_line : (text : Bytes) → All IsPlain text → All (λ c. c == 10 ≡ false) text
plain_line text h = All-impl IsPlain (λ c. c == 10 ≡ false) text (λ c p. ground (arith, p.0)) h

digit_line : (text : Bytes) → All (λ c. is_num c ≡ true) text → All (λ c. c == 10 ≡ false) text
digit_line text h =
    All-impl (λ c. is_num c ≡ true) (λ c. c == 10 ≡ false) text (λ c p. ground arith) h

next_line-cgdcont_fields :
    (cid : ℕ) (pdp : NetPdp) (apn tail : Bytes)
    → All IsPlain apn
    → next_line (cgdcont_fields cid pdp apn tail) ≡ next_line tail
next_line-cgdcont_fields cid pdp apn tail plain =
    let third = apn ++ (b'"' ∷ tail) in
    let second = b'"' ∷ (fm160_net_pdp_name pdp ++ (b'"' ∷ b',' ∷ b'"' ∷ third)) in
    ap next_line (decimal-append cid (b',' ∷ second))
    ∙ next_line-All (decimal cid []) (b',' ∷ second) (digit_line (decimal cid []) (decimal-All cid))
    ∙ next_line-two b',' b'"' _ refl refl
    ∙ next_line-All (fm160_net_pdp_name pdp) (b'"' ∷ b',' ∷ b'"' ∷ third)
        (plain_line _ (pdp_name-IsPlain pdp))
    ∙ next_line-two b'"' b',' _ refl refl
    ∙ next_line-one b'"' third refl
    ∙ next_line-All apn (b'"' ∷ tail) (plain_line apn plain)
    ∙ next_line-one b'"' tail refl

header_text :
    (text : Bytes) → cgdcont_text false (codes "+CGDCONT: " ++ text) ≡ (some (ltrim text), true)
unfolding ltrim tag_line behind
header_text text = refl

-- The context as the modem prints it back.
abbrev pub context_of : ℕ → NetPdp → Bytes → NetCgdcont
context_of cid pdp apn = record { cid = pos cid; pdp = fm160_net_pdp_name pdp; apn = take 63 apn }

cgdcont_of-fields :
    (txt : Bytes) (cid : ℕ) (pdp : NetPdp) (apn : Bytes)
    → split_csv 6 txt ≡ some (decimal cid [] ∷ fm160_net_pdp_name pdp ∷ take 63 apn ∷ [], 3)
    → cgdcont_of (some txt) ≡ some (context_of cid pdp apn)
cgdcont_of-fields txt cid pdp apn h =
    rw (h, cgdcont_of) (rw (atoi-decimal cid, canonical_pdp-name pdp) refl)

cgdcont_loop-context :
    (fuel room c : ℕ) (header_seen seen : Bool) (line next : Bytes) (txt : Option Bytes)
    (context : NetCgdcont)
    → cgdcont_text header_seen (c ∷ line) ≡ (txt, seen)
    → cgdcont_of txt ≡ some context
    → next_line (c ∷ line) ≡ some next
    → cgdcont_loop (suc fuel) header_seen (suc room) (c ∷ line)
      ≡ context ∷ cgdcont_loop fuel seen room next
unfolding cgdcont_loop
cgdcont_loop-context fuel room c header_seen seen line next txt context text read more =
    rw (text, cgdcont_loop) (rw (read, more) (rw text refl))

cgdcont_loop-empty : (fuel room : ℕ) (seen : Bool) → cgdcont_loop fuel seen room [] ≡ []
unfolding cgdcont_loop
cgdcont_loop-empty zero room seen = refl
cgdcont_loop-empty (suc fuel) zero seen = refl
cgdcont_loop-empty (suc fuel) (suc room) seen = refl

next_line-header : (text : Bytes) → next_line (codes "+CGDCONT: " ++ text) ≡ next_line text
unfolding next_line
next_line-header text = refl

next_line-crlf : next_line (13 ∷ 10 ∷ []) ≡ some []
unfolding next_line
next_line-crlf = refl

-- The context that a command sets, printed back by the modem on a line of its own, is read with the
-- id, the type and the APN of the command; of an APN of 64 to 99 bytes the first 63 are left.
pub parse_cgdcont-context :
    (cid : ℕ) (pdp : NetPdp) (apn : Bytes) (room : ℕ)
    → fm160_net_cid_ok cid ≡ true
    → fm160_net_apn_ok apn ≡ true
    → fm160_net_parse_cgdcont
        (suc room)
        (codes "+CGDCONT: " ++ cgdcont_fields cid pdp apn (13 ∷ 10 ∷ []))
      ≡ context_of cid pdp apn ∷ []
unfolding fm160_net_parse_cgdcont
parse_cgdcont-context cid pdp apn room c a =
    let tail : Bytes = 13 ∷ 10 ∷ [] in
    let plain = apn_chars-IsPlain apn (apn_all apn a) in
    let low : cid < 60 = omega (arith, cid_bound cid c) in
    let fields = cgdcont_fields cid pdp apn tail in
    let fuel = length (codes "CGDCONT: " ++ fields) in
    let text = header_text fields ∙ ap (λ (x : Bytes). (some x, true)) (ltrim-decimal cid _) in
    let more =
      next_line-header fields ∙ next_line-cgdcont_fields cid pdp apn tail plain ∙ next_line-crlf in
    cgdcont_loop-context fuel room b'+' false true _ [] (some fields) (context_of cid pdp apn) text
      (cgdcont_of-fields fields cid pdp apn
        (split_csv-cgdcont_fields cid pdp apn tail low plain refl))
      more
    ∙ ap (λ (x : List NetCgdcont). context_of cid pdp apn ∷ x) (cgdcont_loop-empty fuel room true)
