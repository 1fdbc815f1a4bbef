-- ===== src/Sms/Segments/Scan.antt =====
-- `scan_text` in terms of the characters of the text.
use openwrt_fm.Base.{
  ℕ, zero, suc, ◌+◌, ◌≤◌, Bool, true, false, ◌&&◌, ◌≡◌, ◌≢◌, refl, sym, ◌∙◌, inl, inr, List, [],
  ◌∷◌, none, some, arith, length, Bytes, Bool-cases, All,
}
use openwrt_fm.Sms.Gsm7.{sms_gsm7_from_ucs}
use openwrt_fm.Sms.Segments.{
  Encoding, gsm7, TextScan, scan_char, scan_loop, scan_start, scan_text, cost,
}
use openwrt_fm.Sms.Utf8.Step.{Chars, nil, cons, IsChar, exists_Chars, text_step-nil}

abbrev pub has_septet : ℕ → Bool
has_septet cp = elim (sms_gsm7_from_ucs cp) [ none ↦ false | some s ↦ true ]

abbrev pub all_septets : List ℕ → Bool
all_septets [] = true
all_septets (cp ∷ cps) = has_septet cp && all_septets cps

-- What the characters cost together.
abbrev pub total : Encoding → List ℕ → ℕ
total enc [] = 0
total enc (cp ∷ cps) = cost enc cp + total enc cps

abbrev scan_list : TextScan → List ℕ → TextScan
scan_list sc [] = sc
scan_list sc (cp ∷ cps) = scan_list (scan_char sc cp) cps

-- The loop sees each character once; the fuel is enough.
scan_loop-list :
    (fuel : ℕ) {s : Bytes} {cps : List ℕ} (sc : TextScan)
    → Chars s cps
    → length s ≤ fuel
    → scan_loop fuel s sc ≡ scan_list sc cps
unfolding scan_loop
scan_loop-list zero sc nil h = refl
scan_loop-list (suc fuel) sc nil h = rw (text_step-nil, scan_loop) refl
scan_loop-list zero sc (cons cp step lt ne scalar later) h = absurd (omega arith)
scan_loop-list (suc fuel) sc (cons cp step lt ne scalar later) h =
    rw (step, scan_loop) (scan_loop-list fuel (scan_char sc cp) later (omega arith))

scan_list-chars : (cps : List ℕ) (sc : TextScan) → (scan_list sc cps).chars ≡ sc.chars + length cps
unfolding scan_char
scan_list-chars [] sc = omega arith
scan_list-chars (cp ∷ cps) sc = ground (arith, scan_list-chars cps (scan_char sc cp))

-- Once a character has no septet, the flag, the count and the character reported stay.
record Frozen (sc sc' : TextScan) : Type 0 where
  flag : sc'.gsm7_ok ≡ false
  bad : sc'.first_bad ≡ sc.first_bad

scan_list-Frozen :
    (cps : List ℕ) (sc : TextScan) → sc.gsm7_ok ≡ false → Frozen sc (scan_list sc cps)
unfolding scan_char
scan_list-Frozen [] sc h = record { flag = h; bad = refl }
scan_list-Frozen (cp ∷ cps) sc h = ground (arith, scan_list-Frozen cps (scan_char sc cp))

-- The state of the scan while every character so far had a septet.
record Judged (sc : TextScan) (cps : List ℕ) (sc' : TextScan) : Type 0 where
  flag : sc'.gsm7_ok ≡ all_septets cps
  count : all_septets cps ≡ true → sc'.septets ≡ sc.septets + total gsm7 cps
  bad : all_septets cps ≡ false → sc'.first_bad ≢ 0

scan_char_good :
    (sc : TextScan) (cp : ℕ)
    → sc.gsm7_ok ≡ true
    → has_septet cp ≡ true
    → scan_char sc cp ≡ record sc { chars = sc.chars + 1; septets = sc.septets + cost gsm7 cp }
unfolding scan_char cost
scan_char_good sc cp ok some_s = ground arith

scan_char_bad :
    (sc : TextScan) (cp : ℕ)
    → sc.gsm7_ok ≡ true
    → has_septet cp ≡ false
    → cp ≢ 0
    → ((scan_char sc cp).gsm7_ok ≡ false) × ((scan_char sc cp).first_bad ≢ 0)
unfolding scan_char
scan_char_bad sc cp ok no_s ne = ground arith

scan_list-Judged :
    {s : Bytes} {cps : List ℕ} (sc : TextScan)
    → Chars s cps
    → sc.gsm7_ok ≡ true
    → Judged sc cps (scan_list sc cps)
scan_list-Judged sc nil h = record { flag = h; count = λ _. omega arith; bad = λ e. absurd (cc) }
scan_list-Judged sc (cons {cps = cps} cp step lt ne scalar later) h =
    elim (Bool-cases (has_septet cp)) [
      | inl good ↦
          let here = scan_char_good sc cp h good in
          let j = scan_list-Judged (scan_char sc cp) later (rw here h) in
          record {
            flag = rw good j.flag;
            count = λ e. ground (arith, here, j.count);
            bad = λ e. j.bad (rw good at e);
          }
      | inr none_s ↦
          let here = scan_char_bad sc cp h none_s ne in
          let f = scan_list-Frozen cps (scan_char sc cp) here.0 in
          record { flag = rw none_s f.flag; count = λ e. absurd (cc); bad = λ e. rw f.bad here.1 }
    ]

-- What `scan_text` finds out about a text with the characters `cps`: their number; whether all of
-- them have a septet, and then the septets they take; and otherwise a character that has none.
pub record Scanned (cps : List ℕ) (sc : TextScan) : Type 0 where
  pub chars : sc.chars ≡ length cps
  pub flag : sc.gsm7_ok ≡ all_septets cps
  pub count : all_septets cps ≡ true → sc.septets ≡ total gsm7 cps
  pub bad : all_septets cps ≡ false → sc.first_bad ≢ 0

-- The scan is right on every text, and the fuel never runs out.
pub scan_text-Scanned :
    {text : Bytes} {cps : List ℕ} → Chars text cps → Scanned cps (scan_text text)
unfolding scan_text
scan_text-Scanned {text} {cps} c =
    let seen = scan_loop-list (length text) scan_start c (omega arith) in
    let j = scan_list-Judged scan_start c refl in
    rw seen (record {
      chars = omega (arith, scan_list-chars cps scan_start);
      flag = j.flag;
      count = λ e. omega (arith, j.count e);
      bad = j.bad;
    })

-- No C string makes `sms_pdu_encode` report "text is not valid UTF-8": whenever the GSM alphabet is
-- ruled out, the scan has a character to show for it.
pub scan_text-first_bad :
    (text : Bytes)
    → All IsChar text
    → (scan_text text).gsm7_ok ≡ false
    → (scan_text text).first_bad ≢ 0
scan_text-first_bad text h bad =
    let (cps, c) = exists_Chars text h in let s = scan_text-Scanned c in s.bad (sym s.flag ∙ bad)
