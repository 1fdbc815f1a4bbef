-- ===== src/Diag/Whole.antt =====
-- fm160d/src/diag.c: a bundle is whole or not there.
use mathlib.Core.List.{append-nil, append_assoc}
use openwrt_fm.Diag.{Writer, w_put, put_all, bundle, format_texts}
use openwrt_fm.Base.{
  ℕ, zero, suc, ◌+◌, ◌-◌, ◌<◌, true, false, ◌≡◌, refl, sym, ap, ◌∙◌, inl, inr, List, [], ◌∷◌, ◌++◌,
  none, some, arith, All, ltb, leb, ◌==◌, if◌then◌else◌, Bytes, length, length-append, Bool-cases,
}

abbrev pub joined : List Bytes → Bytes
joined [] = []
joined (text ∷ texts) = text ++ joined texts

-- Once something did not fit nothing changes that.
w_put-over : (text : Bytes) (w : Writer) → w.over ≡ true → (w_put text w).over ≡ true
unfolding w_put
w_put-over text w h = elim (Bool-cases (leb w.cap (length w.buf + 1))) [
  | inl full ↦ rw full refl
  | inr room ↦ elim (Bool-cases (leb (w.cap - length w.buf) (length text))) [
    | inl long ↦ rw (room, long) refl
    | inr short ↦ rw (room, short) h
  ]
]

put_all-over : (texts : List Bytes) (w : Writer) → w.over ≡ true → (put_all texts w).over ≡ true
unfolding put_all
put_all-over [] w h = h
put_all-over (text ∷ texts) w h = put_all-over texts (w_put text w) (w_put-over text w h)

bundle-over : (texts : List Bytes) (w : Writer) → w.over ≡ true → bundle (put_all texts w) ≡ none
bundle-over texts w h = rw (put_all-over texts w h) refl

put_full :
    (text : Bytes) (w : Writer)
    → leb w.cap (length w.buf + 1) ≡ true
    → w_put text w ≡ record w { over = true }
unfolding w_put
put_full text w h = rw h refl

put_cut :
    (text : Bytes) (w : Writer)
    → leb w.cap (length w.buf + 1) ≡ false
    → leb (w.cap - length w.buf) (length text) ≡ true
    → (w_put text w).over ≡ true
unfolding w_put
put_cut text w h k = rw (h, k) refl

put_whole :
    (text : Bytes) (w : Writer)
    → leb w.cap (length w.buf + 1) ≡ false
    → leb (w.cap - length w.buf) (length text) ≡ false
    → w_put text w ≡ record w { buf = w.buf ++ text }
unfolding w_put
put_whole text w h k = rw (h, k) refl

put_all-cons :
    (text : Bytes) (texts : List Bytes) (w : Writer)
    → put_all (text ∷ texts) w ≡ put_all texts (w_put text w)
unfolding put_all
put_all-cons text texts w = refl

put_all-nil : (w : Writer) → put_all [] w ≡ w
unfolding put_all
put_all-nil w = refl

-- From a buffer with room for the NUL.
bundle-put_all :
    (texts : List Bytes) (buf : Bytes) (cap : ℕ)
    → All (λ (t : Bytes). 0 < length t) texts
    → length buf < cap
    → bundle (put_all texts (record { buf = buf; cap = cap; over = false }))
      ≡ (if ltb (length (buf ++ joined texts)) cap then some (buf ++ joined texts) else none)
bundle-put_all [] buf cap h lt =
    let fits : ltb (length (buf ++ [])) cap ≡ true = ground (arith, length-append buf [], lt) in
    rw fits (
      ap bundle (put_all-nil (record { buf = buf; cap = cap; over = false }))
      ∙ ap some (sym (append-nil buf)))
bundle-put_all (text ∷ texts) buf cap h lt =
    let w : Writer = record { buf = buf; cap = cap; over = false } in
    let size = length-append buf (text ++ joined texts) in
    let size' = length-append text (joined texts) in
    elim (Bool-cases (leb cap (length buf + 1))) [
      | inl full ↦
          let long : ltb (length (buf ++ (text ++ joined texts))) cap ≡ false =
            ground (arith, size, size', h.0) in
          rw long (
            ap bundle (put_all-cons text texts w)
            ∙ bundle-over texts (w_put text w) (ap (λ (v : Writer). v.over) (put_full text w full)))
      | inr room ↦ elim (Bool-cases (leb (cap - length buf) (length text))) [
        | inl cut ↦
            let long : ltb (length (buf ++ (text ++ joined texts))) cap ≡ false =
              ground (arith, size, size', h.0) in
            rw long (
              ap bundle (put_all-cons text texts w)
              ∙ bundle-over texts (w_put text w) (put_cut text w room cut))
        | inr fits ↦
            let left : length (buf ++ text) < cap = ground (arith, length-append buf text) in
            let same = append_assoc buf text (joined texts) in
            ap bundle (put_all-cons text texts w ∙ ap (put_all texts) (put_whole text w room fits))
            ∙ (bundle-put_all texts (buf ++ text) cap h.1 left
                ∙ ap (λ (t : Bytes). if ltb (length t) cap then some t else none) same)
      ]
    ]

-- From texts that are not empty the bundle is all of them, one behind the other, where these leave room
-- for the NUL in the buffer, and it is refused otherwise: it never ends in the middle.
pub format_texts-joined :
    (buflen : ℕ) (texts : List Bytes)
    → All (λ (t : Bytes). 0 < length t) texts
    → format_texts buflen texts
      ≡ (if ltb (length (joined texts)) buflen then some (joined texts) else none)
unfolding format_texts
format_texts-joined zero texts h =
    let none_fits : ltb (length (joined texts)) 0 ≡ false = ground arith in rw none_fits refl
format_texts-joined (suc n) texts h =
    let some_room : (suc n == 0) ≡ false = ground arith in
    rw some_room (bundle-put_all texts [] (suc n) h (omega arith))
