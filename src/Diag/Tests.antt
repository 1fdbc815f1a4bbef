-- ===== src/Diag/Tests.antt =====
-- fm160d/src/diag.c: two texts in a buffer.
use openwrt_fm.Diag.Whole.{joined, format_texts-joined}
use openwrt_fm.Diag.{format_texts, put_all, w_put, w_ago}
use openwrt_fm.Base.{
  ◌≡◌, refl, List, [], ◌∷◌, none, some, arith, ltb, if◌then◌else◌, Bytes, codes, length, false,
}

abbrev port_line : List Bytes
port_line = codes "port : " ∷ codes "-" ∷ []

format_texts-joined_example :
    format_texts 9 port_line
    ≡ (if ltb (length (joined port_line)) 9 then some (joined port_line) else none)
format_texts-joined_example = format_texts-joined 9 port_line (omega arith, (omega arith, tt))

-- Eight bytes and the NUL fit in nine, and not in eight.
fits_exactly :
    (format_texts 9 port_line ≡ some (codes "port : -")) × (format_texts 8 port_line ≡ none)
unfolding format_texts put_all w_put
fits_exactly = (refl, refl)

-- A stamp of 0 is one that was never set.
never_stamped : (w_ago 65043 0 (record { buf = []; cap = 64; over = false })).buf ≡ codes "never"
never_stamped = unfold w_ago in (unfold w_put in refl)
