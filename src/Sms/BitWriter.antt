-- ===== src/Sms/BitWriter.antt =====
-- fm160d/src/pdu.c, GSM 7-bit packing: the bit writer `struct bitw` and the arithmetic of headers and
-- septets. A write past the end of `buf`, undefined in C, changes nothing here.
pub mod Bit
pub mod Laws
use openwrt_fm.Base.{
  ℕ, zero, suc, ◌+◌, ◌-◌, ◌*◌, ◌/◌, ◌%◌, ◌^◌, [], ◌∷◌, bit_and, bit_or, ◌==◌, if◌then◌else◌, get_or,
  set, replicate, Bytes,
}
use openwrt_fm.Base.Bits.{u8, ◌<<<◌, ◌>>>◌}

-- `SMS_PDU_UD_MAX`.
abbrev pub ud_max : ℕ
ud_max = 140

pub record BitWriter : Type 0 where
  pub buf : Bytes
  pub bitpos : ℕ

unfoldable pub bw_init : BitWriter
bw_init = record { buf = replicate (ud_max + 16) 0; bitpos = 0 }

-- One round of `bw_bits`: bit `i` of `val`.
unfoldable pub bw_bit : BitWriter → ℕ → ℕ → BitWriter
bw_bit w val i =
    let at = w.bitpos >>> 3 in
    if bit_and (val >>> i) 1 == 1
    then record w {
      buf = set w.buf at (bit_or (get_or w.buf at 0) (u8 (1 <<< bit_and w.bitpos 7)));
      bitpos = w.bitpos + 1;
    }
    else record w { bitpos = w.bitpos + 1 }

-- The loop at bit `i`, with `left` rounds to go.
unfoldable pub bw_bits_loop : ℕ → ℕ → ℕ → BitWriter → BitWriter
bw_bits_loop zero i val w = w
bw_bits_loop (suc left) i val w = bw_bits_loop left (i + 1) val (bw_bit w val i)

unfoldable pub bw_bits : BitWriter → ℕ → ℕ → BitWriter
bw_bits w val nbits = bw_bits_loop nbits 0 val w

unfoldable pub bw_septets : BitWriter → Bytes → BitWriter
bw_septets w [] = w
bw_septets w (s ∷ ss) = bw_septets (bw_bits w s 7) ss

unfoldable pub bw_octets : BitWriter → ℕ
bw_octets w = (w.bitpos + 7) / 8

unfoldable pub udh_fill_bits : ℕ → ℕ
udh_fill_bits octets = (7 - octets * 8 % 7) % 7

unfoldable pub udh_septets : ℕ → ℕ
unfolding udh_fill_bits
udh_septets octets = (octets * 8 + udh_fill_bits octets) / 7

unfoldable pub septets_to_octets : ℕ → ℕ
septets_to_octets septets = (septets * 7 + 7) / 8
