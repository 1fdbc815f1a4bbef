-- ===== src/Sms/Decode.antt =====
-- fm160d/src/pdu.c, decoding: `decode_addr`, `parse_udh` and `sms_pdu_decode`. `b` is the buffer with
-- the `n` octets parsed, `p` the cursor. The texts of `err` are the constructors of `Reason`.
pub mod Defs
pub mod UserData
pub mod Unpack
pub mod Stale
