-- ===== src/Sms.antt =====
-- fm160d/src/pdu.c and pdu.h: SMS PDUs, from the alphabets up to whole messages.
pub mod Gsm7
pub mod Hex
pub mod Utf8
pub mod Bcd
pub mod Number
pub mod Segments
pub mod BitWriter
pub mod Decode
pub mod Encode
pub mod RoundTrip
mod Tests
mod PduTests
mod RoundTests
