-- ===== src/Sms/RoundTrip.antt =====
-- fm160d/src/pdu.c: the encoder and the decoder against each other.
pub mod Alphabet
pub mod UserData
pub mod Octets
pub mod Units
pub mod Ucs2
pub mod Tpdu
pub mod Carries
pub mod Segment
pub mod Message
pub mod LongHeader
pub mod Plan
pub mod Delivery
pub mod Whole
