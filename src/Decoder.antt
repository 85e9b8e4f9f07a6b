-- ===== src/Decoder.antt =====
-- src/decoder: bytes of the ring buffer to records.
pub mod Layout
pub mod Structs
pub mod Decode
pub mod Encode
pub mod RoundTrip
pub mod Accepted
