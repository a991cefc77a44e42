-- ===== src/Protocol.antt =====
-- internal/protocol: the ISFP frame format. A byte slice is a list of numbers.
pub mod Bytes
pub mod Crc
pub mod Frame
pub mod Codec
pub mod Layout
pub mod RoundTrip
pub mod Accepts
pub mod Reseq
