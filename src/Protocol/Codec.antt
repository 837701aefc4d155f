-- ===== src/Protocol/Codec.antt =====
-- codec.go: `Decode` turns column bytes into values, `Encode` packs bind parameters.
pub mod Kind
pub mod DateTime
pub mod Decode
pub mod Encode
pub mod RoundTrip
pub mod Bounds
