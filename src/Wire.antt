-- ===== src/Wire.antt =====
-- cubrid/internal/protocol/binary.go: packing of requests and walking of responses.
pub mod Writer
pub mod Args
pub mod Packs
pub mod Reader
