-- ===== src/Protocol.antt =====
-- cubrid/internal/protocol: the wire protocol of the CAS broker.
pub mod Codes
pub mod Text
pub mod Frame
pub mod Status
pub mod Handshake
pub mod LobHandle
pub mod Codec
pub mod Batch
pub mod Requests
