-- ===== src/Examples.antt =====
-- Concrete runs, and the theorems at concrete inputs.
mod Codec
mod Protocol
mod Wire
mod Peer
mod Session
mod Statements
mod Schema
mod Indexes
mod Config
mod Connect
mod Values
mod Adapter
mod Release
mod Delivered
