-- ===== src/Session.antt =====
-- The package cubrid: a connection and what is done over it.
pub mod Conn
pub mod Column
pub mod Rows
pub mod Stmt
pub mod Tx
pub mod OneShot
pub mod Failover
pub mod Connect
pub mod Schema
pub mod LobStream
pub mod BatchExec
pub mod Sequence
