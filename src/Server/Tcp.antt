-- ===== src/Server/Tcp.antt =====
-- crates/voipc-server/src/tcp.rs: the handlers of the control connection.
pub mod Act
pub mod Join
pub mod Rooms
pub mod Sharing
pub mod Relay
pub mod Session
pub mod Dispatch
mod Tests
