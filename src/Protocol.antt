-- ===== src/Protocol.antt =====
-- The crate crates/voipc-protocol: what clients and the server send one another.
pub mod Error
pub mod Voice
pub mod Video
pub mod Framing
pub mod Types
