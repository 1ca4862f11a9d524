-- ===== src/Server.antt =====
-- The crate crates/voipc-server: the shared state, its operations and the handlers above them.
pub mod Rates
pub mod State
pub mod Channels
pub mod Moderation
pub mod ScreenShare
pub mod Departure
pub mod Udp
pub mod Requests
pub mod Messages
pub mod Queries
pub mod Seats
pub mod Tcp
pub mod Startup
pub mod Run
mod Sample
mod Tests
