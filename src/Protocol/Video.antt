-- ===== src/Protocol/Video.antt =====
-- crates/voipc-protocol/src/video.rs: video packets, their fragments and screen share audio.
-- The packet types stand in `Kind`, the wire formats in `Packet` and `ScreenAudio`, and the two ends
-- of a fragmented frame in `Fragments` and `Assembler`.
pub mod Kind
pub mod Packet
pub mod ScreenAudio
pub mod Fragments
pub mod Assembler
mod Tests
