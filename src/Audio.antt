-- ===== src/Audio.antt =====
-- The crate crates/voipc-audio: the parts that compute with no samples.
pub mod Jitter
