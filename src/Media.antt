-- ===== src/Media.antt =====
-- backend/src/media.rs: from a media file to windows of audio.
pub mod Model
pub mod Accumulator
pub mod Resample
pub mod Decode
