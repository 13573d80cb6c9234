-- ===== src/Cues.antt =====
-- backend/src/cues.rs: the cue model, its layout rules and the file writers.
pub mod Model
pub mod Clean
pub mod Break
pub mod Assemble
pub mod Normalize
pub mod Timestamp
pub mod Render
