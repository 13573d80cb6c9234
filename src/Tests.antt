-- ===== src/Tests.antt =====
-- The theorems at concrete inputs.
mod Cues
pub mod Store
mod Translate
pub mod Library
pub mod Engine
mod Worker
pub mod Api
mod Withdrawn
mod Retry
mod Saved
mod Media
