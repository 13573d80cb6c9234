-- ===== src/Engine.antt =====
-- backend/src/engine.rs: the job worker.
pub mod Model
pub mod Target
pub mod Run
pub mod Quiet
pub mod Commit
pub mod Worker
