-- ===== src/Translate.antt =====
-- backend/src/translate.rs: the batches and their answers, the configuration, the pass.
pub mod Reply
pub mod Config
pub mod Pass
