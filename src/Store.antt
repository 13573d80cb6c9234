-- ===== src/Store.antt =====
-- backend/src/store.rs: the jobs and the node's settings in SQLite.
pub mod Model
pub mod Rows
pub mod Jobs
pub mod Queue
pub mod Machine
