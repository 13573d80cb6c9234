-- ===== src/Api.antt =====
-- backend/src/api.rs.
pub mod Model
pub mod Jobs
pub mod Download
pub mod Settings
pub mod Routes
pub mod Early
pub mod Plain
pub mod Errors
pub mod Cancel
pub mod Created
pub mod Withdrawn
pub mod Retry
pub mod Saved
pub mod Filename
pub mod Documented
pub mod Remember
pub mod Again
