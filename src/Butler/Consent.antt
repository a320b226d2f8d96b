-- ===== src/Butler/Consent.antt =====
-- The consent of everybody who was asked about an action, over all calls of the service.
pub mod Rows
pub mod Methods
pub mod Confirming
pub mod Starting
pub mod Executing
pub mod Carried
pub mod Planning
pub mod Storing
pub mod Undoing
pub mod Runs
