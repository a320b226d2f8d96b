-- ===== src/Butler.antt =====
-- The Butler service: bot/services/butler.py and its repositories.
pub mod Model
pub mod Repos
pub mod Windows
pub mod Buckets
pub mod Services
pub mod Plan
pub mod Confirm
pub mod Withdraw
pub mod Execute
pub mod Undo
pub mod Runs
pub mod Consent
pub mod Once
pub mod Tests
