-- ===== src/Quota.antt =====
-- The daily quota of paid questions: bot/db/repos/semantic_quota.py.
pub mod Model
pub mod Attempts
pub mod Finalize
pub mod Slots
pub mod Free
pub mod Writes
pub mod Runs
pub mod Bounds
pub mod Replay
pub mod Again
pub mod Denials
mod Tests
