-- ===== src/Forget.antt =====
-- Forgetting: bot/services/forget_cascade.py with bot/db/repos/forget_event.py and
-- bot/services/forget_predicate.py.
pub mod Model
pub mod Events
pub mod Targets
pub mod Layers
pub mod Order
pub mod Cascade
pub mod Worker
pub mod Rows
pub mod Passage
pub mod Marks
pub mod Outcome
pub mod Batch
pub mod Counts
pub mod Lifecycle
pub mod Superseded
pub mod Tracked
pub mod Keys
pub mod Runs
pub mod Places
pub mod Erasure
pub mod Export
pub mod Execution
pub mod Hidden
mod Tests
