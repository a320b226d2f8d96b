-- ===== src/Butler/Once.antt =====
-- What holds of an action once its execution has begun, over all calls of the service.
pub mod Rows
pub mod Methods
pub mod Confirming
pub mod Runs
