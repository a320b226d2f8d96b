-- ===== src/Forget/Erasure.antt =====
-- What the layers erase.
pub mod Swept
pub mod Statements
pub mod Sweeps
pub mod Every
pub mod Semantic
pub mod Through
pub mod User
pub mod Butler
pub mod Complete
