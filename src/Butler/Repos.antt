-- ===== src/Butler/Repos.antt =====
-- The repositories under bot/db/repos that the Butler service uses: each method is one SQL
-- statement over the table of its rows.
pub mod Actions
pub mod Confirmations
pub mod Invocations
pub mod Undos
pub mod Users
