-- ===== src/App/Keeps.antt =====
-- Every command keeps the session sound.
pub mod Work
pub mod Accounts
pub mod Removal
pub mod Payments
pub mod Downloads
pub mod Commands
