-- ===== src/App/Commands.antt =====
-- The commands of client/src/interface.rs. A command returns whether the program goes on.
pub mod Accounts
pub mod Notifications
pub mod Payments
pub mod Receive
pub mod Downloads
pub mod Balance
pub mod Execute
