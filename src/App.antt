-- ===== src/App.antt =====
-- The wallet around the client: client/src (its state, commands and storage) and cliwallet/src (the
-- wallet files and the start of the program).
pub mod Error
pub mod State
pub mod Session
pub mod Commands
pub mod Entries
pub mod Sound
pub mod Keeps
pub mod Storage
pub mod Wallets
pub mod Start
pub mod StorageLaws
pub mod WalletsLaws
pub mod SaveLaws
pub mod DiskLaws
pub mod StartLaws
pub mod TakeLaws
pub mod PlanLaws
pub mod WorkLaws
pub mod Loop
pub mod LoopLaws
pub mod ReceivableLaws
pub mod BalanceLines
pub mod BalanceLaws
