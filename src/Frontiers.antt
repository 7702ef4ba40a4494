-- ===== src/Frontiers.antt =====
-- The latest known block of each account: client/core/src/frontiers.rs.
pub mod Info
pub mod Db
pub mod Search
pub mod Invariant
pub mod Insert
pub mod Remove
pub mod Query
pub mod Rewrite
pub mod Work
