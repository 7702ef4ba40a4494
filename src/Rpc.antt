-- ===== src/Rpc.antt =====
-- The remote nodes: client/core/src/rpc.
pub mod Types
pub mod World
pub mod Reads
pub mod Download
pub mod Work
pub mod Manager
pub mod UsableLaws
pub mod RetryLaws
pub mod BanLaws
pub mod Publish
