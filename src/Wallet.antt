-- ===== src/Wallet.antt =====
-- The accounts of a wallet and their keys: client/core/src/wallet.rs.
pub mod Db
pub mod Derived
pub mod DerivedLaws
pub mod Seed
pub mod Keys
pub mod Store
pub mod Validity
pub mod Grow
pub mod ManyLaws
