-- ===== src/Amount.antt =====
-- `Amount` of client/src/types.rs: amounts of Nano as decimal text.
pub mod Text
pub mod Digits
pub mod Format
pub mod RoundTrip
