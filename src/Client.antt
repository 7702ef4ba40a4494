-- ===== src/Client.antt =====
-- The wallet client: client/core/src/client.
pub mod State
pub mod Blocks
pub mod BalanceLaws
pub mod History
pub mod DestinationLaws
pub mod PaymentLaws
pub mod BlockLaws
pub mod Camo
pub mod Send
pub mod PublishLaws
pub mod SendLaws
pub mod CamoPublishLaws
pub mod CamoLaws
pub mod WorkResults
pub mod WorkResultLaws
pub mod Receive
pub mod ReceiveLaws
pub mod Removal
pub mod RemovalCounts
pub mod RemovalLaws
pub mod Untracking
pub mod DerivedRemovalLaws
pub mod CamoRemovalLaws
