-- ===== src/Service.antt =====
-- The service: crates/yspot-indexd/src.
pub mod State
pub mod Session
pub mod DepthRepair
