-- ===== src/Index.antt =====
-- crates/yspot-index/src/index.rs: the in-memory filename index of one volume.
pub mod Flags
pub mod Types
pub mod Columns
pub mod Arena
pub mod Table
pub mod Volume
pub mod Paths
pub mod Depth
pub mod Compact
