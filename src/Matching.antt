-- ===== src/Matching.antt =====
-- crates/yspot-index/src/matching.rs: tiers, scores and the search.
pub mod Tier
pub mod Score
pub mod Selector
pub mod Ranges
pub mod Fuzzy
pub mod Scan
pub mod Passes
pub mod Search
