-- ===== src/Examples.antt =====
-- The theorems applied to small inputs.
mod IndexCases
mod PathCases
mod ColumnCases
mod PipeCases
mod Finder
mod MatchCases
mod CalcCases
mod DepthCases
mod SessionCases
mod OwnerCases
mod CompactCases
