-- ===== src/Calc.antt =====
-- The calculator of the shell: apps/shell/src-tauri/src/calc.rs.
pub mod Words
pub mod Dates
pub mod Question
pub mod Tokens
pub mod Parser
