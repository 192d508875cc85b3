-- ===== src/Planning.antt =====
-- The planner's checks: planning/validator.py, with what it takes from domain and policies.
pub mod Models
pub mod Kahn
pub mod Counting
pub mod Risk
pub mod ToolRisk
pub mod Paths
pub mod Sink
pub mod Depth
pub mod Validator
