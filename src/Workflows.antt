-- ===== src/Workflows.antt =====
-- workflows/state.py: what the workflow graphs carry from node to node.
pub mod Reducers
pub mod Texts
pub mod Models
pub mod State
pub mod Admission
