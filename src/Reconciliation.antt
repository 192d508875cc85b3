-- ===== src/Reconciliation.antt =====
-- execution/scheduler/reconciliation.py: agreement of the tasks with their graph executions.
pub mod Decision
pub mod Service
pub mod Legality
pub mod Outcome
pub mod Convergence
pub mod Soundness
pub mod Resolution
pub mod Scan
