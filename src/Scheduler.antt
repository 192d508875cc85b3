-- ===== src/Scheduler.antt =====
-- execution/scheduler/service.py: the scheduler.
pub mod Policy
pub mod Reservations
pub mod Service
pub mod Claiming
pub mod Execution
pub mod Upkeep
pub mod Invariant
pub mod Soundness
pub mod Outcomes
