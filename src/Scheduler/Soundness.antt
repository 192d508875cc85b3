-- ===== src/Scheduler/Soundness.antt =====
-- execution/scheduler/service.py and the invariant.
pub mod Steps
pub mod Cancelling
pub mod Finishing
pub mod Queues
pub mod Claims
