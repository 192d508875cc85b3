-- ===== src/Scheduler/Outcomes.antt =====
-- execution/scheduler/service.py: single operations.
pub mod Leases
pub mod Finish
pub mod Admission
pub mod Attempts
pub mod Granted
