-- ===== src/Control/Evolution.antt =====
-- Each transaction of the scheduler and of the reconciler moves every task along
-- `TASK_TRANSITIONS`, domain/enums.py.
pub mod Scheduler
pub mod Upkeep
pub mod Reconciler
