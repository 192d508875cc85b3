-- ===== src/Control.antt =====
-- The control plane: the transactions of the scheduler and the reconciler in any order.
pub mod Steps
pub mod Reachable
pub mod Evolution
pub mod Refinement
