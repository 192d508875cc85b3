-- ===== src/Examples.antt =====
-- The theorems at concrete worlds.
mod Worlds
mod Plans
mod Witnesses
mod PlanWitnesses
mod ToolWitnesses
