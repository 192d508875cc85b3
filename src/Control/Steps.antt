-- ===== src/Control/Steps.antt =====
-- One transaction of the control plane after another. Each operation of execution/scheduler is one
-- step, in any order and with any arguments; a rolled back transaction and one that did nothing are
-- steps too.
use autonomous_swe.Prelude.{ℕ, String, ◌≡◌, Bool, none, get, put}
use autonomous_swe.Domain.Enums.{TaskStatus}
use autonomous_swe.Persistence.Rows.{TaskRow, Resolution}
use autonomous_swe.Persistence.Session.{World}
use autonomous_swe.Scheduler.Service.{SchedulerService}
use autonomous_swe.Scheduler.Claiming.{claim_ready}
use autonomous_swe.Scheduler.Execution.{Claim, heartbeat, start_claim, finish_claim}
use autonomous_swe.Scheduler.Upkeep.{
  promote_dependency_ready, cancel_blocked_dependents, reclaim_expired, cancel_task,
  cancel_requested_runs,
}
use autonomous_swe.Reconciliation.Service.{reconcile, reconcile_due, resolve_needs_reconciliation}

pub data Step (s : SchedulerService) : World → World → Type 0 where
  claims :
      (owner : String) (limit now : ℕ) (locked : ℕ → Bool) {w : World}
      → Step s w (claim_ready s owner limit now locked w).1
  beats :
      (task_id : ℕ) (owner : String) (token now : ℕ) {w : World}
      → Step s w (heartbeat s task_id owner token now w).1
  starts : (c : Claim) (now : ℕ) {w : World} → Step s w (start_claim s c now w).1
  finishes : (c : Claim) (target : TaskStatus) {w : World} → Step s w (finish_claim s c target w).1
  promotes :
      (limit rounds : ℕ) (locked : ℕ → ℕ → Bool) {w : World}
      → Step s w (promote_dependency_ready limit rounds locked w).1
  cascades :
      (limit rounds : ℕ) (locked : ℕ → ℕ → Bool) {w : World}
      → Step s w (cancel_blocked_dependents limit rounds locked w).1
  reclaims : (now limit : ℕ) {w : World} → Step s w (reclaim_expired now limit w).1
  cancels : (project_id task_id : ℕ) {w : World} → Step s w (cancel_task project_id task_id w).1
  cancels_runs : (limit : ℕ) {w : World} → Step s w (cancel_requested_runs limit w).1
  reconciles :
      (project_id task_id now : ℕ) {w : World} → Step s w (reconcile project_id task_id now w).1
  reconciles_due : (limit now : ℕ) {w : World} → Step s w (reconcile_due limit now w).1
  resolves :
      (project_id task_id : ℕ) (resolution : Resolution) (now : ℕ) {w : World}
      → Step s w (resolve_needs_reconciliation project_id task_id resolution now w).1
  -- a plan, or a repair, adds a task; no lease stands for a task that is not there
  plans :
      (task_id : ℕ) (row : TaskRow) {w : World}
      → get task_id w.tasks ≡ none
      → get task_id w.leases ≡ none
      → row.state ≡ TaskStatus.pending
      → Step s w (record w { tables = record w.tables { tasks = put task_id row w.tasks } })
  -- the other components, which write other tables, and the time between two transactions
  elsewhere :
      {w v : World}
      → v.tasks ≡ w.tasks
      → v.leases ≡ w.leases
      → v.reservations ≡ w.reservations
      → Step s w v

pub data Reach (s : SchedulerService) : World → World → Type 0 where
  here : {w : World} → Reach s w w
  after : {w v u : World} → Reach s w v → Step s v u → Reach s w u
