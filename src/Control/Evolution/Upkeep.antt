-- ===== src/Control/Evolution/Upkeep.antt =====
-- execution/scheduler/service.py, promotion, cascade, expired leases and cancellation: no operation
-- moves a task but by a legal transition.
use autonomous_swe.Prelude.{ℕ, zero, suc, Bool, Option, none, some}
use autonomous_swe.Domain.Enums.{TaskStatus}
use autonomous_swe.Persistence.Rows.{TaskRow, RunRow, LeaseRow}
use autonomous_swe.Persistence.Evolution.{
  Evolving, Evolving-modify, Evolving-bind, Evolving-pure, Evolving-test,
}
use autonomous_swe.Control.Evolution.Scheduler.{row_rules}
use autonomous_swe.Scheduler.Upkeep.{
  move_to, promote_round, promote_dependency_ready, cancel_blocked_round, cancel_blocked_dependents,
  reclaim_found, reclaim_one, reclaim_expired, cancel_body, cancel_task, cancel_run_row, cancel_run,
  cancel_run_tasks, cancel_requested_runs,
}

move_to-Evolving : (target : TaskStatus) (c : ℕ × TaskRow) → Evolving (move_to target c)
unfolding move_to
move_to-Evolving target (k, row) = search row_rules depth 12

promote_round-Evolving : (limit : ℕ) (locked : ℕ → Bool) → Evolving (promote_round limit locked)
unfolding promote_round
promote_round-Evolving limit locked = search (row_rules, move_to-Evolving) depth 12

pub promote_dependency_ready-Evolving :
    (limit rounds : ℕ) (locked : ℕ → ℕ → Bool)
    → Evolving (promote_dependency_ready limit rounds locked)
unfolding promote_dependency_ready
promote_dependency_ready-Evolving limit zero locked = Evolving-pure 0
promote_dependency_ready-Evolving limit (suc rounds) locked =
    Evolving-bind _ _ (search (row_rules, promote_round-Evolving)) λ n.
      Evolving-test _ _ _ (Evolving-pure n) (
        Evolving-bind _ _ (promote_dependency_ready-Evolving limit rounds locked)
          λ more. Evolving-pure _)

cancel_blocked_round-Evolving :
    (limit : ℕ) (locked : ℕ → Bool) → Evolving (cancel_blocked_round limit locked)
unfolding cancel_blocked_round
cancel_blocked_round-Evolving limit locked = search (row_rules, move_to-Evolving) depth 12

pub cancel_blocked_dependents-Evolving :
    (limit rounds : ℕ) (locked : ℕ → ℕ → Bool)
    → Evolving (cancel_blocked_dependents limit rounds locked)
unfolding cancel_blocked_dependents
cancel_blocked_dependents-Evolving limit zero locked = Evolving-pure 0
cancel_blocked_dependents-Evolving limit (suc rounds) locked =
    Evolving-bind _ _ (search (row_rules, cancel_blocked_round-Evolving)) λ n.
      Evolving-test _ _ _ (Evolving-pure 0) (
        Evolving-bind _ _ (cancel_blocked_dependents-Evolving limit rounds locked)
          λ more. Evolving-pure _)

reclaim_found-Evolving :
    (now k : ℕ) (o : Option TaskRow) (stale : Bool) → Evolving (reclaim_found now k o stale)
unfolding reclaim_found
reclaim_found-Evolving now k none stale = Evolving-pure 0
reclaim_found-Evolving now k (some t) stale = search (row_rules, move_to-Evolving) depth 16

reclaim_one-Evolving : (now : ℕ) (c : ℕ × LeaseRow) → Evolving (reclaim_one now c)
unfolding reclaim_one
reclaim_one-Evolving now (k, l) = search (row_rules, reclaim_found-Evolving) depth 12

pub reclaim_expired-Evolving : (now limit : ℕ) → Evolving (reclaim_expired now limit)
unfolding reclaim_expired
reclaim_expired-Evolving now limit = search (row_rules, reclaim_one-Evolving) depth 12

cancel_body-Evolving : (p k now : ℕ) → Evolving (cancel_body p k now)
unfolding cancel_body
cancel_body-Evolving p k now = search row_rules depth 20

pub cancel_task-Evolving : (p k : ℕ) → Evolving (cancel_task p k)
unfolding cancel_task
cancel_task-Evolving p k = search (row_rules, cancel_body-Evolving) depth 12

cancel_run_row-Evolving : (run now : ℕ) (o : Option RunRow) → Evolving (cancel_run_row run now o)
unfolding cancel_run_row
cancel_run_row-Evolving run now none = Evolving-pure 0
cancel_run_row-Evolving run now (some r) = search (row_rules, Evolving-modify) depth 20

cancel_run_tasks-Evolving : (c : ℕ × RunRow) → Evolving (cancel_run_tasks c)
unfolding cancel_run_tasks cancel_run
cancel_run_tasks-Evolving (run, r) =
    search (row_rules, cancel_task-Evolving, cancel_run_row-Evolving) depth 20

pub cancel_requested_runs-Evolving : (limit : ℕ) → Evolving (cancel_requested_runs limit)
unfolding cancel_requested_runs
cancel_requested_runs-Evolving limit = search (row_rules, cancel_run_tasks-Evolving) depth 12
