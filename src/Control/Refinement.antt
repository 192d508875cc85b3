-- ===== src/Control/Refinement.antt =====
-- The control plane, execution/scheduler, against the state machine `TASK_TRANSITIONS`,
-- domain/enums.py: the table of tasks forgotten down to the state of each task.
use autonomous_swe.Prelude.{
  ℕ, ◌≡◌, some, none, get, put, get-put, ◌==◌, ==→eq, Bool-cases, inl, inr, Table,
}
use autonomous_swe.Domain.Transitions.{TaskPath, here}
use autonomous_swe.Persistence.Rows.{TaskRow}
use autonomous_swe.Persistence.Session.{World}
use autonomous_swe.Persistence.Evolution.{Evolves, Evolves-refl, Evolves-eq, Evolves-trans}
use autonomous_swe.Scheduler.Service.{SchedulerService}
use autonomous_swe.Control.Steps.{
  Step, claims, beats, starts, finishes, promotes, cascades, reclaims, cancels, cancels_runs,
  reconciles, reconciles_due, resolves, plans, elsewhere, Reach, here, after,
}
use autonomous_swe.Control.Evolution.Scheduler.{
  heartbeat-Evolving, claim_ready-Evolving, start_claim-Evolving, finish_claim-Evolving,
}
use autonomous_swe.Control.Evolution.Upkeep.{
  promote_dependency_ready-Evolving, cancel_blocked_dependents-Evolving, reclaim_expired-Evolving,
  cancel_task-Evolving, cancel_requested_runs-Evolving,
}
use autonomous_swe.Control.Evolution.Reconciler.{
  reconcile-Evolving, reconcile_due-Evolving, resolve_needs_reconciliation-Evolving,
}

-- A new row leaves the others.
plan-Evolves :
    (k : ℕ) (row : TaskRow) (t : Table TaskRow) → get k t ≡ none → Evolves t (put k row t)
plan-Evolves k row t new j r e = elim (Bool-cases (k == j)) [
  | inl s ↦ absurd (cc (rw (==→eq k j s) at new, e))
  | inr s ↦ (r, rw (get-put, s) e, TaskPath.here)
]

Step-Evolves : {s : SchedulerService} {w v : World} → Step s w v → Evolves w.tasks v.tasks
Step-Evolves {s} {w} (claims owner limit now locked) =
    (claim_ready-Evolving s owner limit now locked).runs w
Step-Evolves {s} {w} (beats k owner token now) = (heartbeat-Evolving s k owner token now).runs w
Step-Evolves {s} {w} (starts c now) = (start_claim-Evolving s c now).runs w
Step-Evolves {s} {w} (finishes c target) = (finish_claim-Evolving s c target).runs w
Step-Evolves {s} {w} (promotes limit rounds locked) =
    (promote_dependency_ready-Evolving limit rounds locked).runs w
Step-Evolves {s} {w} (cascades limit rounds locked) =
    (cancel_blocked_dependents-Evolving limit rounds locked).runs w
Step-Evolves {s} {w} (reclaims now limit) = (reclaim_expired-Evolving now limit).runs w
Step-Evolves {s} {w} (cancels project_id k) = (cancel_task-Evolving project_id k).runs w
Step-Evolves {s} {w} (cancels_runs limit) = (cancel_requested_runs-Evolving limit).runs w
Step-Evolves {s} {w} (reconciles project_id k now) = (reconcile-Evolving project_id k now).runs w
Step-Evolves {s} {w} (reconciles_due limit now) = (reconcile_due-Evolving limit now).runs w
Step-Evolves {s} {w} (resolves project_id k r now) =
    (resolve_needs_reconciliation-Evolving project_id k r now).runs w
Step-Evolves {s} {w} (plans k row new bare pending) = plan-Evolves k row w.tasks new
Step-Evolves {s} {w} {v} (elsewhere e f g) = Evolves-eq w.tasks v.tasks e

Reach-Evolves : {s : SchedulerService} {w v : World} → Reach s w v → Evolves w.tasks v.tasks
Reach-Evolves {w} here = Evolves-refl w.tasks
Reach-Evolves {w} {v} (after {v = u} r step) =
    Evolves-trans w.tasks u.tasks v.tasks (Reach-Evolves r) (Step-Evolves step)

-- However the transactions of the scheduler and the reconciler interleave, and whichever of them
-- raise, a task that is in the table stays in it, in a state that a chain of legal transitions leads
-- to from the state that it had.
pub Reach-TaskPath :
    {s : SchedulerService} {w v : World} (k : ℕ) (row : TaskRow)
    → Reach s w v
    → get k w.tasks ≡ some row
    → (later : TaskRow) × (get k v.tasks ≡ some later) × TaskPath row.state later.state
Reach-TaskPath k row reach found = Reach-Evolves reach k row found
