-- ===== src/Scheduler/Outcomes/Admission.antt =====
-- `start_claim`, execution/scheduler/service.py: the attempt and cost ceilings.
use autonomous_swe.Prelude.{
  ℕ, ◌≡◌, refl, ◌∙◌, ap, true, false, none, some, get, remove, get-remove, ==_refl, arith,
}
use autonomous_swe.Domain.Enums.{TaskStatus}
use autonomous_swe.Domain.Equality.{task_is}
use autonomous_swe.Domain.Transitions.{terminal_task, require_task_transition}
use autonomous_swe.Persistence.Rows.{TaskRow, RunRow, RepositoryRow}
use autonomous_swe.Persistence.Session.{
  Tables, World, Result, raise, Error, budget_exhausted, continue, transaction, throw, ◌>>=◌,
}
use autonomous_swe.Persistence.Repository.{in_project}
use autonomous_swe.Persistence.Total.{
  Total, finished, Total-pure, Total-bind, Total-if, Total-gets, Total-transaction,
  transition_task-Total,
}
use autonomous_swe.Scheduler.Outcomes.Finish.{task_stands}
use autonomous_swe.Scheduler.Reservations.{held_by, held_by-released, release_reservations}
use autonomous_swe.Scheduler.Service.{SchedulerService, clean_up}
use autonomous_swe.Scheduler.Execution.{
  Claim, TaskExecutionLease, exhausted, admit_running, admit_claim, refuse_row,
  refuse_exhausted_task, after_admission, start_claim,
}

-- The task has failed for good and holds nothing.
pub record Refused (k : ℕ) (v : World) : Type 0 where
  pub task : TaskRow
  pub stands : get k v.tasks ≡ some task
  pub failed : task.state ≡ TaskStatus.failed
  pub free : get k v.leases ≡ none
  pub idle : held_by k v.reservations ≡ 0

-- The task, its run and its repository are there.
pub record Known (c : Claim) (t : Tables) : Type 0 where
  pub task : TaskRow
  pub stands : in_project c.project_id (get c.task_id t.tasks) ≡ some task
  pub run : RunRow
  pub runs : get task.run_id t.runs ≡ some run
  pub repository : RepositoryRow
  pub located : get task.repository_id t.repositories ≡ some repository

not_completed :
    (s : TaskStatus)
    → require_task_transition s TaskStatus.failed ≡ true
    → (task_is s TaskStatus.completed ≡ false) × (terminal_task s ≡ false)
unfolding require_task_transition
not_completed s h = (ground arith, ground arith)

refused_admission :
    (s : SchedulerService) (c : Claim) (now : ℕ) (w : World) (k : Known c w.tables)
    → require_task_transition k.task.state TaskStatus.failed ≡ true
    → exhausted s c.task_id k.task.run_id w ≡ true
    → admit_claim s c now w ≡ (raise budget_exhausted, w)
unfolding admit_claim admit_running ◌>>=◌
refused_admission s c now w k legal spent =
    rw (k.stands, k.runs, k.located, (not_completed k.task.state legal).0, spent) refl

-- After the clean-up the task holds nothing and stands as it did.
abbrev Cleaned : ℕ → World → World → Type 0
Cleaned k w v = (v.tasks ≡ w.tasks) × (get k v.leases ≡ none) × (held_by k v.reservations ≡ 0)

clean_up-Total : (k now : ℕ) (w : World) → Total (λ _ v. Cleaned k w v) (clean_up k now w)
unfolding clean_up release_reservations ◌>>=◌
clean_up-Total k now w = finished (refl, no_lease k w.tables, held_by-released k now w.reservations)
  where
    no_lease : (k : ℕ) (t : Tables) → get k (remove k t.leases) ≡ none
    no_lease k t = rw (get-remove, ==_refl k) refl

refuse_row-Refused :
    (c : Claim) (now : ℕ) (task : TaskRow) (w : World)
    → in_project c.project_id (get c.task_id w.tasks) ≡ some task
    → require_task_transition task.state TaskStatus.failed ≡ true
    → Total (λ _ v. Refused c.task_id v) (refuse_row c now (some task) w)
unfolding refuse_row
refuse_row-Refused c now task w stands legal =
    Total-if _ _ _ w (λ over. absurd (ground (arith, over, (not_completed task.state legal).1)))
      λ _. Total-bind _ _ w (clean_up-Total c.task_id now w) λ _ v clean.
        Total-bind _ _ v
          (transition_task-Total c.project_id c.task_id TaskStatus.failed v task
            (ap (λ t. in_project c.project_id (get c.task_id t)) clean.0 ∙ stands) legal)
          λ after u m. Total-pure _ u (record {
            task = after;
            stands = task_stands m;
            failed = ap (λ r. r.state) m.moved;
            free = ap (λ t. get c.task_id t.leases) m.tables ∙ clean.1;
            idle = ap (λ t. held_by c.task_id t.reservations) m.tables ∙ clean.2;
          })

refuse_exhausted_task-Refused :
    (c : Claim) (now : ℕ) (task : TaskRow) (w : World)
    → in_project c.project_id (get c.task_id w.tasks) ≡ some task
    → require_task_transition task.state TaskStatus.failed ≡ true
    → Total (λ _ v. Refused c.task_id v) (transaction (refuse_exhausted_task c now) w)
unfolding refuse_exhausted_task
refuse_exhausted_task-Refused c now task w stands legal =
    Total-transaction _ w
      (Total-gets _ _ w (rw stands (refuse_row-Refused c now task w stands legal)))

raised_after :
    {Q : World → Type 0} (o : Result Unit × World) (e : Error)
    → Total (λ _ v. Q v) o
    → (let r : Result TaskExecutionLease × World = continue o.0 (λ _. throw e) o.1 in
        (r.0 ≡ raise e) × Q r.1)
unfolding throw
raised_after o e (finished h) = (refl, h)

-- A claim on a task that has used up its attempts, or whose run has used up its budget, is refused
-- for good: `start_claim` raises TaskBudgetExhausted, and the task is then FAILED in the tables,
-- without a lease and without a reservation, although the transaction that found the exhaustion
-- was rolled back. The task, its run and its repository are there, and the task may still fail.
pub start_claim-exhausted :
    (s : SchedulerService) (c : Claim) (now : ℕ) (w : World) (k : Known c w.tables)
    → require_task_transition k.task.state TaskStatus.failed ≡ true
    → exhausted s c.task_id k.task.run_id w ≡ true
    → ((start_claim s c now w).0 ≡ raise budget_exhausted)
      × Refused c.task_id (start_claim s c now w).1
unfolding start_claim after_admission transaction ◌>>=◌
start_claim-exhausted s c now w k legal spent =
    rw (refused_admission s c now w k legal spent) (
      raised_after _ budget_exhausted (refuse_exhausted_task-Refused c now k.task w k.stands legal))
