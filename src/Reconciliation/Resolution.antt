-- ===== src/Reconciliation/Resolution.antt =====
-- `resolve_needs_reconciliation`, execution/scheduler/reconciliation.py, of a task that has ended.
use autonomous_swe.Prelude.{
  ℕ, ◌≡◌, refl, sym, subst, Bool, true, false, not, Option, some, get, arith,
}
use autonomous_swe.Domain.Enums.{TaskStatus}
use autonomous_swe.Domain.Equality.{task_is}
use autonomous_swe.Domain.Transitions.{terminal_task, require_task_transition}
use autonomous_swe.Persistence.Rows.{TaskRow, Resolution}
use autonomous_swe.Persistence.Session.{World, Exec, Result, transaction, ended}
use autonomous_swe.Persistence.Repository.{in_project}
use autonomous_swe.Persistence.Transition.{transition_task-Moved}
use autonomous_swe.Persistence.Graphs.{transition_graph_execution-keeps}
use autonomous_swe.Persistence.Total.{returned}
use autonomous_swe.Persistence.Post.{
  Post, done, failed, Post-bind, Post-gets, Post-or_raise, Post-if,
}
use autonomous_swe.Reconciliation.Service.{
  set_task_state, fail_task, resolve_task, resolve_parked, resolve_body,
  resolve_needs_reconciliation,
}

no_return :
    {A : Type 0} (m : Exec A) (w : World)
    → Post (λ _ _. ⊥) (m w)
    → (returned (transaction m w).0 ≡ false) × ((transaction m w).1.tables ≡ w.tables)
unfolding transaction
no_return {A} m w p = go p
  where
    go :
        {o : Result A × World}
        → Post (λ _ _. ⊥) o
        → (returned (ended w o.0 o.1).0 ≡ false) × ((ended w o.0 o.1).1.tables ≡ w.tables)
    go (done h) = absurd h
    go failed = (refl, refl)

terminal_stays :
    (s t : TaskStatus) → terminal_task s ≡ true → require_task_transition s t ≡ true → ⊥
unfolding require_task_transition
terminal_stays s t h e = ground arith

stands_terminal :
    (project_id : ℕ) (o : Option TaskRow) (task before : TaskRow)
    → o ≡ some task
    → in_project project_id o ≡ some before
    → before ≡ task
stands_terminal project_id o task before h e = ground (arith, h, e)

set_task_state-never :
    (k : ℕ) (task : TaskRow) (target : TaskStatus) (w : World)
    → get k w.tasks ≡ some task
    → terminal_task task.state ≡ true
    → Post (λ _ _. ⊥) (set_task_state k task target w)
unfolding set_task_state
set_task_state-never k task target w stands over =
    Post-bind _ _ w (transition_task-Moved task.project_id k task.version target w) λ after v m.
      let same : m.before ≡ task =
        stands_terminal task.project_id (get k w.tasks) task m.before stands m.found in
      absurd (
        terminal_stays task.state target over
          (subst (λ (r : TaskRow). require_task_transition r.state target ≡ true) same m.legal))

-- Which resolutions would move the task.
abbrev pub would_move : Resolution → TaskStatus → Bool
would_move Resolution.fail s = not (task_is s TaskStatus.failed)
would_move Resolution.retry s = true

resolve_task-never :
    (r : Resolution) (k : ℕ) (task : TaskRow) (w : World)
    → get k w.tasks ≡ some task
    → terminal_task task.state ≡ true
    → would_move r task.state ≡ true
    → Post (λ _ _. ⊥) (resolve_task r k task w)
unfolding resolve_task fail_task
resolve_task-never Resolution.fail k task w stands over moves =
    Post-if _ _ _ w (λ e. absurd (ground (arith, e, moves)))
      (λ _. set_task_state-never k task TaskStatus.failed w stands over)
resolve_task-never Resolution.retry k task w stands over moves =
    set_task_state-never k task TaskStatus.ready w stands over

-- An operator cannot resolve a task that has ended, except declare a FAILED one failed: for a task
-- in a terminal state, `resolve_needs_reconciliation` raises and leaves the tables as they were,
-- whatever its graph execution is, so a task that was quarantined when it had ended stays parked.
pub resolve_needs_reconciliation-stuck :
    (project_id k : ℕ) (r : Resolution) (now : ℕ) (task : TaskRow) (w : World)
    → get k w.tasks ≡ some task
    → terminal_task task.state ≡ true
    → would_move r task.state ≡ true
    → (returned (resolve_needs_reconciliation project_id k r now w).0 ≡ false)
      × ((resolve_needs_reconciliation project_id k r now w).1.tables ≡ w.tables)
unfolding resolve_needs_reconciliation resolve_body resolve_parked
resolve_needs_reconciliation-stuck project_id k r now task w stands over moves = no_return _ w (
    Post-gets _ _ w (
      Post-or_raise _ _ _ w λ found in_place.
        let same : found ≡ task =
          stands_terminal project_id (get k w.tasks) task found stands in_place in
        Post-gets _ _ w (
          Post-or_raise _ _ _ w λ graph waiting.
            Post-bind _ _ w
              (transition_graph_execution-keeps (λ tasks _ _. get k tasks ≡ some task) _ _ _ w
                stands)
              λ moved v still.
                Post-bind _ _ v
                  (subst (λ (t : TaskRow). Post (λ _ _. ⊥) (resolve_task r k t v)) (sym same)
                    (resolve_task-never r k task v still over moves))
                  λ after u never. absurd never)))
