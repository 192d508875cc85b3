-- ===== src/Reconciliation/Outcome.antt =====
-- `reconcile`, execution/scheduler/reconciliation.py: the rows it leaves.
use autonomous_swe.Prelude.{
  ℕ, ◌≡◌, refl, sym, ap, ◌∙◌, subst, true, false, Option, none, some, Table, get, put, remove,
  get-put, get-remove, ==_refl, arith, if◌then◌else◌,
}
use autonomous_swe.Domain.Enums.{TaskStatus, GraphExecutionState}
use autonomous_swe.Domain.Transitions.{require_task_transition}
use autonomous_swe.Persistence.Rows.{TaskRow, GraphExecutionRow, LeaseRow, Action}
use autonomous_swe.Persistence.Session.{World, utc_now, uuid4, ◌>>=◌, pure}
use autonomous_swe.Persistence.Repository.{in_project, publish}
use autonomous_swe.Persistence.Total.{
  Total, finished, Total-weaken, Total-pure, Total-if, Total-transaction, Total-gets,
  Total-or_raise, Total-bind, transition_task-Total,
}
use autonomous_swe.Scheduler.Reservations.{release_reservations}
use autonomous_swe.Scheduler.Service.{clean_up}
use autonomous_swe.Reconciliation.Service.{
  set_task_state, park, quarantine_task, settle_task, settle_graph, carry_out, act, is_noop,
  decision, reconcile_body, reconcile,
}
use autonomous_swe.Reconciliation.Legality.{target_of, moves, Legal, decide-Legal}

abbrev pub SameOwner : TaskRow → TaskRow → Type 0
SameOwner a b =
    (a.run_id ≡ b.run_id) × (a.repository_id ≡ b.repository_id) × (a.project_id ≡ b.project_id)

-- What the reconciler reads besides the task stayed.
abbrev Beside : World → World → Type 0
Beside w v = (v.runs ≡ w.runs) × (v.graphs ≡ w.graphs) × (v.leases ≡ w.leases)

-- The task stands in its table with a state, and belongs to whom it belonged.
pub record Stands (task_id : ℕ) (task : TaskRow) (state : TaskStatus) (v : World) : Type 0 where
  pub after : TaskRow
  pub stored : get task_id v.tasks ≡ some after
  pub placed : after.state ≡ state
  pub owned : SameOwner after task

get-put_same : (k : ℕ) (row : TaskRow) (t : Table TaskRow) → get k (put k row t) ≡ some row
get-put_same k row t = rw (get-put, ==_refl k)

get-remove_same :
    (a : Action) (k : ℕ) (t : Table LeaseRow) (o : Option LeaseRow)
    → is_noop a ≡ false
    → get k (remove k t) ≡ (if is_noop a then o else none)
get-remove_same a k t o busy = rw (get-remove, ==_refl k, busy)

found-same :
    (k project_id : ℕ) (o : Option TaskRow) (task : TaskRow)
    → in_project project_id o ≡ some task
    → (o ≡ some task) × (in_project task.project_id o ≡ some task)
found-same k project_id none task e = (e, e)
found-same k project_id (some r) task e = ground arith

set_task_state-Total :
    (task_id : ℕ) (task : TaskRow) (target : TaskStatus) (w : World)
    → in_project task.project_id (get task_id w.tasks) ≡ some task
    → require_task_transition task.state target ≡ true
    → Total
        (λ _ v. Stands task_id task target v × Beside w v)
        (set_task_state task_id task target w)
unfolding set_task_state utc_now
set_task_state-Total task_id task target w found legal =
    Total-bind _ _ w (transition_task-Total task.project_id task_id target w task found legal)
      λ after v m.
        let same : m.before ≡ task = cc (m.found, found) in
        unfold ◌>>=◌ in
        finished (
          record {
            after = record after { state_entered_at = v.ticks v.ticked };
            stored = get-put_same task_id _ v.tasks;
            placed = ap (λ r. r.state) m.moved;
            owned = (
              ap (λ r. r.run_id) m.moved ∙ ap (λ r. r.run_id) same,
              ap (λ r. r.repository_id) m.moved ∙ ap (λ r. r.repository_id) same,
              ap (λ r. r.project_id) m.moved ∙ ap (λ r. r.project_id) same,
            );
          },
          (ap (λ t. t.runs) m.tables, ap (λ t. t.graphs) m.tables, ap (λ t. t.leases) m.tables),
        )

-- A task that is left alone
left-Total :
    (task_id : ℕ) (task : TaskRow) (w : World)
    → get task_id w.tasks ≡ some task
    → Total (λ _ v. Stands task_id task task.state v × Beside w v) (pure task w)
left-Total task_id task w stored = Total-pure _ w (
  record { after = task; stored = stored; placed = refl; owned = (refl, refl, refl) },
  (refl, refl, refl),
)

settle_task-Total :
    (a : Action) (task_id : ℕ) (task : TaskRow) (w : World)
    → get task_id w.tasks ≡ some task
    → in_project task.project_id (get task_id w.tasks) ≡ some task
    → Legal a task.state
    → Total
        (λ _ v. Stands task_id task (target_of a task.state) v × Beside w v)
        (settle_task a task_id task w)
unfolding settle_task target_of moves quarantine_task
settle_task-Total Action.noop task_id task w stored found legal = left-Total task_id task w stored
settle_task-Total Action.resume_checkpoint task_id task w stored found legal =
    set_task_state-Total task_id task _ w found (legal refl)
settle_task-Total Action.finalize_domain task_id task w stored found legal =
    set_task_state-Total task_id task _ w found (legal refl)
settle_task-Total Action.requeue_missing_checkpoint task_id task w stored found legal =
    set_task_state-Total task_id task _ w found (legal refl)
settle_task-Total Action.domain_terminal_wins task_id task w stored found legal =
    left-Total task_id task w stored
settle_task-Total Action.graph_terminal_wins task_id task w stored found legal =
    set_task_state-Total task_id task _ w found (legal refl)
settle_task-Total Action.quarantine task_id task w stored found legal =
    Total-if _ _ _ w (λ e. rw e (left-Total task_id task w stored))
      (λ e. rw e (set_task_state-Total task_id task _ w found (ground (arith, legal, e))))

-- The graph execution after an action
abbrev pub placed_at : GraphExecutionState → ℕ → Option GraphExecutionRow → Option GraphExecutionRow
placed_at state now none = none
placed_at state now (some g) = some record g { state = state; state_entered_at = now }

abbrev pub graph_after : Action → ℕ → Option GraphExecutionRow → Option GraphExecutionRow
graph_after Action.domain_terminal_wins now g = placed_at GraphExecutionState.cancelled now g
graph_after Action.quarantine now g = placed_at GraphExecutionState.needs_reconciliation now g
graph_after _ now g = g

-- The graph execution moves, and the tasks and the runs stay.
abbrev Parked : ℕ → World → Option GraphExecutionRow → World → Type 0
Parked k w g v = (v.tasks ≡ w.tasks) × (v.runs ≡ w.runs) × (get k v.graphs ≡ g)

park-Total :
    (k : ℕ) (state : GraphExecutionState) (now : ℕ) (g : Option GraphExecutionRow) (w : World)
    → get k w.graphs ≡ g
    → Total (λ _ v. Parked k w (placed_at state now g) v) (park k state now g w)
unfolding park ◌>>=◌
park-Total k state now none w e = finished (refl, refl, e)
park-Total k state now (some g) w e = finished (refl, refl, rw (get-put, ==_refl k))

settle_graph-Total :
    (a : Action) (k now : ℕ) (g : Option GraphExecutionRow) (w : World)
    → get k w.graphs ≡ g
    → Total (λ _ v. Parked k w (graph_after a now g) v) (settle_graph a k now g w)
unfolding settle_graph
settle_graph-Total Action.domain_terminal_wins k now g w e = park-Total k _ now g w e
settle_graph-Total Action.quarantine k now g w e = park-Total k _ now g w e
settle_graph-Total Action.noop k now g w e = Total-pure _ w (refl, refl, e)
settle_graph-Total Action.resume_checkpoint k now g w e = Total-pure _ w (refl, refl, e)
settle_graph-Total Action.finalize_domain k now g w e = Total-pure _ w (refl, refl, e)
settle_graph-Total Action.requeue_missing_checkpoint k now g w e = Total-pure _ w (refl, refl, e)
settle_graph-Total Action.graph_terminal_wins k now g w e = Total-pure _ w (refl, refl, e)

-- What one action leaves of a task, its run, its graph execution and its lease.
pub record Reconciled (k now : ℕ) (task : TaskRow) (w : World) (a : Action) (v : World)
    : Type 0 where
  pub task_stands : Stands k task (target_of a task.state) v
  pub runs_stay : v.runs ≡ w.runs
  pub graph_stands : get k v.graphs ≡ graph_after a now (get k w.graphs)
  pub lease_gone : get k v.leases ≡ (if is_noop a then get k w.leases else none)

carry_out-Total :
    (a : Action) (k now : ℕ) (task : TaskRow) (w : World)
    → is_noop a ≡ false
    → get k w.tasks ≡ some task
    → in_project task.project_id (get k w.tasks) ≡ some task
    → Legal a task.state
    → Total
        (λ b v. (b ≡ a) × Reconciled k now task w a v)
        (carry_out a k now task (get k w.graphs) w)
unfolding carry_out clean_up release_reservations publish utc_now uuid4
carry_out-Total a k now task w busy stored found legal =
    Total-bind _ _ w (settle_task-Total a k task w stored found legal) λ after v s.
      Total-bind _ _ v (settle_graph-Total a k now (get k w.graphs) v (ap (get k) s.1.1)) λ _ u g.
        unfold ◌>>=◌ in
        finished (
          refl,
          record {
            task_stands = record {
              after = s.0.after;
              stored = ap (get k) g.0 ∙ s.0.stored;
              placed = s.0.placed;
              owned = s.0.owned;
            };
            runs_stay = g.1 ∙ s.1.0;
            graph_stands = g.2;
            lease_gone = get-remove_same a k u.leases _ busy;
          },
        )

idle-Reconciled :
    (a : Action) (k now : ℕ) (task : TaskRow) (w : World)
    → get k w.tasks ≡ some task
    → is_noop a ≡ true
    → Reconciled k now task w a w
unfolding target_of
idle-Reconciled Action.noop k now task w stored e = record {
  task_stands = record { after = task; stored = stored; placed = refl; owned = (refl, refl, refl) };
  runs_stay = refl;
  graph_stands = refl;
  lease_gone = refl;
}
idle-Reconciled Action.resume_checkpoint k now task w stored e = absurd (ground arith)
idle-Reconciled Action.finalize_domain k now task w stored e = absurd (ground arith)
idle-Reconciled Action.requeue_missing_checkpoint k now task w stored e = absurd (ground arith)
idle-Reconciled Action.domain_terminal_wins k now task w stored e = absurd (ground arith)
idle-Reconciled Action.graph_terminal_wins k now task w stored e = absurd (ground arith)
idle-Reconciled Action.quarantine k now task w stored e = absurd (ground arith)

act-Total :
    (a : Action) (k now : ℕ) (task : TaskRow) (w : World)
    → get k w.tasks ≡ some task
    → in_project task.project_id (get k w.tasks) ≡ some task
    → Legal a task.state
    → Total (λ b v. (b ≡ a) × Reconciled k now task w a v) (act a k now task (get k w.graphs) w)
unfolding act
act-Total a k now task w stored found legal =
    Total-if _ _ _ w (λ idle. Total-pure a w (refl, idle-Reconciled a k now task w stored idle))
      (λ busy. carry_out-Total a k now task w busy stored found legal)

-- `reconcile` of a task that stands in the project never raises: every transition it asks for is
-- in the table of transitions. It returns the decision, and leaves the task, the graph execution
-- and the lease as that action says.
pub reconcile-Total :
    (project_id k now : ℕ) (task : TaskRow) (w : World)
    → in_project project_id (get k w.tasks) ≡ some task
    → Total
        (λ a v. (a ≡ decision k task now w) × Reconciled k now task w a v)
        (reconcile project_id k now w)
unfolding reconcile reconcile_body decision
reconcile-Total project_id k now task w found =
    let at = found-same k project_id (get k w.tasks) task found in
    Total-transaction _ w (
      Total-gets _ _ w (
        Total-or_raise _ _ _ w task found (
          Total-gets _ _ w (
            Total-gets _ _ w (
              Total-weaken
                (act-Total _ k now task w at.0 at.1 (
                  decide-Legal task (get task.run_id w.runs) (get k w.graphs) (get k w.leases) now))
                λ a v s. (s.0, subst (λ b. Reconciled k now task w b v) (sym s.0) s.1))))))
