-- ===== src/Reconciliation/Service.antt =====
-- execution/scheduler/reconciliation.py: the operations of `ReconciliationService`. `_release_lease`
-- is the `clean_up` of the scheduler. A graph execution that the session has loaded is the row of
-- its table, which an assignment to the object writes.
use autonomous_swe.Prelude.{
  ℕ, ◌&&◌, ◌||◌, Bool, true, false, not, Option, none, some, List, [], ◌∷◌, ◌++◌, Table, get, put,
  take, where_true, sort_by, any, leb, ◌==◌, if◌then◌else◌,
}
use autonomous_swe.Domain.Enums.{TaskStatus, GraphExecutionState}
use autonomous_swe.Domain.Equality.{task_is, graph_is}
use autonomous_swe.Domain.Transitions.{require_task_transition, terminal_task, terminal_graph}
use autonomous_swe.Persistence.Rows.{
  TaskRow, GraphExecutionRow, Action, Resolution, reconciled, resolved, Topic,
}
use autonomous_swe.Persistence.Session.{
  World, Result, return, raise, Exec, pure, gets, or_raise, modify, transaction, for_each, utc_now,
  lookup_error, value_error, ◌>>=◌, ◌>>◌, test◌then◌else◌,
}
use autonomous_swe.Persistence.Repository.{
  in_project, transition_task, transition_graph_execution, GraphIdentity, publish,
}
use autonomous_swe.Scheduler.Service.{clean_up}
use autonomous_swe.Reconciliation.Decision.{decide, lapsed}

unfoldable pub set_task_state : ℕ → TaskRow → TaskStatus → Exec TaskRow
set_task_state task_id task target = do
  after ← transition_task task.project_id task_id task.version target
  now ← utc_now
  modify (λ t. record t { tasks = put task_id (record after { state_entered_at = now }) t.tasks })
  pure (record after { state_entered_at = now })

-- `graph.state = …` and `graph.state_entered_at = …`, where there is a graph execution
unfoldable pub park : ℕ → GraphExecutionState → ℕ → Option GraphExecutionRow → Exec Unit
park task_id state now none = pure tt
park task_id state now (some graph) = modify λ t. record t {
  graphs = put task_id (record graph { state = state; state_entered_at = now }) t.graphs;
}

unfoldable pub quarantine_target : TaskStatus → TaskStatus
quarantine_target state =
    if require_task_transition state TaskStatus.blocked
    then TaskStatus.blocked
    else TaskStatus.cancelled

unfoldable pub quarantine_task : ℕ → TaskRow → Exec TaskRow
quarantine_task task_id task =
    test terminal_task task.state
    then pure task
    else set_task_state task_id task (quarantine_target task.state)

-- The task as the session has it after the branch of an action.
unfoldable pub settle_task : Action → ℕ → TaskRow → Exec TaskRow
settle_task Action.noop task_id task = pure task
settle_task Action.resume_checkpoint task_id task = set_task_state task_id task TaskStatus.ready
settle_task Action.finalize_domain task_id task = set_task_state task_id task TaskStatus.completed
settle_task Action.requeue_missing_checkpoint task_id task =
    set_task_state task_id task TaskStatus.ready
settle_task Action.domain_terminal_wins task_id task = pure task
settle_task Action.graph_terminal_wins task_id task =
    set_task_state task_id task TaskStatus.cancelled
settle_task Action.quarantine task_id task = quarantine_task task_id task

unfoldable pub settle_graph : Action → ℕ → ℕ → Option GraphExecutionRow → Exec Unit
settle_graph Action.domain_terminal_wins task_id now graph =
    park task_id GraphExecutionState.cancelled now graph
settle_graph Action.quarantine task_id now graph =
    park task_id GraphExecutionState.needs_reconciliation now graph
settle_graph _ task_id now graph = pure tt

abbrev pub graph_state : Option GraphExecutionRow → Option GraphExecutionState
graph_state none = none
graph_state (some graph) = some graph.state

unfoldable pub carry_out : Action → ℕ → ℕ → TaskRow → Option GraphExecutionRow → Exec Action
carry_out action task_id now task graph = do
  after ← settle_task action task_id task
  settle_graph action task_id now graph
  clean_up task_id now
  settled ← gets (λ w. graph_state (get task_id w.graphs))
  publish Topic.reconciliation task_id task.run_id (reconciled action task_id after.state settled)
  pure action

abbrev pub is_noop : Action → Bool
is_noop Action.noop = true
is_noop _ = false

unfoldable pub act : Action → ℕ → ℕ → TaskRow → Option GraphExecutionRow → Exec Action
act action task_id now task graph =
    test is_noop action then pure action else carry_out action task_id now task graph

-- What `_decide` is asked in a world.
unfoldable pub decision : ℕ → TaskRow → ℕ → World → Action
decision task_id task now w =
    decide task (get task.run_id w.runs) (get task_id w.graphs) (get task_id w.leases) now

unfoldable pub reconcile_body : ℕ → ℕ → ℕ → Exec Action
reconcile_body project_id task_id now = do
  found ← gets (λ w. in_project project_id (get task_id w.tasks))
  task ← or_raise found lookup_error
  graph ← gets (λ w. get task_id w.graphs)
  action ← gets (decision task_id task now)
  act action task_id now task graph

unfoldable pub reconcile : ℕ → ℕ → ℕ → Exec Action
reconcile project_id task_id now = transaction (reconcile_body project_id task_id now)

abbrev terminal_graph_row : Option GraphExecutionRow → Bool
terminal_graph_row none = false
terminal_graph_row (some graph) = terminal_graph graph.state

-- The `where` of the first scan of `reconcile_due`.
unfoldable pub in_flight_due : ℕ → World → ℕ × TaskRow → Bool
in_flight_due now w (i, task) =
    (task_is task.state TaskStatus.running || task_is task.state TaskStatus.leased)
    && (lapsed (get i w.leases) now || terminal_graph_row (get i w.graphs))

unfoldable pub disagrees : TaskStatus → GraphExecutionState → Bool
disagrees task graph =
    (task_is task TaskStatus.completed && not (graph_is graph GraphExecutionState.completed))
    || (task_is task TaskStatus.failed && not (graph_is graph GraphExecutionState.failed))
    || (task_is task TaskStatus.cancelled && not (graph_is graph GraphExecutionState.cancelled))

unfoldable pub disagrees_with : TaskStatus → Option GraphExecutionRow → Bool
unfolding disagrees
disagrees_with task none = false
disagrees_with task (some graph) = disagrees task graph.state

-- The `where` of the second scan, which joins the graph executions.
unfoldable pub settled_but_divergent : World → ℕ × TaskRow → Bool
unfolding disagrees_with
settled_but_divergent w (i, task) = disagrees_with task.state (get i w.graphs)

-- `ORDER BY state_entered_at`
abbrev pub entered_before : ℕ × TaskRow → ℕ × TaskRow → Bool
entered_before (i, a) (j, b) = leb a.state_entered_at b.state_entered_at

-- What a scan selects: the rows of its `where`, in the order of the column, up to the limit.
unfoldable pub scanned : (ℕ × TaskRow → Bool) → ℕ → Table TaskRow → Table TaskRow
scanned due limit tasks = take limit (sort_by entered_before (where_true due tasks))

abbrev pub same_candidate : ℕ × TaskRow → ℕ × TaskRow → Bool
same_candidate (i, a) (j, b) = i == j && a.project_id == b.project_id

-- The two scans without the candidates that were seen before.
unfoldable pub unseen : Table TaskRow → Table TaskRow → Table TaskRow
unseen seen [] = []
unseen seen (c ∷ rest) =
    let more = unseen (c ∷ seen) rest in
    if any (same_candidate c) seen then unseen seen rest else c ∷ more

unfoldable pub due : ℕ → ℕ → World → Table TaskRow
unfolding unseen scanned
due limit now w =
    unseen [] (
      scanned (in_flight_due now w) limit w.tasks
      ++ scanned (settled_but_divergent w) limit w.tasks)

-- `try: … except Exception: logger.error(…)`
abbrev caught : {A : Type 0} → Result A → Option A
caught (return a) = some a
caught (raise e) = none

abbrev attempt : {A : Type 0} → Exec A → Exec (Option A)
attempt m w = let (r, v) = m w in pure (caught r) v

unfoldable pub reconcile_each : ℕ → ℕ × TaskRow → Exec (Option Action)
reconcile_each now (i, task) = attempt (reconcile task.project_id i now)

unfoldable pub reconcile_due : ℕ → ℕ → Exec (List (Option Action))
unfolding due
reconcile_due limit now = do rows ← gets (due limit now); for_each rows (reconcile_each now)

abbrev identity_of : ℕ → GraphExecutionRow → GraphIdentity
identity_of task_id graph = record {
  task_id = task_id;
  run_id = graph.run_id;
  repository_id = graph.repository_id;
  baseline_commit = graph.baseline_commit;
  thread_id = graph.thread_id;
}

-- The tasks that wait for an operator.
abbrev pub parked : Option GraphExecutionRow → Option GraphExecutionRow
parked none = none
parked (some graph) =
    if graph_is graph.state GraphExecutionState.needs_reconciliation then some graph else none

unfoldable pub fail_task : ℕ → TaskRow → Exec TaskRow
fail_task task_id task =
    test task_is task.state TaskStatus.failed
    then pure task
    else set_task_state task_id task TaskStatus.failed

unfoldable pub resolve_task : Resolution → ℕ → TaskRow → Exec TaskRow
resolve_task Resolution.fail task_id task = fail_task task_id task
resolve_task Resolution.retry task_id task = set_task_state task_id task TaskStatus.ready

abbrev resolution_target : Resolution → GraphExecutionState
resolution_target Resolution.fail = GraphExecutionState.failed
resolution_target Resolution.retry = GraphExecutionState.cancelled

abbrev pub resolution_action : Resolution → Action
resolution_action Resolution.fail = Action.domain_terminal_wins
resolution_action Resolution.retry = Action.graph_terminal_wins

unfoldable pub resolve_parked : Resolution → ℕ → ℕ → TaskRow → GraphExecutionRow → Exec Action
resolve_parked resolution task_id now task graph = do
  moved ←
      transition_graph_execution (identity_of task_id graph) (resolution_target resolution)
        graph.checkpoint_id
  after ← resolve_task resolution task_id task
  clean_up task_id now
  publish Topic.reconciliation task_id task.run_id
      (resolved (resolution_action resolution) resolution task_id after.state moved.state)
  pure (resolution_action resolution)

unfoldable pub resolve_body : ℕ → ℕ → Resolution → ℕ → Exec Action
resolve_body project_id task_id resolution now = do
  found ← gets (λ w. in_project project_id (get task_id w.tasks))
  task ← or_raise found lookup_error
  waiting ← gets (λ w. parked (get task_id w.graphs))
  graph ← or_raise waiting value_error
  resolve_parked resolution task_id now task graph

unfoldable pub resolve_needs_reconciliation : ℕ → ℕ → Resolution → ℕ → Exec Action
resolve_needs_reconciliation project_id task_id resolution now =
    transaction (resolve_body project_id task_id resolution now)
