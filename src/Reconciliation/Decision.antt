-- ===== src/Reconciliation/Decision.antt =====
-- execution/scheduler/reconciliation.py: `_decide`.
use autonomous_swe.Prelude.{
  ℕ, Bool, true, false, not, ◌&&◌, ◌||◌, Option, none, some, leb, ◌==◌, str_eq, if◌then◌else◌,
}
use autonomous_swe.Domain.Enums.{TaskStatus, GraphExecutionState}
use autonomous_swe.Domain.Equality.{task_is, graph_is}
use autonomous_swe.Domain.Transitions.{terminal_task, terminal_graph}
use autonomous_swe.Persistence.Rows.{TaskRow, RunRow, GraphExecutionRow, LeaseRow, Action}

-- The graph execution belongs to another run, repository or baseline.
unfoldable pub mismatched : TaskRow → Option RunRow → GraphExecutionRow → Bool
mismatched task none graph = true
mismatched task (some run) graph =
    not (graph.run_id == task.run_id)
    || not (graph.repository_id == task.repository_id)
    || not (str_eq graph.baseline_commit run.baseline_commit)

unfoldable pub lapsed : Option LeaseRow → ℕ → Bool
lapsed none now = false
lapsed (some l) now = leb l.expires_at now

unfoldable pub decide_terminal : TaskStatus → GraphExecutionState → Action
decide_terminal task graph =
    if graph_is graph GraphExecutionState.cancelled
    then Action.noop
    else if terminal_graph graph
    then (if (task_is task TaskStatus.completed && graph_is graph GraphExecutionState.completed)
          || (task_is task TaskStatus.failed && graph_is graph GraphExecutionState.failed)
        then Action.noop
        else Action.quarantine)
    else Action.domain_terminal_wins

unfoldable pub decide_running : GraphExecutionState → Bool → Action
decide_running graph expired =
    if graph_is graph GraphExecutionState.completed
    then Action.finalize_domain
    else if expired
    then Action.resume_checkpoint
    else Action.noop

-- `_decide` of a task with a graph execution, where the two identities agree or not
unfoldable pub decide_states : TaskStatus → GraphExecutionState → Bool → Bool → Action
unfolding decide_terminal decide_running
decide_states task graph foreign expired =
    if graph_is graph GraphExecutionState.needs_reconciliation
    then Action.noop
    else if graph_is graph GraphExecutionState.cancelled && not (terminal_task task)
    then Action.graph_terminal_wins
    else if foreign
    then Action.quarantine
    else if terminal_task task
    then decide_terminal task graph
    else if task_is task TaskStatus.running
    then decide_running graph expired
    else Action.noop

unfoldable pub decide :
    TaskRow → Option RunRow → Option GraphExecutionRow → Option LeaseRow → ℕ → Action
unfolding decide_states mismatched lapsed
decide task run none lease now =
    if terminal_task task.state
    then Action.noop
    else if task_is task.state TaskStatus.running
    then Action.requeue_missing_checkpoint
    else Action.noop
decide task run (some graph) lease now =
    decide_states task.state graph.state (mismatched task run graph) (lapsed lease now)
