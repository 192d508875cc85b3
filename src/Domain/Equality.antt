-- ===== src/Domain/Equality.antt =====
-- `is` on the members of an enumeration.
use autonomous_swe.Prelude.{Bool, true, false}
use autonomous_swe.Domain.Enums.{TaskStatus, GraphExecutionState, RunStatus}

abbrev pub task_is : TaskStatus → TaskStatus → Bool
task_is TaskStatus.pending TaskStatus.pending = true
task_is TaskStatus.ready TaskStatus.ready = true
task_is TaskStatus.leased TaskStatus.leased = true
task_is TaskStatus.running TaskStatus.running = true
task_is TaskStatus.blocked TaskStatus.blocked = true
task_is TaskStatus.completed TaskStatus.completed = true
task_is TaskStatus.failed TaskStatus.failed = true
task_is TaskStatus.cancelled TaskStatus.cancelled = true
task_is _ _ = false

abbrev pub graph_is : GraphExecutionState → GraphExecutionState → Bool
graph_is GraphExecutionState.not_started GraphExecutionState.not_started = true
graph_is GraphExecutionState.running GraphExecutionState.running = true
graph_is GraphExecutionState.waiting_for_tool GraphExecutionState.waiting_for_tool = true
graph_is GraphExecutionState.waiting_for_approval GraphExecutionState.waiting_for_approval = true
graph_is GraphExecutionState.waiting_for_memory GraphExecutionState.waiting_for_memory = true
graph_is GraphExecutionState.paused GraphExecutionState.paused = true
graph_is GraphExecutionState.completed GraphExecutionState.completed = true
graph_is GraphExecutionState.failed GraphExecutionState.failed = true
graph_is GraphExecutionState.cancelled GraphExecutionState.cancelled = true
graph_is GraphExecutionState.needs_reconciliation GraphExecutionState.needs_reconciliation = true
graph_is _ _ = false

abbrev pub run_is : RunStatus → RunStatus → Bool
run_is RunStatus.pending RunStatus.pending = true
run_is RunStatus.planning RunStatus.planning = true
run_is RunStatus.executing RunStatus.executing = true
run_is RunStatus.waiting_for_approval RunStatus.waiting_for_approval = true
run_is RunStatus.waiting_for_memory RunStatus.waiting_for_memory = true
run_is RunStatus.completed RunStatus.completed = true
run_is RunStatus.failed RunStatus.failed = true
run_is RunStatus.cancelled RunStatus.cancelled = true
run_is _ _ = false
