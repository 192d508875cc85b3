-- ===== src/Domain/Enums.antt =====
-- domain/enums.py: the enumerations and the transition tables.
use autonomous_swe.Prelude.{Bool, true, false, List, [], ◌∷◌}

pub data TaskType : Type 0 where
  research implementation test refactor documentation validation : TaskType

pub data TaskStatus : Type 0 where
  pending ready leased running blocked completed failed cancelled : TaskStatus

pub data GraphExecutionState : Type 0 where
  not_started running waiting_for_tool waiting_for_approval waiting_for_memory : GraphExecutionState
  paused completed failed cancelled needs_reconciliation : GraphExecutionState

pub data RunStatus : Type 0 where
  pending planning executing waiting_for_approval waiting_for_memory : RunStatus
  completed failed cancelled : RunStatus

pub data RiskLevel : Type 0 where
  low medium high critical : RiskLevel

pub data ApprovalStatus : Type 0 where
  pending approved rejected expired cancelled : ApprovalStatus

pub data RetryCategory : Type 0 where
  transient permanent policy budget cancellation uncertain_side_effect : RetryCategory

abbrev pub task_transitions : TaskStatus → List TaskStatus
task_transitions TaskStatus.pending = TaskStatus.ready ∷ TaskStatus.cancelled ∷ []
task_transitions TaskStatus.ready =
    TaskStatus.leased ∷ TaskStatus.blocked ∷ TaskStatus.failed ∷ TaskStatus.cancelled ∷ []
task_transitions TaskStatus.leased =
    TaskStatus.running ∷ TaskStatus.ready ∷ TaskStatus.failed ∷ TaskStatus.cancelled ∷ []
task_transitions TaskStatus.running =
    TaskStatus.ready ∷ TaskStatus.blocked ∷ TaskStatus.completed ∷ TaskStatus.failed
    ∷ TaskStatus.cancelled ∷ []
task_transitions TaskStatus.blocked =
    TaskStatus.ready ∷ TaskStatus.failed ∷ TaskStatus.cancelled ∷ []
task_transitions TaskStatus.completed = []
task_transitions TaskStatus.failed = []
task_transitions TaskStatus.cancelled = []

abbrev pub graph_execution_transitions : GraphExecutionState → List GraphExecutionState
graph_execution_transitions GraphExecutionState.not_started =
    GraphExecutionState.running ∷ GraphExecutionState.cancelled ∷ []
graph_execution_transitions GraphExecutionState.running =
    GraphExecutionState.waiting_for_tool ∷ GraphExecutionState.waiting_for_approval
    ∷ GraphExecutionState.waiting_for_memory ∷ GraphExecutionState.paused
    ∷ GraphExecutionState.completed ∷ GraphExecutionState.failed ∷ GraphExecutionState.cancelled
    ∷ GraphExecutionState.needs_reconciliation ∷ []
graph_execution_transitions GraphExecutionState.waiting_for_tool =
    GraphExecutionState.running ∷ GraphExecutionState.failed ∷ GraphExecutionState.cancelled
    ∷ GraphExecutionState.needs_reconciliation ∷ []
graph_execution_transitions GraphExecutionState.waiting_for_approval =
    GraphExecutionState.running ∷ GraphExecutionState.failed ∷ GraphExecutionState.cancelled ∷ []
graph_execution_transitions GraphExecutionState.waiting_for_memory =
    GraphExecutionState.running ∷ GraphExecutionState.failed ∷ GraphExecutionState.cancelled ∷ []
graph_execution_transitions GraphExecutionState.paused =
    GraphExecutionState.running ∷ GraphExecutionState.failed ∷ GraphExecutionState.cancelled ∷ []
graph_execution_transitions GraphExecutionState.completed = []
graph_execution_transitions GraphExecutionState.failed = []
graph_execution_transitions GraphExecutionState.cancelled = []
graph_execution_transitions GraphExecutionState.needs_reconciliation =
    GraphExecutionState.running ∷ GraphExecutionState.completed ∷ GraphExecutionState.failed
    ∷ GraphExecutionState.cancelled ∷ []

abbrev pub run_transitions : RunStatus → List RunStatus
run_transitions RunStatus.pending = RunStatus.planning ∷ RunStatus.cancelled ∷ []
run_transitions RunStatus.planning =
    RunStatus.executing ∷ RunStatus.failed ∷ RunStatus.cancelled ∷ []
run_transitions RunStatus.executing =
    RunStatus.waiting_for_approval ∷ RunStatus.waiting_for_memory ∷ RunStatus.completed
    ∷ RunStatus.failed ∷ RunStatus.cancelled ∷ []
run_transitions RunStatus.waiting_for_approval =
    RunStatus.waiting_for_memory ∷ RunStatus.completed ∷ RunStatus.failed ∷ RunStatus.cancelled ∷ []
run_transitions RunStatus.waiting_for_memory =
    RunStatus.completed ∷ RunStatus.failed ∷ RunStatus.cancelled ∷ []
run_transitions RunStatus.completed = []
run_transitions RunStatus.failed = []
run_transitions RunStatus.cancelled = []

-- `RUN_TERMINAL_STATES`
abbrev pub run_terminal : RunStatus → Bool
run_terminal RunStatus.completed = true
run_terminal RunStatus.failed = true
run_terminal RunStatus.cancelled = true
run_terminal _ = false
