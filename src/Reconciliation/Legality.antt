-- ===== src/Reconciliation/Legality.antt =====
-- `_set_task_state`, execution/scheduler/reconciliation.py, and the table of transitions.
use autonomous_swe.Prelude.{ℕ, ◌≡◌, Bool, true, false, Option, none, some, arith, if◌then◌else◌}
use autonomous_swe.Domain.Enums.{TaskStatus, GraphExecutionState}
use autonomous_swe.Domain.Transitions.{require_task_transition, terminal_task}
use autonomous_swe.Persistence.Rows.{TaskRow, RunRow, GraphExecutionRow, LeaseRow, Action}
use autonomous_swe.Reconciliation.Decision.{decide, decide_states, decide_terminal, decide_running}
use autonomous_swe.Reconciliation.Service.{quarantine_target}

-- The state that an action moves a task to, which is its own where the action leaves it.
unfoldable pub target_of : Action → TaskStatus → TaskStatus
target_of Action.noop s = s
target_of Action.resume_checkpoint s = TaskStatus.ready
target_of Action.finalize_domain s = TaskStatus.completed
target_of Action.requeue_missing_checkpoint s = TaskStatus.ready
target_of Action.domain_terminal_wins s = s
target_of Action.graph_terminal_wins s = TaskStatus.cancelled
target_of Action.quarantine s = if terminal_task s then s else quarantine_target s

-- Whether an action moves a task.
unfoldable pub moves : Action → TaskStatus → Bool
moves Action.noop s = false
moves Action.domain_terminal_wins s = false
moves Action.quarantine s = if terminal_task s then false else true
moves _ s = true

abbrev pub Legal : Action → TaskStatus → Type 0
Legal a s = moves a s ≡ true → require_task_transition s (target_of a s) ≡ true

decide_states-Legal :
    (s : TaskStatus) (g : GraphExecutionState) (foreign expired : Bool)
    → Legal (decide_states s g foreign expired) s
unfolding decide_states decide_terminal decide_running target_of moves require_task_transition
    quarantine_target
decide_states-Legal s g foreign expired h = ground arith

pub decide-Legal :
    (task : TaskRow) (run : Option RunRow) (graph : Option GraphExecutionRow)
    (lease : Option LeaseRow) (now : ℕ)
    → Legal (decide task run graph lease now) task.state
unfolding decide target_of moves require_task_transition
decide-Legal task run none lease now h = ground arith
decide-Legal task run (some g) lease now h = decide_states-Legal task.state g.state _ _ h
