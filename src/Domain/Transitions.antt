-- ===== src/Domain/Transitions.antt =====
-- domain/events.py: the transition guards. A guard that raises `InvalidStateTransition` is `false`.
use autonomous_swe.Prelude.{◌≡◌, refl, ◌↔◌, Bool, true, false, any, arith}
use autonomous_swe.Domain.Enums.{
  TaskStatus, GraphExecutionState, RunStatus, task_transitions, graph_execution_transitions,
  run_transitions,
}
use autonomous_swe.Domain.Equality.{task_is, graph_is, run_is}

unfoldable pub require_task_transition : TaskStatus → TaskStatus → Bool
require_task_transition current target = any (task_is target) (task_transitions current)

unfoldable pub require_graph_transition : GraphExecutionState → GraphExecutionState → Bool
require_graph_transition current target =
    any (graph_is target) (graph_execution_transitions current)

unfoldable pub require_run_transition : RunStatus → RunStatus → Bool
require_run_transition current target = any (run_is target) (run_transitions current)

-- COMPLETED, FAILED and CANCELLED, the set that the services write out.
abbrev pub terminal_task : TaskStatus → Bool
terminal_task TaskStatus.completed = true
terminal_task TaskStatus.failed = true
terminal_task TaskStatus.cancelled = true
terminal_task _ = false

abbrev pub terminal_graph : GraphExecutionState → Bool
terminal_graph GraphExecutionState.completed = true
terminal_graph GraphExecutionState.failed = true
terminal_graph GraphExecutionState.cancelled = true
terminal_graph _ = false

-- Legal chains of task states.
pub data TaskPath : TaskStatus → TaskStatus → Type 0 where
  here : {s : TaskStatus} → TaskPath s s
  next : {s t u : TaskStatus} → TaskPath s t → require_task_transition t u ≡ true → TaskPath s u

terminal_task_stays :
    (s t : TaskStatus) → terminal_task s ≡ true → require_task_transition s t ≡ false
unfolding require_task_transition
terminal_task_stays s t h = ground arith

-- A task leaves a state exactly when the state is not terminal; then it may also be cancelled at
-- once.
pub cancellable_iff_not_terminal :
    (s : TaskStatus)
    → (require_task_transition s TaskStatus.cancelled ≡ true) ↔ (terminal_task s ≡ false)
unfolding require_task_transition
cancellable_iff_not_terminal s = ground arith

-- Whatever chain of legal transitions follows, a terminal task keeps its state.
pub terminal_task_absorbs : {s t : TaskStatus} → TaskPath s t → terminal_task s ≡ true → s ≡ t
terminal_task_absorbs here h = refl
terminal_task_absorbs {s = a} (next {t = m} {u = v} p e) h =
    ground (arith, terminal_task_absorbs p h, terminal_task_stays a v h)
