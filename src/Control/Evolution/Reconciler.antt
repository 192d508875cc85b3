-- ===== src/Control/Evolution/Reconciler.antt =====
-- execution/scheduler/reconciliation.py: no operation moves a task but by a legal transition.
use autonomous_swe.Prelude.{ℕ, refl, String, Option, none, some}
use autonomous_swe.Domain.Enums.{TaskStatus, GraphExecutionState}
use autonomous_swe.Persistence.Rows.{TaskRow, GraphExecutionRow, Action, Resolution}
use autonomous_swe.Persistence.Session.{pure, utc_now, ◌>>=◌}
use autonomous_swe.Persistence.Repository.{
  GraphIdentity, write_graph, record_graph_execution, announce, settle, roll_over, keep_state,
  advance, move_graph, transition_graph_execution,
}
use autonomous_swe.Persistence.Evolution.{
  Evolving, Evolving-modify, Evolving-pure, Evolving-after_transition, put-Evolves,
}
use autonomous_swe.Domain.Transitions.{here}
use autonomous_swe.Control.Evolution.Scheduler.{row_rules}
use autonomous_swe.Reconciliation.Service.{
  set_task_state, park, quarantine_task, settle_task, settle_graph, carry_out, act, reconcile_body,
  reconcile, reconcile_each, reconcile_due, fail_task, resolve_task, resolve_parked, resolve_body,
  resolve_needs_reconciliation,
}

set_task_state-Evolving :
    (k : ℕ) (t : TaskRow) (target : TaskStatus) → Evolving (set_task_state k t target)
unfolding set_task_state utc_now ◌>>=◌
set_task_state-Evolving k t target =
    Evolving-after_transition t.project_id k t.version target _
      λ after v found. put-Evolves v.tasks k after _ found here

park-Evolving :
    (k : ℕ) (s : GraphExecutionState) (now : ℕ) (o : Option GraphExecutionRow)
    → Evolving (park k s now o)
unfolding park
park-Evolving k s now none = Evolving-pure tt
park-Evolving k s now (some g) = Evolving-modify _ λ t. refl

quarantine_task-Evolving : (k : ℕ) (t : TaskRow) → Evolving (quarantine_task k t)
unfolding quarantine_task
quarantine_task-Evolving k t = search (row_rules, set_task_state-Evolving) depth 12

settle_task-Evolving : (a : Action) (k : ℕ) (t : TaskRow) → Evolving (settle_task a k t)
unfolding settle_task
settle_task-Evolving Action.noop k t = Evolving-pure t
settle_task-Evolving Action.resume_checkpoint k t = search set_task_state-Evolving
settle_task-Evolving Action.finalize_domain k t = search set_task_state-Evolving
settle_task-Evolving Action.requeue_missing_checkpoint k t = search set_task_state-Evolving
settle_task-Evolving Action.domain_terminal_wins k t = Evolving-pure t
settle_task-Evolving Action.graph_terminal_wins k t = search set_task_state-Evolving
settle_task-Evolving Action.quarantine k t = search quarantine_task-Evolving

settle_graph-Evolving :
    (a : Action) (k now : ℕ) (o : Option GraphExecutionRow) → Evolving (settle_graph a k now o)
unfolding settle_graph
settle_graph-Evolving Action.noop k now o = Evolving-pure tt
settle_graph-Evolving Action.resume_checkpoint k now o = Evolving-pure tt
settle_graph-Evolving Action.finalize_domain k now o = Evolving-pure tt
settle_graph-Evolving Action.requeue_missing_checkpoint k now o = Evolving-pure tt
settle_graph-Evolving Action.domain_terminal_wins k now o = search park-Evolving
settle_graph-Evolving Action.graph_terminal_wins k now o = Evolving-pure tt
settle_graph-Evolving Action.quarantine k now o = search park-Evolving

act-Evolving :
    (a : Action) (k now : ℕ) (t : TaskRow) (o : Option GraphExecutionRow)
    → Evolving (act a k now t o)
unfolding act carry_out
act-Evolving a k now t o = search (row_rules, settle_task-Evolving, settle_graph-Evolving) depth 24

pub reconcile-Evolving : (p k now : ℕ) → Evolving (reconcile p k now)
unfolding reconcile reconcile_body
reconcile-Evolving p k now = search (row_rules, act-Evolving) depth 20

reconcile_each-Evolving : (now : ℕ) (c : ℕ × TaskRow) → Evolving (reconcile_each now c)
unfolding reconcile_each pure
reconcile_each-Evolving now (k, t) = record { runs = (reconcile-Evolving t.project_id k now).runs }

pub reconcile_due-Evolving : (limit now : ℕ) → Evolving (reconcile_due limit now)
unfolding reconcile_due
reconcile_due-Evolving limit now = search (row_rules, reconcile_each-Evolving) depth 12

write_graph-Evolving : (k : ℕ) (g : GraphExecutionRow) → Evolving (write_graph k g)
unfolding write_graph
write_graph-Evolving k g = Evolving-modify _ λ t. refl

record_graph_execution-Evolving :
    (i : GraphIdentity) (s : GraphExecutionState) (c : Option String)
    → Evolving (record_graph_execution i s c)
unfolding record_graph_execution
record_graph_execution-Evolving i s c = search (row_rules, write_graph-Evolving) depth 12

announce-Evolving :
    (i : GraphIdentity) (s t : GraphExecutionState) (g : GraphExecutionRow)
    → Evolving (announce i s t g)
unfolding announce
announce-Evolving i s t g = search row_rules depth 12

settle-Evolving :
    (i : GraphIdentity) (t : GraphExecutionState) (c : Option String) (now : ℕ)
    (g : GraphExecutionRow)
    → Evolving (settle i t c now g)
unfolding settle
settle-Evolving i t c now g = search (row_rules, write_graph-Evolving, announce-Evolving) depth 12

move_graph-Evolving :
    (i : GraphIdentity) (t : GraphExecutionState) (c : Option String) (now : ℕ)
    (o : Option GraphExecutionRow)
    → Evolving (move_graph i t c now o)
unfolding move_graph roll_over keep_state advance
move_graph-Evolving i t c now none =
    search (row_rules, record_graph_execution-Evolving, announce-Evolving) depth 12
move_graph-Evolving i t c now (some g) =
    search (row_rules, write_graph-Evolving, settle-Evolving) depth 24

transition_graph_execution-Evolving :
    (i : GraphIdentity) (t : GraphExecutionState) (c : Option String)
    → Evolving (transition_graph_execution i t c)
unfolding transition_graph_execution
transition_graph_execution-Evolving i t c = search (row_rules, move_graph-Evolving) depth 12

resolve_task-Evolving : (r : Resolution) (k : ℕ) (t : TaskRow) → Evolving (resolve_task r k t)
unfolding resolve_task fail_task
resolve_task-Evolving Resolution.fail k t = search (row_rules, set_task_state-Evolving) depth 12
resolve_task-Evolving Resolution.retry k t = search set_task_state-Evolving

resolve_parked-Evolving :
    (r : Resolution) (k now : ℕ) (t : TaskRow) (g : GraphExecutionRow)
    → Evolving (resolve_parked r k now t g)
unfolding resolve_parked
resolve_parked-Evolving r k now t g =
    search (row_rules, transition_graph_execution-Evolving, resolve_task-Evolving) depth 20

pub resolve_needs_reconciliation-Evolving :
    (p k : ℕ) (r : Resolution) (now : ℕ) → Evolving (resolve_needs_reconciliation p k r now)
unfolding resolve_needs_reconciliation resolve_body
resolve_needs_reconciliation-Evolving p k r now =
    search (row_rules, resolve_parked-Evolving) depth 20
