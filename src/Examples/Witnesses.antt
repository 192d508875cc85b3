-- ===== src/Examples/Witnesses.antt =====
-- Theorems of the other modules at concrete worlds.
use autonomous_swe.Prelude.{
  length, ◌∷◌, ◌⊎◌, ◌≤◌, arith, ◌<◌, ◌≡◌, ◌↔◌, refl, true, false, none, some, get,
}
use autonomous_swe.Domain.Enums.{TaskStatus, GraphExecutionState, RetryCategory}
use autonomous_swe.Examples.Worlds.{
  graph_in, parked_world, consumer, delivery, receipt_world, policy, service, task_in, run_row,
  repository_row, lease_row, attempt_row, ready_world, running_world, divergent_world, spent_world,
  dispatch, unlocked, publisher, old_event, message_row,
}
use autonomous_swe.Persistence.Rows.{Resource, Action, Resolution}
use autonomous_swe.Persistence.Session.{Exec, return, raise, ◌>>=◌, stale_state, budget_exhausted}
use autonomous_swe.Persistence.Repository.{transition_task}
use autonomous_swe.Persistence.Post.{Post}
use autonomous_swe.Persistence.Total.{Total, returned}
use autonomous_swe.Persistence.Transition.{Moved, transition_task-Moved}
use autonomous_swe.Persistence.Refusals.{transition_task-refused, transition_task-once}
use autonomous_swe.Scheduler.Reservations.{active_units, units_where}
use autonomous_swe.Scheduler.Claiming.{claim_ready}
use autonomous_swe.Scheduler.Invariant.{IsSound}
use autonomous_swe.Scheduler.Execution.{
  heartbeat, start_claim, finish_claim, exhausted, run_cost, count_attempts,
}
use autonomous_swe.Domain.Transitions.{
  require_task_transition, terminal_task, TaskPath, terminal_task_absorbs,
  cancellable_iff_not_terminal,
}
use autonomous_swe.Scheduler.Policy.{
  AdmissionSnapshot, ResourceRequest, RetryBudget, Fits, evaluate_admission, evaluate_retry,
  evaluate_admission_iff, evaluate_retry_iff,
}
use autonomous_swe.Reconciliation.Service.{decision, reconcile}
use autonomous_swe.Reconciliation.Outcome.{Reconciled, reconcile-Total}
use autonomous_swe.Reconciliation.Convergence.{reconcile_twice-settles}
use autonomous_swe.Scheduler.Outcomes.Finish.{
  MayFinish, Finished, Passed, finish_claim-Total, finish_claim-Passed,
}
use autonomous_swe.Scheduler.Outcomes.Admission.{Known, Refused, start_claim-exhausted}
use autonomous_swe.Scheduler.Outcomes.Attempts.{Capped, start_claim-Capped}
use autonomous_swe.Scheduler.Outcomes.Leases.{heartbeat_lem}
use autonomous_swe.Messaging.Outbox.{publish_batch, claim_row, mark_published, mark_failed}
use autonomous_swe.Messaging.Rows.{Orderly, publish_batch-Orderly}
use autonomous_swe.Messaging.Fencing.{taken, lost_claim-keeps}
use autonomous_swe.Reconciliation.Service.{resolve_needs_reconciliation}
use autonomous_swe.Reconciliation.Resolution.{resolve_needs_reconciliation-stuck}
use autonomous_swe.Scheduler.Outcomes.Granted.{AllGranted, claim_ready-Granted}
use autonomous_swe.Messaging.Consumer.{duplicate, receipt_of, process}
use autonomous_swe.Messaging.Delivery.{
  KeepsReceipt, settled_outcome, process-once, process-received,
}
use autonomous_swe.Reconciliation.Scan.{selects, due-divergent}
use autonomous_swe.Reconciliation.Decision.{
  lapsed, mismatched, decide, decide_states, decide_terminal,
}
use autonomous_swe.Reconciliation.Service.{settled_but_divergent, scanned, due}
use autonomous_swe.Control.Steps.{claims, beats, here, after}
use autonomous_swe.Control.Reachable.{Reach-IsSound, Reach-capped}

capped_example :
    active_units Resource.model (claim_ready service "w1" 10 50 unlocked ready_world).1.reservations
    ≤ 1
unfolding get
capped_example =
    Reach-capped {s = service} {w = ready_world} (refl, tt) refl refl
      (after here (claims "w1" 10 50 unlocked)) Resource.model

ready_world-IsSound : IsSound policy ready_world.tasks ready_world.leases ready_world.reservations
unfolding get units_where
ready_world-IsSound = record {
  keyed = (refl, tt);
  leased_flies = λ j e. absurd (ground (arith, e));
  held_leased = λ j e. refl;
  capped = λ r. ground arith;
}

reach_all_example :
    let v =
      (heartbeat service 7 "w1" 500 55 (claim_ready service "w1" 10 50 unlocked ready_world).1).1 in
    IsSound policy v.tasks v.leases v.reservations
reach_all_example =
    Reach-IsSound {s = service} {w = ready_world}
      (after (after here (claims "w1" 10 50 unlocked)) (beats 7 "w1" 500 55)) ready_world-IsSound

settles_example :
    let v = (reconcile 1 7 50 divergent_world).1 in
    let u = (reconcile 1 7 50 v).1 in (reconcile 1 7 50 u).0 ≡ return Action.noop
unfolding get
settles_example = reconcile_twice-settles 1 7 50 (task_in TaskStatus.completed) divergent_world refl

reconcile_example :
    Total
      (λ a v.
        (a ≡ decision 7 (task_in TaskStatus.completed) 50 divergent_world)
        × Reconciled 7 50 (task_in TaskStatus.completed) divergent_world a v)
      (reconcile 1 7 50 divergent_world)
unfolding get
reconcile_example = reconcile-Total 1 7 50 (task_in TaskStatus.completed) divergent_world refl

running_world-MayFinish :
    MayFinish service dispatch TaskStatus.completed 100
      (running_world GraphExecutionState.completed).tables
unfolding get require_task_transition
running_world-MayFinish = record {
  task = task_in TaskStatus.running;
  stands = refl;
  ends = refl;
  legal = refl;
  lease = lease_row;
  leased = refl;
  owned = refl;
  in_time = refl;
  agrees = refl;
  attempt = attempt_row;
  attempted = refl;
  mine = refl;
}

finish_example :
    Total
      (λ _ v. Finished dispatch TaskStatus.completed 100 v)
      (finish_claim service dispatch TaskStatus.completed
        (running_world GraphExecutionState.completed))
finish_example =
    finish_claim-Total service dispatch TaskStatus.completed
      (running_world GraphExecutionState.completed) running_world-MayFinish

finish_needs_example :
    Post
      (λ _ v.
        Passed service dispatch TaskStatus.completed 100
          (running_world GraphExecutionState.completed).tables)
      (finish_claim service dispatch TaskStatus.completed
        (running_world GraphExecutionState.completed))
finish_needs_example =
    finish_claim-Passed service dispatch TaskStatus.completed
      (running_world GraphExecutionState.completed)

spent_world-Known : Known dispatch spent_world.tables
unfolding get
spent_world-Known = record {
  task = task_in TaskStatus.ready;
  stands = refl;
  run = run_row;
  runs = refl;
  repository = repository_row;
  located = refl;
}

exhausted_example :
    ((start_claim service dispatch 50 spent_world).0 ≡ raise budget_exhausted)
    × Refused 7 (start_claim service dispatch 50 spent_world).1
unfolding spent_world-Known require_task_transition exhausted run_cost count_attempts
exhausted_example =
    start_claim-exhausted service dispatch 50 spent_world spent_world-Known refl refl

spent_world-Capped : Capped service spent_world.tables
unfolding count_attempts
spent_world-Capped j = ground arith

attempts_example : Capped service (start_claim service dispatch 50 spent_world).1.tables
attempts_example = start_claim-Capped service dispatch 50 spent_world spent_world-Capped

once_example :
    Post
      (λ _ v. transition_task 1 7 5 TaskStatus.cancelled v ≡ (raise stale_state, v))
      (transition_task 1 7 5 TaskStatus.leased ready_world)
once_example = transition_task-once 1 7 5 TaskStatus.leased TaskStatus.cancelled ready_world

refused_example :
    transition_task 1 7 4 TaskStatus.leased ready_world ≡ (raise stale_state, ready_world)
unfolding get
refused_example = transition_task-refused 1 7 4 TaskStatus.leased stale_state ready_world refl

moved_example :
    Post
      (Moved 1 7 5 TaskStatus.leased ready_world)
      (transition_task 1 7 5 TaskStatus.leased ready_world)
moved_example = transition_task-Moved 1 7 5 TaskStatus.leased ready_world

heartbeat_example :
    ((heartbeat service 7 "w1" 77 100 (running_world GraphExecutionState.running)).0 ≡ return true)
    × (get 7 (heartbeat service 7 "w1" 77 100 (running_world GraphExecutionState.running)).1.leases
        ≡ some record lease_row { heartbeat_at = 100; expires_at = 160 })
    × (lapsed
          (get 7
            (heartbeat service 7 "w1" 77 100 (running_world GraphExecutionState.running)).1.leases)
          159
        ≡ false)
unfolding get
heartbeat_example =
    heartbeat_lem service 7 "w1" 77 100 159 (running_world GraphExecutionState.running)

orderly_example :
    Orderly (publish_batch publisher (λ _. some "down") 10 50 unlocked ready_world).1.tables
orderly_example =
    publish_batch-Orderly publisher (λ _. some "down") 10 50 unlocked ready_world (refl, tt)

lost_claim_example :
    (mark_published old_event 55 (taken publisher 50 40 message_row ready_world)
      ≡ (return false, taken publisher 50 40 message_row ready_world))
    × ((mark_failed publisher old_event "late" 55 (taken publisher 50 40 message_row ready_world)).1
        ≡ taken publisher 50 40 message_row ready_world)
    × (((claim_row publisher 50 (40, message_row) >>= λ own. mark_published own 55) ready_world).0
        ≡ return true)
unfolding get
lost_claim_example =
    lost_claim-keeps publisher publisher old_event message_row "late" 50 55 ready_world (refl, tt)
      refl refl refl

absorbs_example : TaskStatus.failed ≡ TaskStatus.failed
absorbs_example = terminal_task_absorbs (TaskPath.here {s = TaskStatus.failed}) refl

cancellable_example :
    (require_task_transition TaskStatus.blocked TaskStatus.cancelled ≡ true)
    ↔ (terminal_task TaskStatus.blocked ≡ false)
cancellable_example = cancellable_iff_not_terminal TaskStatus.blocked

abbrev idle_snapshot : AdmissionSnapshot
idle_snapshot = record {
  active_tasks = 1;
  active_project_tasks = 1;
  active_model_slots = 1;
  active_sandbox_slots = 0;
}

abbrev one_slot : ResourceRequest
one_slot = record { task_slots = 1; model_slots = 1; sandbox_slots = 1 }

admission_example :
    let decision = evaluate_admission policy idle_snapshot one_slot in
    ((decision.admitted ≡ true) ↔ Fits policy idle_snapshot one_slot)
    × ((decision.admitted ≡ true) ↔ (decision.reason ≡ none))
admission_example = evaluate_admission_iff policy idle_snapshot one_slot

abbrev budget : RetryBudget
budget = record { max_attempts = 3; max_cost_usd = 500 }

retry_example :
    let decision = evaluate_retry RetryCategory.transient 2 100 budget in
    ((decision.retry ≡ true) ↔ (
      (RetryCategory.transient ≡ RetryCategory.transient)
      × (2 < budget.max_attempts)
      × (100 < budget.max_cost_usd)))
    × (decision.category ≡ RetryCategory.transient)
retry_example = evaluate_retry_iff RetryCategory.transient 2 100 budget

stuck_example :
    (returned (resolve_needs_reconciliation 1 7 Resolution.retry 50 parked_world).0 ≡ false)
    × ((resolve_needs_reconciliation 1 7 Resolution.retry 50 parked_world).1.tables
        ≡ parked_world.tables)
unfolding get
stuck_example =
    resolve_needs_reconciliation-stuck 1 7 Resolution.retry 50 (task_in TaskStatus.completed)
      parked_world refl refl refl

granted_example : Post AllGranted (claim_ready service "w1" 10 50 unlocked ready_world)
granted_example = claim_ready-Granted service "w1" 10 50 unlocked ready_world

-- A handler that counts its calls in the observations.
abbrev count_call : Exec Unit
count_call w = (return tt, record w { dispatch_latencies = 1 ∷ w.dispatch_latencies })

count_call-KeepsReceipt : KeepsReceipt consumer delivery count_call
count_call-KeepsReceipt w h = Post.done h

process_once_example :
    Post
      (λ o v.
        (settled_outcome o ≡ false)
        ⊎ ((process consumer delivery count_call (λ n. n) "x" 70 v).1.tables ≡ v.tables))
      (process consumer delivery count_call (λ n. n) "x" 50 ready_world)
process_once_example =
    process-once consumer delivery count_call count_call (λ n. n) "x" 50 70 ready_world
      count_call-KeepsReceipt

received_example :
    ((process consumer delivery count_call (λ n. n) "x" 50 receipt_world).0 ≡ return duplicate)
    × ((process consumer delivery count_call (λ n. n) "x" 50 receipt_world).1.tables
        ≡ receipt_world.tables)
unfolding receipt_of
received_example = process-received consumer delivery count_call (λ n. n) "x" 50 receipt_world refl

scan_example :
    (selects 7 (due 5 50 divergent_world) ≡ true)
    ⊎ (length (scanned (settled_but_divergent divergent_world) 5 divergent_world.tasks) ≡ 5)
unfolding get mismatched decision decide decide_states decide_terminal
scan_example =
    due-divergent 5 7 (task_in TaskStatus.completed) (graph_in GraphExecutionState.failed) 50
      divergent_world refl refl refl refl refl
