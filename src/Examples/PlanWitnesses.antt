-- ===== src/Examples/PlanWitnesses.antt =====
-- Theorems on plans, workflows and failing deliveries at concrete values.
use autonomous_swe.Prelude.{
  none, ℕ, ◌≡◌, ◌≤◌, ◌↔◌, refl, true, some, List, [], ◌∷◌, ◌++◌, elem, length, get, put, is_some,
  if◌then◌else◌,
}
use autonomous_swe.Domain.Enums.{TaskStatus}
use autonomous_swe.Domain.Transitions.{TaskPath}
use autonomous_swe.Persistence.Rows.{TaskRow}
use autonomous_swe.Examples.Worlds.{service, ready_world, task_in, unlocked}
use autonomous_swe.Examples.Plans.{
  plan, repair, validator, last_task, tally, task_input, run_input, merged_results,
}
use autonomous_swe.Planning.Models.{tasks_by_id, index_tasks}
use autonomous_swe.Planning.Counting.{count}
use autonomous_swe.Planning.Kahn.{planned, topological_search, topological_order}
use autonomous_swe.Planning.Kahn.Invariant.{Ordered}
use autonomous_swe.Planning.Kahn.Loop.{topological_search_ends}
use autonomous_swe.Planning.Kahn.Correct.{
  Acyclic, plan-Distinct, topological_order-Ordered, topological_order_complete,
}
use autonomous_swe.Planning.Sink.{has_final_validation_sink, ancestors}
use autonomous_swe.Planning.Sink.Walks.{Ends}
use autonomous_swe.Planning.Sink.Covers.{FinalSink, has_final_validation_sink-FinalSink}
use autonomous_swe.Planning.Sink.Returns.{has_final_validation_sink_returns}
use autonomous_swe.Planning.Validator.{checks, proposes, validate, validate_mutation, proposed_plan}
use autonomous_swe.Planning.Validator.Acceptance.{accepts, Acceptable, validate-Acceptable}
use autonomous_swe.Planning.Validator.Mutation.{Admissible, validate_mutation-Admissible}
use autonomous_swe.Control.Steps.{claims, here, after}
use autonomous_swe.Control.Refinement.{Reach-TaskPath}
use autonomous_swe.Scheduler.Claiming.{claim_ready}
use autonomous_swe.Workflows.Reducers.{
  merge_unique, merge_dispatch_results, merge_unique_replay, merge_dispatch_results_keeps,
}
use autonomous_swe.Workflows.Texts.{bounded, commit_sha, bounded_map, at_most}
use autonomous_swe.Workflows.State.{
  task_to_state, node_from_state, run_to_state, stage_from_state, run_state_roundtrip, uuids,
  parse_type,
}

order_example :
    Ordered (tasks_by_id plan) [] (topological_order (tasks_by_id plan))
    × ((z : ℕ)
        → count z (topological_order (tasks_by_id plan))
          ≤ (if planned (tasks_by_id plan) z then 1 else 0))
order_example = topological_order-Ordered plan

complete_example :
    (length (topological_order (tasks_by_id plan)) ≡ length (tasks_by_id plan))
    ↔ Acyclic (tasks_by_id plan)
complete_example = topological_order_complete plan

search_example : (topological_search (tasks_by_id plan)).ready ≡ []
search_example = topological_search_ends (tasks_by_id plan) (plan-Distinct plan)

accept_example : (accepts (validate validator plan) ≡ true) ↔ Acceptable validator plan
accept_example = validate-Acceptable validator plan

repair_example :
    (validate_mutation validator plan repair ≡ checks (proposes (proposed_plan plan repair)))
    ↔ (Admissible validator plan repair × (proposed_plan plan repair ≡ proposed_plan plan repair))
repair_example = validate_mutation-Admissible validator plan repair (proposed_plan plan repair)

sink_example : FinalSink (tasks_by_id plan)
unfolding has_final_validation_sink index_tasks get put
sink_example = has_final_validation_sink-FinalSink plan refl

answer_example :
    (is_some (has_final_validation_sink (tasks_by_id plan)) ≡ true)
    × Ends (ancestors (tasks_by_id plan) last_task)
unfolding index_tasks get put
answer_example = has_final_validation_sink_returns (tasks_by_id plan) 12 last_task refl refl

path_example :
    (later : TaskRow) × (get 7 (claim_ready service "w1" 4 50 unlocked ready_world).1.tasks
      ≡ some later)
    × TaskPath TaskStatus.ready later.state
unfolding get
path_example =
    Reach-TaskPath 7 (task_in TaskStatus.ready) (after here (claims "w1" 4 50 unlocked)) refl

merge_example :
    (merge_unique (merge_unique (1 ∷ 2 ∷ []) (2 ∷ 3 ∷ [])) (2 ∷ 3 ∷ [])
      ≡ merge_unique (1 ∷ 2 ∷ []) (2 ∷ 3 ∷ []))
    × ((rest : List ℕ) × (merge_unique (1 ∷ 2 ∷ []) (2 ∷ 3 ∷ []) ≡ (1 ∷ 2 ∷ []) ++ rest))
    × (elem 3 (merge_unique (1 ∷ 2 ∷ []) (2 ∷ 3 ∷ []))
        ≡ (if elem 3 (1 ∷ 2 ∷ []) then true else elem 3 (2 ∷ 3 ∷ [])))
merge_example = merge_unique_replay (1 ∷ 2 ∷ []) (2 ∷ 3 ∷ []) 3

keeps_example : get 4 merged_results ≡ some 40
unfolding get put merge_dispatch_results
keeps_example =
    merge_dispatch_results_keeps ((4, 40) ∷ []) ((5, 50) ∷ (4, 40) ∷ []) merged_results 4 40 refl
      refl

nameless_node : node_from_state tally (task_to_state tally task_input) "  " ≡ none
unfolding node_from_state task_to_state uuids parse_type bounded commit_sha bounded_map at_most
nameless_node = refl

run_example :
    stage_from_state tally (run_to_state tally run_input) "plan"
    ≡ some record {
      trace_id = "t";
      run_id = 3;
      project_id = 1;
      repository_id = 2;
      baseline_commit = "0123456789abcdef0123456789abcdef01234567";
      goal = "repair";
      stage = "plan";
      completed_task_ids = 4 ∷ 6 ∷ [];
      message_ids = [];
      artifact_ids = [];
      idempotency_key = "run-stage:aaa:plan";
    }
unfolding bounded commit_sha at_most run_to_state
run_example =
    run_state_roundtrip tally run_input "plan"
      record { traced = refl; based = refl; aimed = refl; counted = refl }
