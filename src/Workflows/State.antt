-- ===== src/Workflows/State.antt =====
-- workflows/state.py: the inputs of a run and of a task, as the workflow graph carries them, and the
-- requests that its nodes read back, with the limits that the requests check.
use autonomous_swe.Prelude.{
  ℕ, ◌≡◌, refl, String, Option, none, some, List, [], ◌∷◌, map, str_eq, if◌then◌else◌,
}
use autonomous_swe.Domain.Enums.{TaskType}
use autonomous_swe.Workflows.Models.{
  TaskExecutionInput, TaskWorkflowState, NodeExecutionRequest, RunWorkflowInput, RunWorkflowState,
  RunStageRequest,
}
use autonomous_swe.Workflows.Texts.{TextLibrary, concat, at_most, bounded, commit_sha, bounded_map}

infixl 10 ◌>>=◌
abbrev pub ◌>>=◌ : {A B : Type 0} → Option A → (A → Option B) → Option B
none >>= f = none
some a >>= f = f a

-- `task_type.value`, and `TaskType(text)`
abbrev pub type_text : TaskType → String
type_text TaskType.research = "RESEARCH"
type_text TaskType.implementation = "IMPLEMENTATION"
type_text TaskType.test = "TEST"
type_text TaskType.refactor = "REFACTOR"
type_text TaskType.documentation = "DOCUMENTATION"
type_text TaskType.validation = "VALIDATION"

abbrev type_among : List TaskType → String → Option TaskType
type_among [] text = none
type_among (kind ∷ rest) text =
    if str_eq text (type_text kind) then some kind else type_among rest text

unfoldable pub parse_type : String → Option TaskType
parse_type text =
    type_among
      (TaskType.research ∷ TaskType.implementation ∷ TaskType.test ∷ TaskType.refactor
        ∷ TaskType.documentation ∷ TaskType.validation ∷ [])
      text

module _ (u : TextLibrary) where
  -- `tuple(UUID(value) for value in values)`
  unfoldable pub uuids : List String → Option (List ℕ)
  uuids [] = some []
  uuids (value ∷ rest) = do first ← u.uuid value; others ← uuids rest; some (first ∷ others)

  unfoldable pub task_to_state : TaskExecutionInput → TaskWorkflowState
  task_to_state i = record {
    trace_id = i.trace_id;
    run_id = u.text i.run_id;
    project_id = u.text i.project_id;
    repository_id = u.text i.repository_id;
    task_id = u.text i.task_id;
    attempt_id = u.text i.attempt_id;
    baseline_commit = i.baseline_commit;
    task_type = type_text i.task_type;
    goal = i.goal;
    input_refs = i.input_refs;
    message_ids = [];
    artifact_ids = [];
    summaries = [];
  }

  -- `identity`
  abbrev pub node_key : TaskWorkflowState → String → String
  node_key state node_name = concat (
      "workflow-node:" ∷ state.run_id ∷ ":" ∷ state.task_id ∷ ":" ∷ state.attempt_id ∷ ":"
      ∷ node_name ∷ [])

  unfoldable pub node_from_state : TaskWorkflowState → String → Option NodeExecutionRequest
  unfolding uuids bounded commit_sha bounded_map at_most
  node_from_state state node_name = do
    run_id ← u.uuid state.run_id
    project_id ← u.uuid state.project_id
    repository_id ← u.uuid state.repository_id
    task_id ← u.uuid state.task_id
    attempt_id ← u.uuid state.attempt_id
    task_type ← parse_type state.task_type
    message_ids ← uuids state.message_ids
    artifact_ids ← uuids state.artifact_ids
    trace_id ← bounded u 1 500 state.trace_id
    baseline_commit ← commit_sha u state.baseline_commit
    goal ← bounded u 1 20000 state.goal
    input_refs ← bounded_map u 1000 state.input_refs
    prior_summaries ← bounded_map u 100 state.summaries
    prior_message_ids ← at_most 1000 message_ids
    prior_artifact_ids ← at_most 1000 artifact_ids
    node ← bounded u 1 100 node_name
    idempotency_key ← bounded u 1 500 (node_key state node_name)
    some record {
      trace_id = trace_id;
      run_id = run_id;
      project_id = project_id;
      repository_id = repository_id;
      task_id = task_id;
      attempt_id = attempt_id;
      baseline_commit = baseline_commit;
      task_type = task_type;
      node_name = node;
      goal = goal;
      input_refs = input_refs;
      prior_summaries = prior_summaries;
      prior_message_ids = prior_message_ids;
      prior_artifact_ids = prior_artifact_ids;
      idempotency_key = idempotency_key;
    }

  unfoldable pub run_to_state : RunWorkflowInput → RunWorkflowState
  run_to_state i = record {
    trace_id = i.trace_id;
    run_id = u.text i.run_id;
    project_id = u.text i.project_id;
    repository_id = u.text i.repository_id;
    baseline_commit = i.baseline_commit;
    goal = i.goal;
    scheduler_parallel_limit = i.scheduler_parallel_limit;
    completed_task_ids = map u.text i.completed_task_ids;
    message_ids = [];
    artifact_ids = [];
  }

  abbrev pub stage_key : RunWorkflowState → String → String
  stage_key state stage = concat ("run-stage:" ∷ state.run_id ∷ ":" ∷ stage ∷ [])

  unfoldable pub stage_from_state : RunWorkflowState → String → Option RunStageRequest
  unfolding uuids bounded commit_sha at_most
  stage_from_state state stage = do
    run_id ← u.uuid state.run_id
    project_id ← u.uuid state.project_id
    repository_id ← u.uuid state.repository_id
    completed ← uuids state.completed_task_ids
    messages ← uuids state.message_ids
    artifacts ← uuids state.artifact_ids
    trace_id ← bounded u 1 500 state.trace_id
    baseline_commit ← commit_sha u state.baseline_commit
    goal ← bounded u 1 20000 state.goal
    completed_task_ids ← at_most 500 completed
    message_ids ← at_most 1000 messages
    artifact_ids ← at_most 1000 artifacts
    name ← bounded u 1 100 stage
    idempotency_key ← bounded u 1 500 (stage_key state stage)
    some record {
      trace_id = trace_id;
      run_id = run_id;
      project_id = project_id;
      repository_id = repository_id;
      baseline_commit = baseline_commit;
      goal = goal;
      stage = name;
      completed_task_ids = completed_task_ids;
      message_ids = message_ids;
      artifact_ids = artifact_ids;
      idempotency_key = idempotency_key;
    }

  uuids-map : (ids : List ℕ) → uuids (map u.text ids) ≡ some ids
  unfolding uuids
  uuids-map [] = refl
  uuids-map (x ∷ xs) = rw (u.uuid-text x, uuids-map xs) refl

  -- The input passed its own validation: a second one leaves its fields as they are.
  pub record IsTaskInput (i : TaskExecutionInput) : Type 0 where
    pub traced : bounded u 1 500 i.trace_id ≡ some i.trace_id
    pub based : commit_sha u i.baseline_commit ≡ some i.baseline_commit
    pub aimed : bounded u 1 20000 i.goal ≡ some i.goal
    pub referred : bounded_map u 1000 i.input_refs ≡ some i.input_refs

  pub record IsRunInput (i : RunWorkflowInput) : Type 0 where
    pub traced : bounded u 1 500 i.trace_id ≡ some i.trace_id
    pub based : commit_sha u i.baseline_commit ≡ some i.baseline_commit
    pub aimed : bounded u 1 20000 i.goal ≡ some i.goal
    pub counted : at_most 500 i.completed_task_ids ≡ some i.completed_task_ids

  -- So does a stage of a run, with the identifiers of the completed tasks.
  pub run_state_roundtrip :
      (i : RunWorkflowInput) (stage : String)
      → IsRunInput i
      → stage_from_state (run_to_state i) stage ≡ (do
        name ← bounded u 1 100 stage
        key ← bounded u 1 500 (stage_key (run_to_state i) stage)
        some record {
          trace_id = i.trace_id;
          run_id = i.run_id;
          project_id = i.project_id;
          repository_id = i.repository_id;
          baseline_commit = i.baseline_commit;
          goal = i.goal;
          stage = name;
          completed_task_ids = i.completed_task_ids;
          message_ids = [];
          artifact_ids = [];
          idempotency_key = key;
        })
  unfolding stage_from_state run_to_state
  run_state_roundtrip i stage v =
      rw
        (
          u.uuid-text i.run_id,
          u.uuid-text i.project_id,
          u.uuid-text i.repository_id,
          uuids-map i.completed_task_ids,
          v.traced,
          v.based,
          v.aimed,
          v.counted,
        )
        refl
