-- ===== src/Workflows/Models.antt =====
-- workflows/state.py: the inputs of a run and of a task, the states that the workflow graphs carry, and
-- the requests of their nodes and stages.
use autonomous_swe.Prelude.{ℕ, String, List}
use autonomous_swe.Domain.Enums.{TaskType}

pub record TaskExecutionInput : Type 0 where
  pub trace_id : String
  pub run_id : ℕ
  pub project_id : ℕ
  pub repository_id : ℕ
  pub task_id : ℕ
  pub attempt_id : ℕ
  pub baseline_commit : String
  pub task_type : TaskType
  pub goal : String
  pub input_refs : List (String × String)

-- The keys that a request reads are there in each state that `to_state` began.
pub record TaskWorkflowState : Type 0 where
  pub trace_id : String
  pub run_id : String
  pub project_id : String
  pub repository_id : String
  pub task_id : String
  pub attempt_id : String
  pub baseline_commit : String
  pub task_type : String
  pub goal : String
  pub input_refs : List (String × String)
  pub message_ids : List String
  pub artifact_ids : List String
  pub summaries : List (String × String)

pub record NodeExecutionRequest : Type 0 where
  pub trace_id : String
  pub run_id : ℕ
  pub project_id : ℕ
  pub repository_id : ℕ
  pub task_id : ℕ
  pub attempt_id : ℕ
  pub baseline_commit : String
  pub task_type : TaskType
  pub node_name : String
  pub goal : String
  pub input_refs : List (String × String)
  pub prior_summaries : List (String × String)
  pub prior_message_ids : List ℕ
  pub prior_artifact_ids : List ℕ
  pub idempotency_key : String

pub record RunWorkflowInput : Type 0 where
  pub trace_id : String
  pub run_id : ℕ
  pub project_id : ℕ
  pub repository_id : ℕ
  pub baseline_commit : String
  pub goal : String
  pub scheduler_parallel_limit : ℕ
  pub completed_task_ids : List ℕ

pub record RunWorkflowState : Type 0 where
  pub trace_id : String
  pub run_id : String
  pub project_id : String
  pub repository_id : String
  pub baseline_commit : String
  pub goal : String
  pub scheduler_parallel_limit : ℕ
  pub completed_task_ids : List String
  pub message_ids : List String
  pub artifact_ids : List String

pub record RunStageRequest : Type 0 where
  pub trace_id : String
  pub run_id : ℕ
  pub project_id : ℕ
  pub repository_id : ℕ
  pub baseline_commit : String
  pub goal : String
  pub stage : String
  pub completed_task_ids : List ℕ
  pub message_ids : List ℕ
  pub artifact_ids : List ℕ
  pub idempotency_key : String
