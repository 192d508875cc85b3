-- ===== src/Planning/Validator.antt =====
-- `TaskPlanValidator`, planning/validator.py. An issue is its code and its task; the message is left
-- out, so of the sorted sets of tools only the number of members shows.
pub mod Tasks
pub mod Duplicates
pub mod Acceptance
pub mod Mutation
use autonomous_swe.Prelude.{
  elem, ℕ, ◌+◌, ◌≡◌, refl, String, Bool, true, false, not, ◌&&◌, Option, none, some, List, [], ◌∷◌,
  ◌++◌, length, map, any, all, where_true, ◌==◌, leb, ltb, if◌then◌else◌, sort_by, insert_by, Table,
  get, put, is_some,
}
use autonomous_swe.Domain.Enums.{TaskType, RiskLevel}
use autonomous_swe.Planning.Models.{
  TaskSpec, TaskPlan, TaskPlanMutation, PlanLimits, index_tasks, tasks_by_id, task_ids,
  task_scope_matches_plan,
}
use autonomous_swe.Planning.Risk.{
  risk_exceeds, mem_str, task_capability_names, task_required_tools, task_minimum_risk,
}
use autonomous_swe.Planning.Paths.{is_repository_relative}
use autonomous_swe.Planning.Kahn.{topological_order}
use autonomous_swe.Planning.Sink.{has_final_validation_sink}
use autonomous_swe.Planning.Depth.{maximum_depth}

pub data IssueCode : Type 0 where
  duplicate_task_id cycle final_validation_sink max_plan_depth max_dynamic_tasks : IssueCode
  max_total_budget max_total_execution_time stale_plan_revision : IssueCode
  existing_task_mutation plan_revision project_scope repository_scope : IssueCode
  invalid_task_capability missing_stage_tool insufficient_task_risk : IssueCode
  missing_acceptance_criteria unsupported_tool risk_ceiling_exceeds_policy : IssueCode
  repository_path_escape self_dependency missing_dependency : IssueCode

pub record ValidationIssue : Type 0 where
  pub code : IssueCode
  pub task_id : Option ℕ

-- A call returns, or one of its lookups raises, or a model refuses its fields.
pub data Fault : Type 0 where
  key_error index_error validation_error : Fault

pub data Checked (A : Type 0) : Type 0 where
  checks : A → Checked A
  faults : Fault → Checked A

infixl 10 ◌>>=◌
abbrev pub ◌>>=◌ : {A B : Type 0} → Checked A → (A → Checked B) → Checked B
checks a >>= f = f a
faults e >>= f = faults e

abbrev pub or_fault : {A : Type 0} → Fault → Option A → Checked A
or_fault e none = faults e
or_fault e (some a) = checks a

pub record TaskPlanValidator : Type 0 where
  pub allowed_tools : List String
  pub require_final_validation_sink : Bool
  pub max_risk_ceiling : RiskLevel
  pub enforce_execution_policy : Bool

pub record PlanValidationResult : Type 0 where
  pub issues : List ValidationIssue
  pub topological_order : List ℕ
  pub max_depth : ℕ
  pub total_budget_usd : ℕ
  pub total_execution_seconds : ℕ

abbrev pub is_empty {ℓ} : {A : Type ℓ} → List A → Bool
is_empty [] = true
is_empty (x ∷ xs) = false

-- `valid=not issues`
abbrev pub valid : PlanValidationResult → Bool
valid r = is_empty r.issues

abbrev pub issue_if : Bool → IssueCode → Option ℕ → List ValidationIssue
issue_if b code task_id = if b then record { code = code; task_id = task_id } ∷ [] else []

-- `set(names)`
abbrev pub distinct_names : List String → List String
distinct_names [] = []
distinct_names (x ∷ xs) = let rest = distinct_names xs in if mem_str x rest then rest else x ∷ rest

-- `duplicate_ids`, sorted: the identifiers that occur again, each once.
unfoldable pub duplicate_ids : List ℕ → List ℕ → List ℕ
duplicate_ids seen [] = []
duplicate_ids seen (k ∷ ks) =
    let rest = duplicate_ids (k ∷ seen) ks in
    if elem k seen then (if elem k rest then rest else insert_by leb k rest) else rest

unfoldable pub validate_task_scope : TaskPlan → TaskSpec → List ValidationIssue
validate_task_scope plan task =
    issue_if (not (task.project_id == plan.project_id)) IssueCode.project_scope (some task.id)
    ++ issue_if (not (task.repository_id == plan.repository_id)) IssueCode.repository_scope
        (some task.id)
    ++ issue_if (ltb plan.revision task.plan_revision) IssueCode.plan_revision (some task.id)

abbrev pub policy_issues : TaskSpec → List ValidationIssue
policy_issues task =
    issue_if (not (mem_str task.assigned_capability (task_capability_names task.task_type)))
      IssueCode.invalid_task_capability (some task.id)
    ++ issue_if
        (not (all (λ tool. mem_str tool task.allowed_tools) (task_required_tools task.task_type)))
        IssueCode.missing_stage_tool (some task.id)
    ++ issue_if (risk_exceeds (task_minimum_risk task.task_type) task.risk_ceiling)
        IssueCode.insufficient_task_risk (some task.id)

abbrev pub tool_issues : TaskSpec → List String → List ValidationIssue
tool_issues task tools =
    map (λ (tool : String). record { code = IssueCode.unsupported_tool; task_id = some task.id })
      tools

-- The first path that has no parts raises.
unfoldable pub path_issues : ℕ → List String → Checked (List ValidationIssue)
path_issues id [] = checks []
path_issues id (path ∷ rest) = do
  relative ← or_fault Fault.index_error (is_repository_relative path)
  others ← path_issues id rest
  checks (issue_if (not relative) IssueCode.repository_path_escape (some id) ++ others)

unfoldable pub dependency_issues : Table TaskSpec → ℕ → List ℕ → List ValidationIssue
dependency_issues tasks id [] = []
dependency_issues tasks id (dependency ∷ rest) =
    (if dependency == id
      then issue_if true IssueCode.self_dependency (some id)
      else issue_if (not (is_some (get dependency tasks))) IssueCode.missing_dependency (some id))
    ++ dependency_issues tasks id rest

module _ (v : TaskPlanValidator) where
  unfoldable pub validate_task_semantics :
      TaskSpec → Table TaskSpec → Checked (List ValidationIssue)
  unfolding path_issues dependency_issues
  validate_task_semantics task tasks = do
    let before =
        (if v.enforce_execution_policy then policy_issues task else [])
        ++ issue_if (is_empty task.acceptance_criteria) IssueCode.missing_acceptance_criteria
            (some task.id)
        ++ tool_issues task (
            where_true (λ tool. not (mem_str tool v.allowed_tools))
              (distinct_names task.allowed_tools))
        ++ issue_if (risk_exceeds task.risk_ceiling v.max_risk_ceiling)
            IssueCode.risk_ceiling_exceeds_policy (some task.id)
    paths ← path_issues task.id task.repository_paths
    checks (before ++ paths ++ dependency_issues tasks task.id task.dependencies)

  unfoldable pub task_issues : TaskPlan → List TaskSpec → Checked (List ValidationIssue)
  unfolding validate_task_scope validate_task_semantics
  task_issues plan [] = checks []
  task_issues plan (task ∷ rest) = do
    semantics ← validate_task_semantics task (tasks_by_id plan)
    others ← task_issues plan rest
    checks (validate_task_scope plan task ++ semantics ++ others)

  -- `CYCLE`, or else `FINAL_VALIDATION_SINK`
  unfoldable pub order_issues : Table TaskSpec → List ℕ → Checked (List ValidationIssue)
  order_issues tasks order =
      if not (length order == length tasks)
      then checks (issue_if true IssueCode.cycle none)
      else if v.require_final_validation_sink
      then or_fault Fault.key_error (has_final_validation_sink tasks)
        >>= (λ sink. checks (issue_if (not sink) IssueCode.final_validation_sink none))
      else checks []

unfoldable pub sum : (TaskSpec → ℕ) → List TaskSpec → ℕ
sum f [] = 0
sum f (task ∷ rest) = f task + sum f rest

abbrev pub dynamic_tasks : TaskPlan → ℕ
dynamic_tasks plan = length (where_true (λ (task : TaskSpec). ltb 1 task.plan_revision) plan.tasks)

abbrev pub total_budget : TaskPlan → ℕ
total_budget plan = sum (λ task. task.budget.cost_usd) plan.tasks

abbrev pub total_execution : TaskPlan → ℕ
total_execution plan = sum (λ task. task.budget.wall_time_seconds) plan.tasks

unfoldable pub limit_issues : TaskPlan → ℕ → List ValidationIssue
limit_issues plan depth =
    issue_if (ltb plan.limits.max_plan_depth depth) IssueCode.max_plan_depth none
    ++ issue_if (ltb plan.limits.max_dynamic_tasks (dynamic_tasks plan)) IssueCode.max_dynamic_tasks
        none
    ++ issue_if (ltb plan.limits.max_total_budget_usd (total_budget plan))
        IssueCode.max_total_budget none
    ++ issue_if (ltb plan.limits.max_total_execution_seconds (total_execution plan))
        IssueCode.max_total_execution_time none

abbrev pub by_id : TaskSpec → TaskSpec → Bool
by_id a b = leb a.id b.id

module _ (v : TaskPlanValidator) where
  unfoldable pub validate : TaskPlan → Checked PlanValidationResult
  unfolding task_issues order_issues limit_issues
  validate plan = do
    let tasks = tasks_by_id plan
    let duplicates =
        map (λ k. record { code = IssueCode.duplicate_task_id; task_id = some k })
          (duplicate_ids [] (task_ids plan.tasks))
    of_tasks ← task_issues v plan (sort_by by_id plan.tasks)
    let order = topological_order tasks
    of_order ← order_issues v tasks order
    let depth = maximum_depth tasks order
    checks (record {
      issues = duplicates ++ of_tasks ++ of_order ++ limit_issues plan depth;
      topological_order = order;
      max_depth = depth;
      total_budget_usd = total_budget plan;
      total_execution_seconds = total_execution plan;
    })

-- The result of `validate_mutation`: valid with its plan, or the issues.
pub data MutationValidationResult : Type 0 where
  proposes : TaskPlan → MutationValidationResult
  refuses : List ValidationIssue → MutationValidationResult

unfoldable pub mutation_issues : TaskPlan → List ℕ → List TaskSpec → List ValidationIssue
mutation_issues current mutation_ids [] = []
mutation_issues current mutation_ids (task ∷ rest) =
    issue_if (elem task.id (task_ids current.tasks)) IssueCode.existing_task_mutation (some task.id)
    ++ issue_if (elem task.id mutation_ids) IssueCode.duplicate_task_id (some task.id)
    ++ issue_if (not (task.plan_revision == current.revision + 1)) IssueCode.plan_revision
        (some task.id)
    ++ mutation_issues current (task.id ∷ mutation_ids) rest

abbrev pub proposed_plan : TaskPlan → TaskPlanMutation → TaskPlan
proposed_plan current mutation = record current {
  revision = current.revision + 1;
  tasks = current.tasks ++ mutation.tasks;
}

-- `TaskPlan(...)` raises unless its own validator accepts, and takes at most 500 tasks. It takes no
-- empty tuple either, which the tasks of a plan and of a mutation never make.
abbrev pub construct : TaskPlan → Checked TaskPlan
unfolding task_scope_matches_plan
construct plan =
    if task_scope_matches_plan plan && leb (length plan.tasks) 500
    then checks plan
    else faults Fault.validation_error

abbrev pub judge : TaskPlan → PlanValidationResult → MutationValidationResult
judge proposed r = if valid r then proposes proposed else refuses r.issues

module _ (v : TaskPlanValidator) where
  unfoldable pub validate_mutation : TaskPlan → TaskPlanMutation → Checked MutationValidationResult
  unfolding validate mutation_issues task_scope_matches_plan
  validate_mutation current mutation =
      let issues =
        issue_if (not (mutation.base_revision == current.revision)) IssueCode.stale_plan_revision
          none
        ++ mutation_issues current [] mutation.tasks in
      if is_empty issues
      then construct (proposed_plan current mutation)
        >>= (λ proposed. validate v proposed >>= (λ r. checks (judge proposed r)))
      else checks (refuses issues)
