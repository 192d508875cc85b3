-- ===== src/Planning/Models.antt =====
-- domain/models.py: what the validator reads of a task, a plan and a mutation. A UUID is the number
-- `id.int`, money is a whole number of the smallest unit, and the columns of free text are left out.
use autonomous_swe.Prelude.{
  ℕ, String, Bool, not, ◌&&◌, List, [], ◌∷◌, map, ◌==◌, leb, if◌then◌else◌, all, elem, unique,
  Table, get, put, is_some,
}
use autonomous_swe.Domain.Enums.{TaskType, RiskLevel}

pub record BudgetPolicy : Type 0 where
  pub cost_usd : ℕ
  pub wall_time_seconds : ℕ

pub record PlanLimits : Type 0 where
  pub max_plan_depth : ℕ
  pub max_dynamic_tasks : ℕ
  pub max_total_budget_usd : ℕ
  pub max_total_execution_seconds : ℕ

pub record TaskSpec : Type 0 where
  pub id : ℕ
  pub plan_revision : ℕ
  pub project_id : ℕ
  pub repository_id : ℕ
  pub task_type : TaskType
  pub dependencies : List ℕ
  pub assigned_capability : String
  pub acceptance_criteria : List String
  pub allowed_tools : List String
  pub risk_ceiling : RiskLevel
  pub repository_paths : List String
  pub budget : BudgetPolicy

pub record TaskPlan : Type 0 where
  pub run_id : ℕ
  pub project_id : ℕ
  pub repository_id : ℕ
  pub baseline_commit : String
  pub revision : ℕ
  pub tasks : List TaskSpec
  pub limits : PlanLimits

pub record TaskPlanMutation : Type 0 where
  pub base_revision : ℕ
  pub tasks : List TaskSpec

-- A model validator that raises is `false`.
unfoldable pub dependencies_are_valid : TaskSpec → Bool
dependencies_are_valid task = not (elem task.id task.dependencies) && unique task.dependencies

abbrev pub task_ids : List TaskSpec → List ℕ
task_ids tasks = map (λ (task : TaskSpec). task.id) tasks

unfoldable pub task_scope_matches_plan : TaskPlan → Bool
task_scope_matches_plan plan =
    unique (task_ids plan.tasks)
    && all
        (λ (task : TaskSpec).
          task.project_id == plan.project_id
          && task.repository_id == plan.repository_id
          && leb task.plan_revision plan.revision)
        plan.tasks

-- `tasks_by_id`: the first task of each identifier, in the order of the plan.
unfoldable pub index_tasks : List TaskSpec → Table TaskSpec → Table TaskSpec
index_tasks [] tasks_by_id = tasks_by_id
index_tasks (task ∷ rest) tasks_by_id =
    index_tasks rest
      (if is_some (get task.id tasks_by_id) then tasks_by_id else put task.id task tasks_by_id)

abbrev pub tasks_by_id : TaskPlan → Table TaskSpec
unfolding index_tasks
tasks_by_id plan = index_tasks plan.tasks []
