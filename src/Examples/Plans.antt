-- ===== src/Examples/Plans.antt =====
-- A plan of three tasks and a repair of it, for the theorems on planning/validator.py, with the
-- values that the other examples of this folder share.
use Prim.Native.Char.{Char, code}
use autonomous_swe.Prelude.{
  ◌==◌, Bool, if◌then◌else◌, ℕ, zero, suc, ◌≡◌, refl, ap, String, false, Option, some, List, [],
  ◌∷◌,
}
use autonomous_swe.Domain.Enums.{TaskType, RiskLevel}
use autonomous_swe.Planning.Models.{TaskSpec, TaskPlan, TaskPlanMutation}
use autonomous_swe.Planning.Validator.{TaskPlanValidator}
use autonomous_swe.Workflows.Texts.{TextLibrary}
use autonomous_swe.Workflows.Models.{TaskExecutionInput, RunWorkflowInput}
use autonomous_swe.Messaging.Exhaustion.{Delivery}
use autonomous_swe.Persistence.Session.{Exec, throw, runtime_error}

abbrev pub spec : ℕ → TaskType → List ℕ → ℕ → TaskSpec
spec id kind dependencies revision = record {
  id = id;
  plan_revision = revision;
  project_id = 1;
  repository_id = 2;
  task_type = kind;
  dependencies = dependencies;
  assigned_capability = "coder";
  acceptance_criteria = "tests pass" ∷ [];
  allowed_tools = "read_file" ∷ [];
  risk_ceiling = RiskLevel.medium;
  repository_paths = "src/a.py" ∷ [];
  budget = record { cost_usd = 5; wall_time_seconds = 60 };
}

abbrev pub last_task : TaskSpec
last_task = spec 12 TaskType.validation (10 ∷ 11 ∷ []) 1

abbrev pub plan : TaskPlan
plan = record {
  run_id = 3;
  project_id = 1;
  repository_id = 2;
  baseline_commit = "0123456789abcdef0123456789abcdef01234567";
  revision = 1;
  tasks =
      last_task ∷ spec 11 TaskType.implementation (10 ∷ []) 1 ∷ spec 10 TaskType.research [] 1 ∷ [];
  limits = record {
    max_plan_depth = 4;
    max_dynamic_tasks = 2;
    max_total_budget_usd = 100;
    max_total_execution_seconds = 3600;
  };
}

abbrev pub repair : TaskPlanMutation
repair = record { base_revision = 1; tasks = spec 13 TaskType.test (11 ∷ []) 2 ∷ [] }

abbrev pub validator : TaskPlanValidator
validator = record {
  allowed_tools = "read_file" ∷ "run_tests" ∷ [];
  require_final_validation_sink = false;
  max_risk_ceiling = RiskLevel.high;
  enforce_execution_policy = false;
}

-- A text of as many letters as the number says.
abbrev stroke : ℕ → String
stroke zero = String.[]
stroke (suc n) = String.◌∷◌ "a" (stroke n)

abbrev strokes : String → ℕ
strokes String.[] = 0
strokes (String.◌∷◌ c s) = suc (strokes s)

pub strokes-stroke : (n : ℕ) → ◌≡◌ {A = Option ℕ} (some (strokes (stroke n))) (some n)
strokes-stroke zero = refl
strokes-stroke (suc n) = ap (λ (k : ℕ). some k) (go n)
  where
    go : (n : ℕ) → suc (strokes (stroke n)) ≡ suc n
    go zero = refl
    go (suc n) = ap suc (go n)

-- Spaces alone count as white space here.
abbrev is_blank : Char → Bool
is_blank letter = code letter == b' '

abbrev strip_left : String → String
strip_left String.[] = ""
strip_left (String.◌∷◌ letter rest) =
    let after = strip_left rest in if is_blank letter then after else String.◌∷◌ letter rest

abbrev before_blanks : Char → String → String
before_blanks letter String.[] = if is_blank letter then "" else String.◌∷◌ letter ""
before_blanks letter (String.◌∷◌ next rest) = String.◌∷◌ letter (String.◌∷◌ next rest)

abbrev strip_right : String → String
strip_right String.[] = ""
strip_right (String.◌∷◌ letter rest) = before_blanks letter (strip_right rest)

abbrev pub tally : TextLibrary
tally = record {
  text = stroke;
  uuid = λ s. some (strokes s);
  uuid-text = strokes-stroke;
  strip = λ s. strip_right (strip_left s);
}

abbrev pub task_input : TaskExecutionInput
task_input = record {
  trace_id = "t";
  run_id = 3;
  project_id = 1;
  repository_id = 2;
  task_id = 4;
  attempt_id = 5;
  baseline_commit = "0123456789abcdef0123456789abcdef01234567";
  task_type = TaskType.test;
  goal = "repair";
  input_refs = [];
}

abbrev pub run_input : RunWorkflowInput
run_input = record {
  trace_id = "t";
  run_id = 3;
  project_id = 1;
  repository_id = 2;
  baseline_commit = "0123456789abcdef0123456789abcdef01234567";
  goal = "repair";
  scheduler_parallel_limit = 4;
  completed_task_ids = 4 ∷ 6 ∷ [];
}

abbrev pub broken : Exec Unit
broken = throw runtime_error

abbrev pub at_time : ℕ → Delivery
at_time now = record { uniform = λ n. n; error = "x"; now = now }

abbrev pub merged_results : List (ℕ × ℕ)
merged_results = (4, 40) ∷ (5, 50) ∷ []
