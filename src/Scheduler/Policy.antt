-- ===== src/Scheduler/Policy.antt =====
-- execution/scheduler/service.py, the part without a database: ceilings, admission and retries.
-- Money is a whole number of the smallest unit.
use autonomous_swe.Prelude.{
  ℕ, ◌+◌, ◌≤◌, ◌<◌, ◌≡◌, ◌↔◌, Bool, true, false, Option, none, some, List, all, ltb, leb, min,
  if◌then◌else◌, arith,
}
use autonomous_swe.Domain.Enums.{TaskStatus, RetryCategory}
use autonomous_swe.Domain.Equality.{task_is}
use autonomous_swe.Persistence.Rows.{TaskRow}

pub record ConcurrencyPolicy : Type 0 where
  pub max_parallel_tasks : ℕ
  pub max_parallel_tasks_per_project : ℕ
  pub max_model_concurrency : ℕ
  pub max_sandbox_concurrency : ℕ
  pub max_task_attempts : ℕ
  pub max_run_cost_usd : ℕ

pub record AdmissionSnapshot : Type 0 where
  pub active_tasks : ℕ
  pub active_project_tasks : ℕ
  pub active_model_slots : ℕ
  pub active_sandbox_slots : ℕ

pub record ResourceRequest : Type 0 where
  pub task_slots : ℕ
  pub model_slots : ℕ
  pub sandbox_slots : ℕ

pub data AdmissionReason : Type 0 where
  max_parallel_tasks max_project_parallel_tasks : AdmissionReason
  max_model_concurrency max_sandbox_concurrency : AdmissionReason

pub record AdmissionDecision : Type 0 where
  pub admitted : Bool
  pub reason : Option AdmissionReason

abbrev refused : AdmissionReason → AdmissionDecision
refused r = record { admitted = false; reason = some r }

unfoldable pub evaluate_admission :
    ConcurrencyPolicy → AdmissionSnapshot → ResourceRequest → AdmissionDecision
evaluate_admission policy snapshot request =
    if ltb policy.max_parallel_tasks (snapshot.active_tasks + request.task_slots)
    then refused max_parallel_tasks
    else if ltb policy.max_parallel_tasks_per_project
        (snapshot.active_project_tasks + request.task_slots)
    then refused max_project_parallel_tasks
    else if ltb policy.max_model_concurrency (snapshot.active_model_slots + request.model_slots)
    then refused max_model_concurrency
    else if ltb policy.max_sandbox_concurrency
        (snapshot.active_sandbox_slots + request.sandbox_slots)
    then refused max_sandbox_concurrency
    else record { admitted = true; reason = none }

pub record RetryBudget : Type 0 where
  pub max_attempts : ℕ
  pub max_cost_usd : ℕ

pub data RetryReason : Type 0 where
  not_automatic attempts_exhausted cost_exhausted within_budget : RetryReason

pub record RetryDecision : Type 0 where
  pub retry : Bool
  pub category : RetryCategory
  pub reason : RetryReason

abbrev is_transient : RetryCategory → Bool
is_transient RetryCategory.transient = true
is_transient _ = false

unfoldable pub evaluate_retry : RetryCategory → ℕ → ℕ → RetryBudget → RetryDecision
evaluate_retry category attempts consumed_cost_usd budget =
    if is_transient category
    then (if leb budget.max_attempts attempts
        then record { retry = false; category = category; reason = attempts_exhausted }
        else if leb budget.max_cost_usd consumed_cost_usd
        then record { retry = false; category = category; reason = cost_exhausted }
        else record { retry = true; category = category; reason = within_budget })
    else record { retry = false; category = category; reason = not_automatic }

-- `states.get(dependency) is TaskStatus.COMPLETED`
abbrev is_completed : Option TaskStatus → Bool
is_completed none = false
is_completed (some s) = task_is s TaskStatus.completed

unfoldable pub dependencies_satisfied : List ℕ → (ℕ → Option TaskStatus) → Bool
dependencies_satisfied dependencies states = all (λ d. is_completed (states d)) dependencies

unfoldable pub resource_request : TaskRow → ResourceRequest
resource_request task = record {
  task_slots = 1;
  model_slots = if ltb 0 task.estimate_model_tokens then 1 else 0;
  sandbox_slots = min 1 task.estimate_sandbox_slots;
}

-- What fits under the four ceilings.
pub record Fits (policy : ConcurrencyPolicy) (snapshot : AdmissionSnapshot)
    (request : ResourceRequest) : Type 0 where
  pub tasks : snapshot.active_tasks + request.task_slots ≤ policy.max_parallel_tasks
  pub project_tasks :
      snapshot.active_project_tasks + request.task_slots ≤ policy.max_parallel_tasks_per_project
  pub models : snapshot.active_model_slots + request.model_slots ≤ policy.max_model_concurrency
  pub sandboxes :
      snapshot.active_sandbox_slots + request.sandbox_slots ≤ policy.max_sandbox_concurrency

-- A request is admitted exactly when it fits under all four ceilings, and a reason is given
-- exactly when it is not.
pub evaluate_admission_iff :
    (policy : ConcurrencyPolicy) (snapshot : AdmissionSnapshot) (request : ResourceRequest)
    → let decision = evaluate_admission policy snapshot request in
      ((decision.admitted ≡ true) ↔ Fits policy snapshot request)
      × ((decision.admitted ≡ true) ↔ (decision.reason ≡ none))
unfolding evaluate_admission
evaluate_admission_iff policy snapshot request =
    ((λ h. ground arith, λ h. ground arith), (λ h. ground arith, λ h. ground arith))

-- A failure is retried exactly when it is transient and both the attempts and the money spent lie
-- below the budget; the decision carries the category that was asked about.
pub evaluate_retry_iff :
    (category : RetryCategory) (attempts cost : ℕ) (budget : RetryBudget)
    → let decision = evaluate_retry category attempts cost budget in
      ((decision.retry ≡ true) ↔ (
        (category ≡ RetryCategory.transient)
        × (attempts < budget.max_attempts)
        × (cost < budget.max_cost_usd)))
      × (decision.category ≡ category)
unfolding evaluate_retry
evaluate_retry_iff category attempts cost budget =
    ((λ h. ground arith, λ h. ground arith), ground arith)
