-- ===== src/Planning/Validator/Tasks.antt =====
-- When the part of `validate`, planning/validator.py, that goes through the tasks finds nothing.
use autonomous_swe.Prelude.{
  ℕ, ◌≡◌, refl, ◌∙◌, String, Bool, true, false, not, ◌&&◌, ◌||◌, Option, none, some, List, [], ◌∷◌,
  ◌++◌, eq_iff, str_eq, all, where_true, ◌==◌, leb, if◌then◌else◌, sort_by, insert_by, Table,
  Bool-cases, inl, inr, arith,
}
use autonomous_swe.Planning.Models.{TaskSpec, TaskPlan, tasks_by_id}
use autonomous_swe.Planning.Risk.{
  risk_exceeds, mem_str, task_capability_names, task_required_tools, task_minimum_risk,
}
use autonomous_swe.Planning.Paths.{is_repository_relative}
use autonomous_swe.Planning.Kahn.{planned}
use autonomous_swe.Planning.Validator.{
  ValidationIssue, IssueCode, Fault, Checked, checks, faults, ◌>>=◌, or_fault, TaskPlanValidator,
  is_empty, issue_if, distinct_names, validate_task_scope, policy_issues, tool_issues, path_issues,
  dependency_issues, validate_task_semantics, task_issues, by_id,
}

abbrev pub is_true : Option Bool → Bool
is_true none = false
is_true (some b) = b

-- No exception and no issue.
abbrev pub clean : Checked (List ValidationIssue) → Bool
clean (checks issues) = is_empty issues
clean (faults e) = false

pub is_empty-append {ℓ} :
    {A : Type ℓ} (xs ys : List A) → is_empty (xs ++ ys) ≡ (is_empty xs && is_empty ys)
is_empty-append [] ys = refl
is_empty-append (x ∷ xs) ys = refl

is_empty-issue_if :
    (b : Bool) (code : IssueCode) (t : Option ℕ) → is_empty (issue_if b code t) ≡ not b
is_empty-issue_if true code t = refl
is_empty-issue_if false code t = refl

clean-bind :
    (m : Checked (List ValidationIssue)) (f : List ValidationIssue → List ValidationIssue)
    (b : Bool)
    → ((is : List ValidationIssue) → is_empty (f is) ≡ (b && is_empty is))
    → clean (m >>= λ is. checks (f is)) ≡ (b && clean m)
clean-bind (checks is) f b h = h is
clean-bind (faults e) f true h = refl
clean-bind (faults e) f false h = refl

abbrev pub scoped : TaskPlan → TaskSpec → Bool
scoped plan task =
    task.project_id == plan.project_id
    && task.repository_id == plan.repository_id
    && leb task.plan_revision plan.revision

validate_task_scope-clean :
    (plan : TaskPlan) (task : TaskSpec)
    → is_empty (validate_task_scope plan task) ≡ scoped plan task
unfolding validate_task_scope
validate_task_scope-clean plan task = ground arith

path_issues-clean :
    (id : ℕ) (paths : List String)
    → clean (path_issues id paths) ≡ all (λ path. is_true (is_repository_relative path)) paths
unfolding path_issues
path_issues-clean id [] = refl
path_issues-clean id (path ∷ rest) =
    go (is_repository_relative path) (path_issues id rest) (path_issues-clean id rest)
  where
    go :
        (o : Option Bool) (m : Checked (List ValidationIssue))
        → clean m ≡ all (λ path. is_true (is_repository_relative path)) rest
        → clean (
            or_fault Fault.index_error o >>= λ relative. m >>= λ others.
            checks (issue_if (not relative) IssueCode.repository_path_escape (some id) ++ others))
          ≡ (is_true o && all (λ path. is_true (is_repository_relative path)) rest)
    go none m h = refl
    go (some true) (checks others) h = h
    go (some true) (faults e) h = h
    go (some false) (checks others) h = refl
    go (some false) (faults e) h = refl

-- Every dependency is another task of the plan.
abbrev pub dependencies_known : TaskPlan → TaskSpec → Bool
dependencies_known plan task =
    all (λ dependency. not (dependency == task.id) && planned (tasks_by_id plan) dependency)
      task.dependencies

dependency_issues-clean :
    (tasks : Table TaskSpec) (id : ℕ) (ds : List ℕ)
    → is_empty (dependency_issues tasks id ds) ≡ all (λ d. not (d == id) && planned tasks d) ds
unfolding dependency_issues
dependency_issues-clean tasks id [] = refl
dependency_issues-clean tasks id (d ∷ ds) = ground (arith, dependency_issues-clean tasks id ds)

regroup :
    (s p a t r d q : Bool) → (s && (p && a && t && r && d && q)) ≡ (s && p && a && t && r && q && d)
regroup s p a t r d q = ground arith

module _ (v : TaskPlanValidator) where
  abbrev pub policy_met : TaskSpec → Bool
  policy_met task =
      not v.enforce_execution_policy
      || (mem_str task.assigned_capability (task_capability_names task.task_type)
          && all (λ tool. mem_str tool task.allowed_tools) (task_required_tools task.task_type)
          && not (risk_exceeds (task_minimum_risk task.task_type) task.risk_ceiling))

  abbrev pub tools_allowed : TaskSpec → Bool
  tools_allowed task = all (λ tool. mem_str tool v.allowed_tools) task.allowed_tools

  -- The demands on one task.
  abbrev pub sound_task : TaskPlan → TaskSpec → Bool
  sound_task plan task =
      scoped plan task
      && policy_met task
      && not (is_empty task.acceptance_criteria)
      && tools_allowed task
      && not (risk_exceeds task.risk_ceiling v.max_risk_ceiling)
      && all (λ path. is_true (is_repository_relative path)) task.repository_paths
      && dependencies_known plan task

  allowed : String → Bool
  allowed tool = mem_str tool v.allowed_tools

  mem_all :
      (x : String) (l : List String)
      → mem_str x l ≡ true
      → all allowed l ≡ (allowed x && all allowed l)
  mem_all x [] h = ground (arith, h)
  mem_all x (y ∷ ys) h = elim (Bool-cases (str_eq x y)) [
    | inl e ↦ rw ((eq_iff x y).0 e) (ground arith)
    | inr e ↦ ground (arith, mem_all x ys (rw e at h))
  ]

  all-distinct_names : (l : List String) → all allowed (distinct_names l) ≡ all allowed l
  all-distinct_names [] = refl
  all-distinct_names (x ∷ xs) = elim (Bool-cases (mem_str x (distinct_names xs))) [
    | inl e ↦ rw (e, ← all-distinct_names xs) (mem_all x (distinct_names xs) e)
    | inr e ↦ rw (e, all-distinct_names xs) refl
  ]

  no_issues :
      (task : TaskSpec) (l : List String)
      → is_empty (tool_issues task (where_true (λ tool. not (allowed tool)) l)) ≡ all allowed l
  no_issues task [] = refl
  no_issues task (x ∷ xs) = elim (Bool-cases (allowed x)) [
    | inl e ↦ rw e (no_issues task xs)
    | inr e ↦ rw e refl
  ]

  tools-clean :
      (task : TaskSpec) (tools : List String)
      → is_empty (
          tool_issues task
            (where_true (λ tool. not (mem_str tool v.allowed_tools)) (distinct_names tools)))
        ≡ all (λ tool. mem_str tool v.allowed_tools) tools
  unfolding allowed
  tools-clean task tools = no_issues task (distinct_names tools) ∙ all-distinct_names tools

  policy_issues-clean :
      (task : TaskSpec)
      → is_empty (if v.enforce_execution_policy then policy_issues task else []) ≡ policy_met task
  policy_issues-clean task = ground arith

  abbrev others : TaskSpec → List ValidationIssue
  others task =
      (if v.enforce_execution_policy then policy_issues task else [])
      ++ issue_if (is_empty task.acceptance_criteria) IssueCode.missing_acceptance_criteria
          (some task.id)
      ++ tool_issues task (
          where_true (λ tool. not (mem_str tool v.allowed_tools))
            (distinct_names task.allowed_tools))
      ++ issue_if (risk_exceeds task.risk_ceiling v.max_risk_ceiling)
          IssueCode.risk_ceiling_exceeds_policy (some task.id)

  others-clean :
      (task : TaskSpec)
      → is_empty (others task) ≡ (
          policy_met task
          && not (is_empty task.acceptance_criteria)
          && tools_allowed task
          && not (risk_exceeds task.risk_ceiling v.max_risk_ceiling))
  others-clean task =
      simp (is_empty-append, is_empty-issue_if, tools-clean, policy_issues-clean) (ground arith)

  semantics-clean :
      (plan : TaskPlan) (task : TaskSpec)
      → (scoped plan task && clean (validate_task_semantics v task (tasks_by_id plan)))
        ≡ sound_task plan task
  unfolding validate_task_semantics
  semantics-clean plan task =
      let deps = dependency_issues (tasks_by_id plan) task.id task.dependencies in
      rw
        (
          clean-bind (path_issues task.id task.repository_paths)
              (λ paths. others task ++ paths ++ deps) (is_empty (others task) && is_empty deps)
              (λ paths. simp is_empty-append (ground arith)),
          path_issues-clean task.id task.repository_paths,
          dependency_issues-clean (tasks_by_id plan) task.id task.dependencies,
          others-clean task,
        )
        (regroup (scoped plan task) (policy_met task) (not (is_empty task.acceptance_criteria))
          (tools_allowed task) _ _ _)

  both :
      (m : Checked (List ValidationIssue)) (k : Checked (List ValidationIssue))
      (scope : List ValidationIssue)
      → clean (m >>= λ semantics. k >>= λ rest. checks (scope ++ semantics ++ rest))
        ≡ ((is_empty scope && clean m) && clean k)
  both (checks a) (checks b) scope = simp is_empty-append (ground arith)
  both (checks a) (faults e) scope = ground arith
  both (faults e) k scope = ground arith

  pub task_issues-clean :
      (plan : TaskPlan) (l : List TaskSpec) → clean (task_issues v plan l) ≡ all (sound_task plan) l
  unfolding task_issues
  task_issues-clean plan [] = refl
  task_issues-clean plan (task ∷ rest) =
      rw
        (
          both (validate_task_semantics v task (tasks_by_id plan)) (task_issues v plan rest)
              (validate_task_scope plan task),
          validate_task_scope-clean plan task,
          semantics-clean plan task,
          task_issues-clean plan rest,
        )
        refl

  all-insert_by :
      (p : TaskSpec → Bool) (x : TaskSpec) (l : List TaskSpec)
      → all p (insert_by by_id x l) ≡ (p x && all p l)
  all-insert_by p x [] = refl
  all-insert_by p x (y ∷ ys) = elim (Bool-cases (by_id x y)) [
    | inl e ↦ rw e refl
    | inr e ↦ rw (e, all-insert_by p x ys) (ground arith)
  ]

  pub all-sort_by : (p : TaskSpec → Bool) (l : List TaskSpec) → all p (sort_by by_id l) ≡ all p l
  all-sort_by p [] = refl
  all-sort_by p (x ∷ xs) = rw (all-insert_by p x (sort_by by_id xs), all-sort_by p xs) refl
