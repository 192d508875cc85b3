-- ===== src/Planning/Validator/Acceptance.antt =====
-- The plans that `validate`, planning/validator.py, finds no issue with, in the plan's own terms.
use autonomous_swe.Prelude.{
  unique, ℕ, ◌≡◌, refl, ap, sym, ◌∙◌, ◌↔◌, Bool, true, false, not, ◌&&◌, ◌||◌, Option, none, some,
  List, [], ◌∷◌, ◌++◌, length, map, all, ◌==◌, leb, ==→eq, ==_refl, if◌then◌else◌, sort_by, arith,
}
use autonomous_swe.Planning.Models.{TaskPlan, tasks_by_id, task_ids}
use autonomous_swe.Planning.Kahn.{topological_order}
use autonomous_swe.Planning.Kahn.Correct.{Acyclic, topological_order_complete}
use autonomous_swe.Planning.Sink.{has_final_validation_sink}
use autonomous_swe.Planning.Depth.{maximum_depth}
use autonomous_swe.Planning.Validator.{
  ValidationIssue, IssueCode, Fault, Checked, checks, faults, ◌>>=◌, or_fault, TaskPlanValidator,
  PlanValidationResult, is_empty, valid, issue_if, duplicate_ids, task_issues, order_issues,
  dynamic_tasks, total_budget, total_execution, limit_issues, by_id, validate,
}
use autonomous_swe.Planning.Validator.Tasks.{
  is_true, clean, is_empty-append, sound_task, task_issues-clean, all-sort_by,
}
use autonomous_swe.Planning.Validator.Duplicates.{duplicate_ids-empty, fresh-unique}

abbrev pub accepts : Checked PlanValidationResult → Bool
accepts (checks r) = valid r
accepts (faults e) = false

map-empty {ℓ κ} :
    {A : Type ℓ} {B : Type κ} (f : A → B) (l : List A) → is_empty (map f l) ≡ is_empty l
map-empty f [] = refl
map-empty f (x ∷ xs) = refl

four_true :
    (a b c d e : Bool)
    → ((a && b && (c && d) && e) ≡ true)
      ↔ ((a ≡ true) × (b ≡ true) × (c ≡ true) × (d ≡ true) × (e ≡ true))
four_true a b c d e = ground arith

module _ (v : TaskPlanValidator) where
  -- The demands on the plan as a whole.
  abbrev pub limits_met : TaskPlan → Bool
  limits_met plan =
      leb (maximum_depth (tasks_by_id plan) (topological_order (tasks_by_id plan)))
        plan.limits.max_plan_depth
      && leb (dynamic_tasks plan) plan.limits.max_dynamic_tasks
      && leb (total_budget plan) plan.limits.max_total_budget_usd
      && leb (total_execution plan) plan.limits.max_total_execution_seconds

  abbrev pub sink_met : TaskPlan → Bool
  sink_met plan =
      not v.require_final_validation_sink || is_true (has_final_validation_sink (tasks_by_id plan))

  pub record Acceptable (plan : TaskPlan) : Type 0 where
    pub ids_unique : unique (task_ids plan.tasks) ≡ true
    pub tasks_sound : all (sound_task v plan) plan.tasks ≡ true
    pub acyclic : Acyclic (tasks_by_id plan)
    pub sink : sink_met plan ≡ true
    pub limits : limits_met plan ≡ true

  -- The sequence of `validate`.
  accepts-bind :
      (m k : Checked (List ValidationIssue)) (first last : List ValidationIssue)
      (result : List ValidationIssue → List ValidationIssue → PlanValidationResult)
      → ((a b : List ValidationIssue) → (result a b).issues ≡ first ++ a ++ b ++ last)
      → accepts (m >>= λ a. k >>= λ b. checks (result a b))
        ≡ (is_empty first && clean m && clean k && is_empty last)
  accepts-bind (checks a) (checks b) first last result h =
      rw (h a b) (simp is_empty-append (ground arith))
  accepts-bind (checks a) (faults e) first last result h = ground arith
  accepts-bind (faults e) k first last result h = ground arith

  limit_issues-empty :
      (plan : TaskPlan)
      → is_empty (
          limit_issues plan
            (maximum_depth (tasks_by_id plan) (topological_order (tasks_by_id plan))))
        ≡ limits_met plan
  unfolding limit_issues
  limit_issues-empty plan = ground arith

  order_issues-clean :
      (plan : TaskPlan) (order : List ℕ)
      → clean (order_issues v (tasks_by_id plan) order)
        ≡ (length order == length (tasks_by_id plan) && sink_met plan)
  unfolding order_issues
  order_issues-clean plan order =
      go (length order == length (tasks_by_id plan)) v.require_final_validation_sink
        (has_final_validation_sink (tasks_by_id plan))
    where
      go :
          (full required : Bool) (o : Option Bool)
          → clean (
              if not full
              then checks (issue_if true IssueCode.cycle none)
              else if required
              then or_fault Fault.key_error o
                >>= (λ sink. checks (issue_if (not sink) IssueCode.final_validation_sink none))
              else checks [])
            ≡ (full && (not required || is_true o))
      go false required o = refl
      go true false o = refl
      go true true none = refl
      go true true (some true) = refl
      go true true (some false) = refl

  validate-accepts :
      (plan : TaskPlan)
      → accepts (validate v plan) ≡ (
          unique (task_ids plan.tasks)
          && all (sound_task v plan) plan.tasks
          && (length (topological_order (tasks_by_id plan)) == length (tasks_by_id plan)
              && sink_met plan)
          && limits_met plan)
  unfolding validate
  validate-accepts plan =
      let tasks = tasks_by_id plan in
      let order = topological_order tasks in
      accepts-bind (task_issues v plan (sort_by by_id plan.tasks)) (order_issues v tasks order)
        (map (λ k. record { code = IssueCode.duplicate_task_id; task_id = some k })
          (duplicate_ids [] (task_ids plan.tasks)))
        (limit_issues plan (maximum_depth tasks order)) _ (λ a b. refl)
      ∙ rw
          (
            map-empty _ (duplicate_ids [] (task_ids plan.tasks)),
            duplicate_ids-empty [] (task_ids plan.tasks),
            fresh-unique (task_ids plan.tasks),
            task_issues-clean v plan (sort_by by_id plan.tasks),
            all-sort_by v (sound_task v plan) plan.tasks,
            order_issues-clean plan order,
            limit_issues-empty plan,
          )
          refl

  demands :
      (plan : TaskPlan)
      → ((unique (task_ids plan.tasks)
            && all (sound_task v plan) plan.tasks
            && (length (topological_order (tasks_by_id plan)) == length (tasks_by_id plan)
                && sink_met plan)
            && limits_met plan)
          ≡ true)
        ↔ ((unique (task_ids plan.tasks) ≡ true)
            × (all (sound_task v plan) plan.tasks ≡ true)
            × ((length (topological_order (tasks_by_id plan)) == length (tasks_by_id plan)) ≡ true)
            × (sink_met plan ≡ true)
            × (limits_met plan ≡ true))
  demands plan =
      four_true (unique (task_ids plan.tasks)) (all (sound_task v plan) plan.tasks)
        (length (topological_order (tasks_by_id plan)) == length (tasks_by_id plan)) (sink_met plan)
        (limits_met plan)

  -- `validate` returns and finds no issue exactly with the plans that meet the demands: the
  -- identifiers are unique, every task meets its own, the dependencies have no cycle, the final
  -- sink is there, if it is required, and the four limits hold.
  pub validate-Acceptable : (plan : TaskPlan) → (accepts (validate v plan) ≡ true) ↔ Acceptable plan
  validate-Acceptable plan = (
    λ h.
        let (ids, tasks, full, sink, limits) = (demands plan).0 (sym (validate-accepts plan) ∙ h) in
        record {
          ids_unique = ids;
          tasks_sound = tasks;
          acyclic = (topological_order_complete plan).0 (==→eq _ _ full);
          sink = sink;
          limits = limits;
        },
    λ a.
        validate-accepts plan
        ∙ (demands plan).1 (
          a.ids_unique,
          a.tasks_sound,
          ap (λ n. n == length (tasks_by_id plan)) ((topological_order_complete plan).1 a.acyclic)
              ∙ ==_refl (length (tasks_by_id plan)),
          a.sink,
          a.limits,
        ),
  )
