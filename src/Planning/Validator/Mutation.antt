-- ===== src/Planning/Validator/Mutation.antt =====
-- The mutations that `validate_mutation`, planning/validator.py, turns into a plan.
use autonomous_swe.Prelude.{
  elem, unique, ℕ, ◌+◌, ◌≡◌, ◌≤◌, refl, ap, sym, ◌∙◌, ◌↔◌, Bool, true, false, not, ◌&&◌, none, List,
  [], ◌∷◌, ◌++◌, length, all, ◌==◌, leb, leb→le, ==→eq, ==_refl, if◌then◌else◌, Bool-cases, inl,
  inr, arith,
}
use autonomous_swe.Planning.Models.{
  TaskSpec, TaskPlan, TaskPlanMutation, task_ids, task_scope_matches_plan,
}
use autonomous_swe.Planning.Validator.{
  Checked, checks, faults, ◌>>=◌, TaskPlanValidator, PlanValidationResult, is_empty, valid,
  issue_if, ValidationIssue, Fault, IssueCode, MutationValidationResult, proposes, refuses,
  mutation_issues, proposed_plan, judge, validate, validate_mutation,
}
use autonomous_swe.Planning.Validator.Tasks.{is_empty-append, scoped, sound_task}
use autonomous_swe.Planning.Validator.Duplicates.{fresh, fresh-unique}
use autonomous_swe.Planning.Validator.Acceptance.{accepts, Acceptable, validate-Acceptable}

-- A task that is new to the plan, made in its next revision.
abbrev pub is_new : TaskPlan → TaskSpec → Bool
is_new current task =
    not (elem task.id (task_ids current.tasks)) && task.plan_revision == current.revision + 1

mutation_issues-empty :
    (current : TaskPlan) (seen : List ℕ) (tasks : List TaskSpec)
    → is_empty (mutation_issues current seen tasks)
      ≡ (all (is_new current) tasks && fresh seen (task_ids tasks))
unfolding mutation_issues
mutation_issues-empty current seen [] = refl
mutation_issues-empty current seen (task ∷ rest) =
    simp (is_empty-append, mutation_issues-empty current (task.id ∷ seen) rest) (ground arith)

pub record Admissible (v : TaskPlanValidator) (current : TaskPlan) (mutation : TaskPlanMutation)
    : Type 0 where
  pub current_base : mutation.base_revision ≡ current.revision
  pub tasks_new : all (is_new current) mutation.tasks ≡ true
  pub ids_unique : unique (task_ids mutation.tasks) ≡ true
  pub size : length (current.tasks ++ mutation.tasks) ≤ 500
  pub accepted : Acceptable v (proposed_plan current mutation)

first_true : (s p a t r q d : Bool) → (s && p && a && t && r && q && d) ≡ true → s ≡ true
first_true s p a t r q d h = ground arith

second_true : (a b : Bool) → (a && b) ≡ true → b ≡ true
second_true a b h = ground arith

le→leb : (a b : ℕ) → a ≤ b → leb a b ≡ true
le→leb a b h = ground arith

three_true : (a b c : Bool) → ((a && (b && c)) ≡ true) ↔ ((a ≡ true) × (b ≡ true) × (c ≡ true))
three_true a b c = ground arith

module _ (v : TaskPlanValidator) where
  judged :
      (q p : TaskPlan) (r : Checked PlanValidationResult)
      → (r >>= (λ r. checks (judge q r))) ≡ checks (proposes p)
      → (accepts r ≡ true) × (p ≡ q)
  judged q p (checks r) h = elim (Bool-cases (valid r)) [
    | inl e ↦ (e, cc (rw e at h))
    | inr e ↦ absurd (cc (rw e at h))
  ]
  judged q p (faults e) h = absurd (cc h)

  judges :
      (q : TaskPlan) (r : Checked PlanValidationResult)
      → accepts r ≡ true
      → (r >>= (λ r. checks (judge q r))) ≡ checks (proposes q)
  judges q (checks r) h = rw h refl
  judges q (faults e) h = absurd (cc h)

  all_weaken :
      (p q : TaskSpec → Bool) (l : List TaskSpec)
      → ((t : TaskSpec) → p t ≡ true → q t ≡ true)
      → all p l ≡ true
      → all q l ≡ true
  all_weaken p q [] k h = refl
  all_weaken p q (t ∷ ts) k h = ground (arith, k t, all_weaken p q ts k)

  scoped_of_sound :
      (plan : TaskPlan) (t : TaskSpec) → sound_task v plan t ≡ true → scoped plan t ≡ true
  scoped_of_sound plan t h = first_true (scoped plan t) _ _ _ _ _ _ h

  scope_of-Acceptable : (plan : TaskPlan) → Acceptable v plan → task_scope_matches_plan plan ≡ true
  unfolding task_scope_matches_plan
  scope_of-Acceptable plan a =
      rw
        (
          a.ids_unique,
          all_weaken (sound_task v plan) (scoped plan) plan.tasks (scoped_of_sound plan)
              a.tasks_sound,
        )
        refl

  abbrev decided : Bool → Bool → TaskPlan → List ValidationIssue → Checked MutationValidationResult
  decided b c q issues =
      if b
      then (if c then checks q else faults Fault.validation_error)
        >>= (λ proposed. validate v proposed >>= (λ r. checks (judge proposed r)))
      else checks (refuses issues)

  decided_proposes :
      (b c : Bool) (q p : TaskPlan) (issues : List ValidationIssue)
      → (decided b c q issues ≡ checks (proposes p))
        ↔ ((b ≡ true) × (c ≡ true) × (accepts (validate v q) ≡ true) × (p ≡ q))
  decided_proposes false c q p issues = (λ h. absurd (cc h), λ h. absurd (cc (h.0)))
  decided_proposes true false q p issues = (λ h. absurd (cc h), λ h. absurd (cc (h.1)))
  decided_proposes true true q p issues = (
    λ h. let (ok, e) = judged q p (validate v q) h in (refl, refl, ok, e),
    λ (b, c, ok, e). judges q (validate v q) ok ∙ ap (λ x. checks (proposes x)) (sym e),
  )

  issues-empty :
      (current : TaskPlan) (mutation : TaskPlanMutation)
      → (is_empty (
          issue_if
            (not (mutation.base_revision == current.revision))
            IssueCode.stale_plan_revision
            none
          ++ mutation_issues current [] mutation.tasks))
        ≡ (mutation.base_revision == current.revision
            && (all (is_new current) mutation.tasks && unique (task_ids mutation.tasks)))
  issues-empty current mutation =
      rw
        (
          is_empty-append {0},
          mutation_issues-empty current [] mutation.tasks,
          fresh-unique (task_ids mutation.tasks),
        )
        (ground arith)

  -- `validate_mutation` proposes a plan exactly when the mutation starts from the current revision,
  -- its tasks are new to the plan, of its next revision and no two of one identifier, the plan with
  -- them has at most 500 tasks, and `validate` finds no issue with it; the plan that it proposes is
  -- then this one: the tasks of the current plan, unchanged, and those of the mutation after them.
  pub validate_mutation-Admissible :
      (current : TaskPlan) (mutation : TaskPlanMutation) (p : TaskPlan)
      → (validate_mutation v current mutation ≡ checks (proposes p))
        ↔ (Admissible v current mutation × (p ≡ proposed_plan current mutation))
  unfolding validate_mutation
  validate_mutation-Admissible current mutation p =
      let q = proposed_plan current mutation in
      let issues =
        issue_if (not (mutation.base_revision == current.revision)) IssueCode.stale_plan_revision
          none
        ++ mutation_issues current [] mutation.tasks in
      let starts =
        three_true (mutation.base_revision == current.revision)
          (all (is_new current) mutation.tasks) (unique (task_ids mutation.tasks)) in
      let decision =
        decided_proposes (is_empty issues) (task_scope_matches_plan q && leb (length q.tasks) 500) q
          p issues in
      (
        λ h.
            let (empty, sized, ok, e) = decision.0 h in
            let (base, new, ids) = starts.0 (sym (issues-empty current mutation) ∙ empty) in
            (
              record {
                current_base = ==→eq _ _ base;
                tasks_new = new;
                ids_unique = ids;
                size =
                    leb→le _ _
                      (second_true (task_scope_matches_plan q) (leb (length q.tasks) 500) sized);
                accepted = (validate-Acceptable v q).0 ok;
              },
              e,
            ),
        λ (a, e). decision.1 (
          issues-empty current mutation
              ∙ starts.1 (
                ap (λ n. n == current.revision) a.current_base ∙ ==_refl current.revision,
                a.tasks_new,
                a.ids_unique,
              ),
          rw (scope_of-Acceptable q a.accepted) (le→leb (length q.tasks) 500 a.size),
          (validate-Acceptable v q).1 a.accepted,
          e,
        ),
      )
