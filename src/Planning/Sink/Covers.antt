-- ===== src/Planning/Sink/Covers.antt =====
-- What `_has_final_validation_sink`, planning/validator.py, says of a plan.
use autonomous_swe.Prelude.{
  elem, ℕ, ◌+◌, ◌≡◌, ◌≤◌, refl, sym, ap, Bool, true, false, ◌&&◌, Option, none, some, [], ◌∷◌, all,
  ◌==◌, ==→eq, if◌then◌else◌, Table, Listed, Listed-self, get, Bool-cases, inl, inr, ◌⊎◌, arith,
}
use autonomous_swe.Planning.Models.{TaskSpec, TaskPlan, tasks_by_id}
use autonomous_swe.Planning.Counting.{all_elim, elem_of_count}
use autonomous_swe.Planning.Kahn.{planned, keys}
use autonomous_swe.Planning.Kahn.Invariant.{count-keys}
use autonomous_swe.Planning.Kahn.Correct.{plan-Distinct}
use autonomous_swe.Planning.Sink.{
  Walk, ancestors, depended_on, is_validation, covers, is_final_sink, count_one, final_sinks,
  is_one, has_final_validation_sink,
}
use autonomous_swe.Planning.Sink.Walks.{Needs, ancestors-Needs}

-- A VALIDATION task that no task names, and that depends on every other task of the plan.
pub record FinalSink (tasks : Table TaskSpec) : Type 0 where
  pub id : ℕ
  pub task : TaskSpec
  pub here : get id tasks ≡ some task
  pub validates : is_validation task.task_type ≡ true
  pub last : depended_on id tasks ≡ false
  pub covering : (j : ℕ) → (planned tasks j ≡ false) ⊎ (j ≡ id) ⊎ Needs tasks id j

both_true : (a b : Bool) → (a && b) ≡ true → (a ≡ true) × (b ≡ true)
both_true a b h = ground arith

chosen :
    (b v : Bool) (o : Option Bool)
    → (if b then some false else if v then o else some false) ≡ some true
    → (b ≡ false) × (v ≡ true) × (o ≡ some true)
chosen true v o h = absurd (cc h)
chosen false true o h = (refl, refl, h)
chosen false false o h = absurd (cc h)

module _ (plan : TaskPlan) where
  abbrev tasks : Table TaskSpec
  tasks = tasks_by_id plan

  planned-key : (z : ℕ) → planned tasks z ≡ true → elem z (keys tasks) ≡ true
  planned-key z e =
      elem_of_count z (keys tasks) (ground (arith, count-keys z tasks (plan-Distinct plan), e))

  found :
      (k : ℕ) (s : Walk)
      → covers tasks k (some s) ≡ some true
      → (j : ℕ) → planned tasks j ≡ true
      → (k == j) ≡ false
      → elem j s.found ≡ true
  found k s h j known other =
      let both : (all (λ j. elem j (k ∷ s.found)) (keys tasks) && all (planned tasks) (k ∷ s.found))
          ≡ true =
        cc h in
      ground (
        arith,
        other,
        all_elim (λ j. elem j (k ∷ s.found)) (keys tasks) (both_true _ _ both).0 j
            (planned-key j known),
      )

  covered :
      (k : ℕ) (task : TaskSpec) (o : Option Walk)
      → get k tasks ≡ some task
      → ancestors tasks task ≡ o
      → covers tasks k o ≡ some true
      → (j : ℕ) → (planned tasks j ≡ false) ⊎ (j ≡ k) ⊎ Needs tasks k j
  covered k task none here e h j = absurd (cc h)
  covered k task (some s) here e h j = elim (Bool-cases (planned tasks j)) [
    | inr out ↦ inl out
    | inl known ↦ elim (Bool-cases (k == j)) [
      | inl same ↦ inr (inl (sym (==→eq k j same)))
      | inr other ↦ inr (inr (ancestors-Needs tasks k task s j here e (found k s h j known other)))
    ]
  ]

  sink_of :
      (k : ℕ) (task : TaskSpec)
      → get k tasks ≡ some task
      → is_final_sink tasks k task ≡ some true
      → FinalSink tasks
  unfolding is_final_sink
  sink_of k task here h =
      let (last, validates, cover) =
        chosen (depended_on k tasks) (is_validation task.task_type) _ h in
      record {
        id = k;
        task = task;
        here = here;
        validates = validates;
        last = last;
        covering = covered k task (ancestors tasks task) here refl cover;
      }

  counted :
      (k : ℕ) (task : TaskSpec) (o : Option Bool) (m : Option ℕ) (n : ℕ)
      → get k tasks ≡ some task
      → is_final_sink tasks k task ≡ o
      → ((n : ℕ) → m ≡ some n → 1 ≤ n → FinalSink tasks)
      → count_one o m ≡ some n
      → 1 ≤ n
      → FinalSink tasks
  counted k task none m n here e next h p = absurd (cc h)
  counted k task (some b) none n here e next h p = absurd (cc h)
  counted k task (some true) (some m) n here e next h p = sink_of k task here e
  counted k task (some false) (some m) n here e next h p =
      let same : 0 + m ≡ n = cc h in next m refl (omega arith)

  find_sink :
      (rest : Table TaskSpec) (n : ℕ)
      → Listed tasks rest
      → final_sinks tasks rest ≡ some n
      → 1 ≤ n
      → FinalSink tasks
  unfolding final_sinks
  find_sink [] n l h p = let same : ◌≡◌ {A = ℕ} 0 n = cc h in absurd (omega arith)
  find_sink ((k, task) ∷ rest) n l h p =
      counted k task (is_final_sink tasks k task) (final_sinks tasks rest) n l.0 refl
        (λ m. find_sink rest m l.2) h p

  one_of : (o : Option ℕ) → is_one o ≡ some true → o ≡ some 1
  one_of none h = absurd (cc h)
  one_of (some n) h = let same : (n == 1) ≡ true = cc h in ap some (==→eq n 1 same)

  -- A plan of which the test holds has a final VALIDATION task: no task of the plan names it, and it
  -- depends, at once or through others, on every other task of the plan.
  pub has_final_validation_sink-FinalSink :
      has_final_validation_sink (tasks_by_id plan) ≡ some true → FinalSink (tasks_by_id plan)
  unfolding has_final_validation_sink
  has_final_validation_sink-FinalSink h =
      find_sink tasks 1 (Listed-self tasks (plan-Distinct plan))
        (one_of (final_sinks tasks tasks) h) (omega arith)
