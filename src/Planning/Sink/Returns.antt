-- ===== src/Planning/Sink/Returns.antt =====
-- `_has_final_validation_sink`, planning/validator.py, raises no `KeyError` when every dependency is
-- in the plan.
use autonomous_swe.Prelude.{
  ℕ, ◌≡◌, refl, subst, Bool, true, false, ◌&&◌, Option, none, some, [], ◌∷◌, all, ◌==◌,
  if◌then◌else◌, Table, get, is_some, Bool-cases, inl, inr, arith,
}
use autonomous_swe.Planning.Models.{TaskSpec}
use autonomous_swe.Planning.Counting.{all_elim}
use autonomous_swe.Planning.Kahn.{planned}
use autonomous_swe.Planning.Sink.{
  Walk, ancestors, begin, depended_on, is_validation, covers, is_final_sink, count_one, final_sinks,
  is_one, has_final_validation_sink,
}
use autonomous_swe.Planning.Sink.Walks.{Ends, walk-Ends, elem-reverse_aux}

abbrev all_named : Table TaskSpec → Table TaskSpec → Bool
all_named tasks [] = true
all_named tasks ((k, task) ∷ rest) = all (planned tasks) task.dependencies && all_named tasks rest

-- Every dependency of a task is in the plan.
abbrev pub all_known : Table TaskSpec → Bool
all_known tasks = all_named tasks tasks

module _ (tasks : Table TaskSpec) where
  named_known :
      (rest : Table TaskSpec) (k : ℕ) (task : TaskSpec)
      → all_named tasks rest ≡ true
      → get k rest ≡ some task
      → all (planned tasks) task.dependencies ≡ true
  unfolding get
  named_known [] k task h e = absurd (cc e)
  named_known ((j, t) ∷ rest) k task h e = elim (Bool-cases (j == k)) [
    | inl s ↦
        let same : t ≡ task = cc (rw s at e) in
        subst (λ (x : TaskSpec). all (planned tasks) x.dependencies ≡ true) same (ground (arith, h))
    | inr s ↦ named_known rest k task (ground (arith, h)) (rw s at e)
  ]

  module _ (known : all_known tasks ≡ true) where
    ancestors-Ends :
        (task : TaskSpec)
        → all (planned tasks) task.dependencies ≡ true
        → Ends (ancestors tasks task)
    unfolding ancestors
    ancestors-Ends task here =
        walk-Ends tasks
          (λ k t here. all_elim (planned tasks) t.dependencies (named_known tasks k t known here)) _
          (begin task)
          (λ y m.
            all_elim (planned tasks) task.dependencies here y
              (ground (arith, m, elem-reverse_aux y task.dependencies [])))
          (omega arith)

    is_final_sink-is_some :
        (k : ℕ) (task : TaskSpec)
        → all (planned tasks) task.dependencies ≡ true
        → is_some (is_final_sink tasks k task) ≡ true
    unfolding is_final_sink
    is_final_sink-is_some k task h =
        go (depended_on k tasks) (is_validation task.task_type) (ancestors tasks task)
          (ancestors-Ends task h)
      where
        go :
            (b v : Bool) (o : Option Walk)
            → Ends o
            → is_some (if b then some false else if v then covers tasks k o else some false) ≡ true
        go true v o e = refl
        go false false o e = refl
        go false true (some s) e = refl
        go false true none e = absurd e

    final_sinks-is_some :
        (rest : Table TaskSpec)
        → all_named tasks rest ≡ true
        → is_some (final_sinks tasks rest) ≡ true
    unfolding final_sinks
    final_sinks-is_some [] h = refl
    final_sinks-is_some ((k, task) ∷ rest) h =
        go (is_final_sink tasks k task) (final_sinks tasks rest)
          (is_final_sink-is_some k task (ground (arith, h)))
          (final_sinks-is_some rest (ground (arith, h)))
      where
        go :
            (o : Option Bool) (m : Option ℕ)
            → is_some o ≡ true
            → is_some m ≡ true
            → is_some (count_one o m) ≡ true
        go none m p q = p
        go (some b) none p q = q
        go (some b) (some m) p q = refl

-- When every dependency of every task is in the plan, the search for the ancestors of a task ends
-- with nothing pending, and the test for the final sink gives an answer.
pub has_final_validation_sink_returns :
    (tasks : Table TaskSpec) (k : ℕ) (task : TaskSpec)
    → all_known tasks ≡ true
    → get k tasks ≡ some task
    → (is_some (has_final_validation_sink tasks) ≡ true) × Ends (ancestors tasks task)
unfolding has_final_validation_sink
has_final_validation_sink_returns tasks k task h here = (
  go (final_sinks tasks tasks) (final_sinks-is_some tasks h tasks h),
  ancestors-Ends tasks h task (named_known tasks tasks k task h here),
)
  where
    go : (m : Option ℕ) → is_some m ≡ true → is_some (is_one m) ≡ true
    go none p = p
    go (some n) p = refl
