-- ===== src/Planning/Kahn/Dependencies.antt =====
-- The edges that `_topological_order` counts, against the dependencies that the tasks name.
use autonomous_swe.Prelude.{
  ℕ, ◌+◌, ◌≡◌, ap, subst, ◌∙◌, true, Option, none, some, List, [], ◌∷◌, length, where_true, ◌==◌,
  ==→eq, if◌then◌else◌, Bool-cases, inl, inr, Table, Distinct, get, arith,
}
use autonomous_swe.Planning.Models.{TaskSpec}
use autonomous_swe.Planning.Counting.{count, count-append}
use autonomous_swe.Planning.Kahn.{Edges, planned, add_edge, add_task, add_tasks, no_edges}

abbrev pub dependencies_of : Option TaskSpec → List ℕ
dependencies_of none = []
dependencies_of (some task) = task.dependencies

-- The dependencies of a task that are tasks of the plan.
abbrev pub within : Table TaskSpec → List ℕ → List ℕ
within tasks_by_id dependencies = where_true (planned tasks_by_id) dependencies

abbrev pub needs : Table TaskSpec → ℕ → List ℕ
unfolding get
needs tasks_by_id id = within tasks_by_id (dependencies_of (get id tasks_by_id))

module _ (plan : Table TaskSpec) where
  add_task-indegree :
      (id z : ℕ) (ds : List ℕ) (e : Edges)
      → (add_task plan id ds e).indegree z
        ≡ e.indegree z + (if id == z then length (within plan ds) else 0)
  unfolding add_task
  add_task-indegree id z [] e = ground arith
  add_task-indegree id z (d ∷ ds) e = elim (Bool-cases (planned plan d)) [
    | inl p ↦
        rw (add_task-indegree id z ds (add_edge plan id d e), p)
          (ground (arith, ap e.indegree {x = id} {y = z}))
    | inr p ↦ rw (add_task-indegree id z ds (add_edge plan id d e), p) (ground arith)
  ]

  add_edge-dependents :
      (id d x z : ℕ) (e : Edges)
      → count z ((add_edge plan id d e).dependents x)
        ≡ count z (e.dependents x)
          + (if planned plan d then (if d == x then (if id == z then 1 else 0) else 0) else 0)
  unfolding add_edge
  add_edge-dependents id d x z e = elim (Bool-cases (planned plan d)) [
    | inr p ↦ rw p (omega arith)
    | inl p ↦ elim (Bool-cases (d == x)) [
      | inr n ↦ rw (p, n) (omega arith)
      | inl s ↦
          let same : e.dependents d ≡ e.dependents x = ap e.dependents (==→eq d x s) in
          rw (p, s, same, count-append z (e.dependents x) (id ∷ [])) (omega arith)
    ]
  ]

  add_task-dependents :
      (id x z : ℕ) (ds : List ℕ) (e : Edges)
      → count z ((add_task plan id ds e).dependents x)
        ≡ count z (e.dependents x) + (if id == z then count x (within plan ds) else 0)
  unfolding add_task
  add_task-dependents id x z [] e = ground arith
  add_task-dependents id x z (d ∷ ds) e = elim (Bool-cases (planned plan d)) [
    | inl p ↦
        rw (add_task-dependents id x z ds (add_edge plan id d e), add_edge-dependents id d x z e, p)
          (ground arith)
    | inr p ↦
        rw (add_task-dependents id x z ds (add_edge plan id d e), add_edge-dependents id d x z e, p)
          (ground arith)
  ]

  absent : (ts : Table TaskSpec) (k z : ℕ) → (k == z) ≡ true → get k ts ≡ none → get z ts ≡ none
  absent ts k z s h = subst (λ j. get j ts ≡ none) (==→eq k z s) h

  add_tasks-indegree :
      (z : ℕ) (tasks : Table TaskSpec) (e : Edges)
      → Distinct tasks
      → (add_tasks plan tasks e).indegree z
        ≡ e.indegree z + length (within plan (dependencies_of (get z tasks)))
  unfolding add_tasks get
  add_tasks-indegree z [] e h = omega arith
  add_tasks-indegree z ((k, t) ∷ ts) e h =
      rw
        (
          add_tasks-indegree z ts (add_task plan k t.dependencies e) h.1,
          add_task-indegree k z t.dependencies e,
        )
        (elim (Bool-cases (k == z)) [
          | inl s ↦ rw (s, absent ts k z s h.0) (omega arith)
          | inr s ↦ rw s (omega arith)
        ])

  add_tasks-dependents :
      (x z : ℕ) (tasks : Table TaskSpec) (e : Edges)
      → Distinct tasks
      → count z ((add_tasks plan tasks e).dependents x)
        ≡ count z (e.dependents x) + count x (within plan (dependencies_of (get z tasks)))
  unfolding add_tasks get
  add_tasks-dependents x z [] e h = omega arith
  add_tasks-dependents x z ((k, t) ∷ ts) e h =
      rw
        (
          add_tasks-dependents x z ts (add_task plan k t.dependencies e) h.1,
          add_task-dependents k x z t.dependencies e,
        )
        (elim (Bool-cases (k == z)) [
          | inl s ↦ rw (s, absent ts k z s h.0) (omega arith)
          | inr s ↦ rw s (omega arith)
        ])

-- At the start a task has as many open dependencies as it names within the plan.
pub indegree-start :
    (tasks : Table TaskSpec) (z : ℕ)
    → Distinct tasks
    → (add_tasks tasks tasks no_edges).indegree z ≡ length (needs tasks z)
unfolding get
indegree-start tasks z h = add_tasks-indegree tasks z tasks no_edges h ∙ omega arith

-- A task stands among the dependents of another as often as it names it.
pub dependents-start :
    (tasks : Table TaskSpec) (x z : ℕ)
    → Distinct tasks
    → count z ((add_tasks tasks tasks no_edges).dependents x) ≡ count x (needs tasks z)
unfolding get
dependents-start tasks x z h = add_tasks-dependents tasks x z tasks no_edges h ∙ omega arith
