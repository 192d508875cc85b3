-- ===== src/Planning/Kahn/Correct.antt =====
-- What `_topological_order` and the `CYCLE` test, planning/validator.py, establish.
use autonomous_swe.Prelude.{
  elem, ℕ, zero, suc, ◌+◌, ◌≡◌, ◌≤◌, ◌<◌, refl, sym, subst, ◌∙◌, ◌↔◌, Bool, true, false, List, [],
  ◌∷◌, ◌++◌, length, ◌==◌, if◌then◌else◌, ltb, all, ltb→lt, where_true, ==→eq, ==_refl, Bool-cases,
  inl, inr, Table, Distinct, AllTrue, get, put-Distinct, is_some, arith,
}
use mathlib.Core.List.{append_assoc}
use autonomous_swe.Planning.Models.{TaskSpec, TaskPlan, index_tasks, tasks_by_id}
use autonomous_swe.Planning.Counting.{
  all_elim, count, count-where_true, elem_of_count, count_of_elem, missing, elem-snoc,
}
use autonomous_swe.Planning.Kahn.{Search, planned, keys, topological_search, topological_order}
use autonomous_swe.Planning.Kahn.Dependencies.{needs}
use autonomous_swe.Planning.Kahn.Invariant.{Inv, Ordered, count-keys}
use autonomous_swe.Planning.Kahn.Pigeonhole.{count_of_length, length-le_of_count}
use autonomous_swe.Planning.Kahn.Loop.{
  topological_search-Inv, topological_search_ends, once, placed_in_plan, length-keys, fits,
}

index_tasks-Distinct :
    (l : List TaskSpec) (t : Table TaskSpec) → Distinct t → Distinct (index_tasks l t)
unfolding index_tasks
index_tasks-Distinct [] t h = h
index_tasks-Distinct (x ∷ xs) t h = elim (Bool-cases (is_some (get x.id t))) [
  | inl e ↦ rw e (index_tasks-Distinct xs t h)
  | inr e ↦ rw e (index_tasks-Distinct xs _ (put-Distinct x.id x t h))
]

pub plan-Distinct : (plan : TaskPlan) → Distinct (tasks_by_id plan)
unfolding index_tasks
plan-Distinct plan = index_tasks-Distinct plan.tasks [] tt

-- Each dependency within the plan has a smaller rank than the task that names it.
abbrev pub respects : (ℕ → ℕ) → Table TaskSpec → Bool
unfolding get
respects rank tasks = all (λ k. all (λ y. ltb (rank y) (rank k)) (needs tasks k)) (keys tasks)

-- No chain of dependencies returns to where it began.
abbrev pub Acyclic : Table TaskSpec → Type 0
unfolding get
Acyclic tasks = (rank : ℕ → ℕ) × (respects rank tasks ≡ true)

-- The place of an item in a list; the length, if it is not in it.
abbrev place : ℕ → List ℕ → ℕ
place a [] = 0
place a (x ∷ xs) = if x == a then 0 else suc (place a xs)

place-lt : (a : ℕ) (xs ys : List ℕ) → elem a xs ≡ true → place a (xs ++ ys) < length xs
place-lt a [] ys h = ground arith
place-lt a (x ∷ xs) ys h = ground (arith, place-lt a xs ys)

place-append :
    (a : ℕ) (xs ys : List ℕ) → elem a xs ≡ false → place a (xs ++ ys) ≡ length xs + place a ys
place-append a [] ys h = omega arith
place-append a (x ∷ xs) ys h = ground (arith, place-append a xs ys)

all_intro : (q : ℕ → Bool) (l : List ℕ) → ((y : ℕ) → elem y l ≡ true → q y ≡ true) → all q l ≡ true
all_intro q [] h = refl
all_intro q (x ∷ xs) h =
    rw (h x (rw (==_refl x) refl)) (all_intro q xs (λ y e. h y (ground (arith, e))))

all_of-AllTrue :
    (p q : ℕ → Bool) (l : List ℕ)
    → ((y : ℕ) → p y ≡ true → q y ≡ true)
    → AllTrue p l
    → all q l ≡ true
all_of-AllTrue p q [] k h = refl
all_of-AllTrue p q (x ∷ xs) k h = rw (k x h.0) (all_of-AllTrue p q xs k h.1)

nothing_missing :
    (placed l : List ℕ) → ((y : ℕ) → elem y l ≡ true → elem y placed ≡ true) → missing placed l ≡ 0
nothing_missing placed [] h = refl
nothing_missing placed (x ∷ xs) h =
    rw (h x (rw (==_refl x) refl)) (nothing_missing placed xs (λ y e. h y (ground (arith, e))))

module _ (tasks : Table TaskSpec) where
  Ordered-place :
      (z : ℕ) (placed xs : List ℕ)
      → Ordered tasks placed xs
      → elem z placed ≡ false
      → elem z xs ≡ true
      → all (λ y. ltb (place y (placed ++ xs)) (place z (placed ++ xs))) (needs tasks z) ≡ true
  Ordered-place z placed [] o new h = ground (arith, h)
  Ordered-place z placed (x ∷ xs) o new h = elim (Bool-cases (x == z)) [
    | inl e ↦
        all_of-AllTrue (λ y. elem y placed) _ (needs tasks z)
          (λ y p.
            ground (arith, e, place-lt y placed (x ∷ xs) p, place-append z placed (x ∷ xs) new))
          (subst (λ k. AllTrue (λ y. elem y placed) (needs tasks k)) (==→eq x z e) o.0)
    | inr e ↦
        subst (λ l. all (λ y. ltb (place y l) (place z l)) (needs tasks z) ≡ true)
          (append_assoc placed (x ∷ []) xs)
          (Ordered-place z (placed ++ x ∷ []) xs o.1 (rw (elem-snoc z x placed, e) new) (rw e at h))
  ]

  within-planned :
      (y : ℕ) (l : List ℕ) → elem y (where_true (planned tasks) l) ≡ true → planned tasks y ≡ true
  within-planned y l e = ground (
    arith,
    count-where_true (planned tasks) y l,
    count_of_elem y (where_true (planned tasks) l) e,
  )

  module _ (distinct : Distinct tasks) where
    abbrev final : Search
    final = topological_search tasks

    final-Inv : Inv tasks [] final
    final-Inv = topological_search-Inv tasks distinct

    idle : (z : ℕ) → count z final.ready ≡ 0
    idle z = rw (topological_search_ends tasks distinct) refl

    single : (z : ℕ) → count z final.result ≤ 1
    single z = omega (arith, once tasks distinct final final-Inv z)

    listed : (z : ℕ) → 0 < count z final.result → count z (keys tasks) ≡ 1
    listed z p = placed_in_plan tasks distinct final final-Inv z (omega arith)

    key-count : (z : ℕ) → elem z (keys tasks) ≡ true → 0 < count z (keys tasks)
    key-count z e = count_of_elem z (keys tasks) e

    key-planned : (z : ℕ) → elem z (keys tasks) ≡ true → planned tasks z ≡ true
    unfolding get
    key-planned z e = ground (arith, key-count z e, count-keys z tasks distinct)

    planned-key : (z : ℕ) → planned tasks z ≡ true → elem z (keys tasks) ≡ true
    unfolding get
    planned-key z e = elem_of_count z (keys tasks) (ground (arith, count-keys z tasks distinct, e))

    ranked : length final.result ≡ length tasks → Acyclic tasks
    unfolding get
    ranked e = (
      λ a. place a final.result,
      all_intro _ (keys tasks) λ z k. Ordered-place z [] final.result final-Inv.ordered refl (
          elem_of_count z final.result (
            omega (
              arith,
              count_of_length final.result (keys tasks) z single listed
                  (e ∙ sym (length-keys tasks)) (key-count z k),
            ))),
    )

    module _ (rank : ℕ → ℕ) (h : respects rank tasks ≡ true) where
      lower : (z y : ℕ) → planned tasks z ≡ true → elem y (needs tasks z) ≡ true → rank y < rank z
      unfolding get
      lower z y k e = ltb→lt _ _ (
          all_elim (λ x. ltb (rank x) (rank z)) (needs tasks z)
            (all_elim (λ k. all (λ x. ltb (rank x) (rank k)) (needs tasks k)) (keys tasks) h z
              (planned-key z k))
            y e)

      need-planned : (z y : ℕ) → elem y (needs tasks z) ≡ true → planned tasks y ≡ true
      unfolding get
      need-planned z y e = within-planned y _ e

      reached : (n z : ℕ) → planned tasks z ≡ true → rank z < n → elem z final.result ≡ true
      reached zero z k p = absurd (omega arith)
      reached (suc n) z k p = elem_of_count z final.result (
          ground (
            arith,
            k,
            idle z,
            final-Inv.placed z,
            final-Inv.degrees z,
            nothing_missing final.result (needs tasks z)
                (λ y e. reached n y (need-planned z y e) (omega (arith, lower z y k e))),
          ))

      completed : length final.result ≡ length tasks
      completed = omega (
        arith,
        length-keys tasks,
        fits tasks distinct final final-Inv,
        length-le_of_count (keys tasks) final.result
            (λ z. ground (arith, count-keys z tasks distinct))
            (λ z p. omega (
              arith,
              single z,
              count_of_elem z final.result (
                  reached (suc (rank z)) z (key-planned z (elem_of_count z (keys tasks) p))
                    (omega arith)),
            )),
      )

-- The order of a plan has no task twice and none outside the plan, and each task stands in it after
-- the tasks of the plan that it depends on.
pub topological_order-Ordered :
    (plan : TaskPlan)
    → Ordered (tasks_by_id plan) [] (topological_order (tasks_by_id plan))
      × ((z : ℕ)
          → count z (topological_order (tasks_by_id plan))
            ≤ (if planned (tasks_by_id plan) z then 1 else 0))
unfolding topological_order
topological_order-Ordered plan =
    let tasks = tasks_by_id plan in
    let inv = topological_search-Inv tasks (plan-Distinct plan) in
    (inv.ordered, λ z. ground (arith, inv.placed z))

-- The order has all tasks of the plan exactly when their dependencies, within the plan, have no
-- cycle: when some rank grows along them.
pub topological_order_complete :
    (plan : TaskPlan)
    → (length (topological_order (tasks_by_id plan)) ≡ length (tasks_by_id plan))
      ↔ Acyclic (tasks_by_id plan)
unfolding topological_order get
topological_order_complete plan =
    let tasks = tasks_by_id plan in
    let distinct = plan-Distinct plan in
    (ranked tasks distinct, λ a. completed tasks distinct a.0 a.1)
