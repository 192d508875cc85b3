-- ===== src/Planning/Kahn/Invariant.antt =====
-- What holds after each step of `_topological_order`, planning/validator.py.
use autonomous_swe.Prelude.{
  elem, ℕ, zero, suc, ◌+◌, ◌-◌, ◌≡◌, ◌≤◌, refl, sym, ap, subst, true, false, ◌&&◌, List, [], ◌∷◌,
  ◌++◌, where_true, ◌==◌, leb, ==→eq, ==_refl, if◌then◌else◌, Bool-cases, inl, inr, sort_by, Table,
  Distinct, get, is_some, AllTrue, arith,
}
use mathlib.Core.List.{append-nil, append_assoc}
use autonomous_swe.Planning.Models.{TaskSpec}
use autonomous_swe.Planning.Counting.{
  count, count-append, count-insert_by, count-sort_by, count-where_true, count_of_elem, missing,
  missing-snoc, missing-nil,
}
use autonomous_swe.Planning.Kahn.{
  Search, planned, release, release_all, visit, search_loop, start, keys, add_tasks, no_edges,
}
use autonomous_swe.Planning.Kahn.Dependencies.{needs, indegree-start}

-- Each task stands after the tasks that it needs.
abbrev pub Ordered : Table TaskSpec → List ℕ → List ℕ → Type 0
Ordered tasks placed [] = Unit
Ordered tasks placed (x ∷ xs) =
    AllTrue (λ y. elem y placed) (needs tasks x) × Ordered tasks (placed ++ x ∷ []) xs

-- `rest` are the dependents of the tasks placed that are still to be released.
pub record Inv (tasks : Table TaskSpec) (rest : List ℕ) (s : Search) : Type 0 where
  pub degrees : (z : ℕ) → s.indegree z ≡ missing s.result (needs tasks z) + count z rest
  pub placed :
      (z : ℕ)
      → count z s.result + count z s.ready ≡ (if planned tasks z && s.indegree z == 0 then 1 else 0)
  pub ordered : Ordered tasks [] s.result

Ordered-snoc :
    (tasks : Table TaskSpec) (before xs : List ℕ) (x : ℕ)
    → Ordered tasks before xs
    → AllTrue (λ y. elem y (before ++ xs)) (needs tasks x)
    → Ordered tasks before (xs ++ x ∷ [])
Ordered-snoc tasks before [] x h all =
    (subst (λ l. AllTrue (λ y. elem y l) (needs tasks x)) (append-nil before) all, tt)
Ordered-snoc tasks before (y ∷ ys) x h all = (
  h.0,
  Ordered-snoc tasks (before ++ y ∷ []) ys x h.1 (
      subst (λ l. AllTrue (λ y. elem y l) (needs tasks x)) (sym (append_assoc before (y ∷ []) ys))
        all),
)

unplanned_needs : (tasks : Table TaskSpec) (z : ℕ) → planned tasks z ≡ false → needs tasks z ≡ []
unfolding get
unplanned_needs tasks z h = ground arith

nothing_missing : (placed xs : List ℕ) → missing placed xs ≡ 0 → AllTrue (λ y. elem y placed) xs
nothing_missing placed [] h = tt
nothing_missing placed (x ∷ xs) h = elim (Bool-cases (elem x placed)) [
  | inl e ↦ (e, nothing_missing placed xs (rw e at h))
  | inr e ↦ absurd (omega (arith, rw e at h))
]

module _ (tasks : Table TaskSpec) (y : ℕ) (rest : List ℕ) (s : Search)
    (known : planned tasks y ≡ true) (h : Inv tasks (y ∷ rest) s) where
  release-degrees :
      (z : ℕ) → (release y s).indegree z ≡ missing s.result (needs tasks z) + count z rest
  unfolding release
  release-degrees z = elim (Bool-cases (y == z)) [
    | inl e ↦ rw (e, ap s.indegree (==→eq y z e)) (omega (arith, rw e at (h.degrees z)))
    | inr e ↦ rw e (omega (arith, rw e at (h.degrees z)))
  ]

  release-placed_self :
      count y s.result + count y (release y s).ready
      ≡ (if planned tasks y && (release y s).indegree y == 0 then 1 else 0)
  unfolding release
  release-placed_self =
      ground (arith, known, h.placed y, h.degrees y, ==_refl y, count-insert_by y y s.ready)

  release-placed :
      (z : ℕ)
      → count z s.result + count z (release y s).ready
        ≡ (if planned tasks z && (release y s).indegree z == 0 then 1 else 0)
  unfolding release
  release-placed z = elim (Bool-cases (y == z)) [
    | inl e ↦
        subst
          (λ k.
            count k s.result + count k (release y s).ready
            ≡ (if planned tasks k && (release y s).indegree k == 0 then 1 else 0))
          (==→eq y z e) release-placed_self
    | inr e ↦ elim (Bool-cases (s.indegree y - 1 == 0)) [
      | inl d ↦ rw (e, d, count-insert_by z y s.ready, e) (omega (arith, h.placed z))
      | inr d ↦ rw (e, d) (h.placed z)
    ]
  ]

  release-Inv : Inv tasks rest (release y s)
  unfolding release
  release-Inv = record { degrees = release-degrees; placed = release-placed; ordered = h.ordered }

pub release_all-Inv :
    (tasks : Table TaskSpec) (rest : List ℕ) (s : Search)
    → AllTrue (planned tasks) rest
    → Inv tasks rest s
    → Inv tasks [] (release_all rest s)
unfolding release_all
release_all-Inv tasks [] s known h = h
release_all-Inv tasks (y ∷ rest) s known h =
    release_all-Inv tasks rest (release y s) known.1 (release-Inv tasks y rest s known.0 h)

module _ (tasks : Table TaskSpec) (dependents : ℕ → List ℕ)
    (edges : (x z : ℕ) → count z (dependents x) ≡ count x (needs tasks z)) where
  ==_count : (y : ℕ) (ys : List ℕ) → count y (y ∷ ys) ≡ suc (count y ys)
  ==_count y ys = rw (==_refl y) (omega arith)

  dependents-planned :
      (x : ℕ) (ys : List ℕ)
      → ((z : ℕ) → count z ys ≤ count z (dependents x))
      → AllTrue (planned tasks) ys
  dependents-planned x [] h = tt
  dependents-planned x (y ∷ ys) h = (
    elim (Bool-cases (planned tasks y)) [
      | inl e ↦ e
      | inr e ↦
          absurd
            (omega (arith, h y, ==_count y ys, edges x y, ap (count x) (unplanned_needs tasks y e)))
    ],
    dependents-planned x ys (λ z. omega (arith, h z)),
  )

  -- A task that is ready is moved to the result; what it held back is still to be released.
  module _ (x : ℕ) (rest : List ℕ) (s : Search) (front : s.ready ≡ x ∷ rest)
      (h : Inv tasks [] s) where
    placed_new : elem x s.result ≡ false
    placed_new = elim (Bool-cases (elem x s.result)) [
      | inr e ↦ e
      | inl e ↦
          absurd
            (ground (arith, count_of_elem x s.result e, rw front at (h.placed x), ==_count x rest))
    ]

    freed : s.indegree x ≡ 0
    freed = ground (arith, rw front at (h.placed x), ==_count x rest)

    placed_free : AllTrue (λ y. elem y s.result) (needs tasks x)
    placed_free = nothing_missing s.result (needs tasks x) (omega (arith, h.degrees x, freed))

    take_front-Inv :
        Inv tasks
          (sort_by leb (dependents x))
          (record s { ready = rest; result = s.result ++ x ∷ [] })
    take_front-Inv = record {
      degrees = λ z. omega (
        arith,
        h.degrees z,
        missing-snoc s.result x (needs tasks z) placed_new,
        count-sort_by z (dependents x),
        edges x z,
      );
      placed = λ z. omega (arith, count-append z s.result (x ∷ []), rw front at (h.placed z));
      ordered = Ordered-snoc tasks [] s.result x h.ordered placed_free;
    }

  visit_from :
      (ready : List ℕ) (s : Search)
      → s.ready ≡ ready
      → Inv tasks [] s
      → Inv tasks [] (visit dependents ready s)
  unfolding visit
  visit_from [] s e h = h
  visit_from (x ∷ rest) s e h =
      release_all-Inv tasks _ _
        (dependents-planned x (sort_by leb (dependents x))
          (λ z. omega (arith, count-sort_by z (dependents x))))
        (take_front-Inv x rest s e h)

  pub visit-Inv : (s : Search) → Inv tasks [] s → Inv tasks [] (visit dependents s.ready s)
  visit-Inv s h = visit_from s.ready s refl h

  pub search_loop-Inv :
      (rounds : ℕ) (s : Search) → Inv tasks [] s → Inv tasks [] (search_loop dependents rounds s)
  unfolding search_loop
  search_loop-Inv zero s h = h
  search_loop-Inv (suc n) s h = search_loop-Inv n (visit dependents s.ready s) (visit-Inv s h)

pub count-keys :
    (z : ℕ) (tasks : Table TaskSpec)
    → Distinct tasks
    → count z (keys tasks) ≡ (if planned tasks z then 1 else 0)
unfolding get
count-keys z [] h = refl
count-keys z ((k, t) ∷ ts) h = elim (Bool-cases (k == z)) [
  | inl e ↦
      ground
        (arith, e, count-keys z ts h.1, ap (λ j. is_some (get j ts)) (==→eq k z e), ap is_some h.0)
  | inr e ↦ rw e (omega (arith, count-keys z ts h.1))
]

pub start-Inv :
    (tasks : Table TaskSpec)
    → Distinct tasks
    → Inv tasks [] (start tasks (add_tasks tasks tasks no_edges))
start-Inv tasks h =
    let e = add_tasks tasks tasks no_edges in
    record {
      degrees = λ z. omega (arith, indegree-start tasks z h, missing-nil (needs tasks z));
      placed = λ z. ground (
        arith,
        count-sort_by z (where_true (λ k. e.indegree k == 0) (keys tasks)),
        count-where_true (λ k. e.indegree k == 0) z (keys tasks),
        count-keys z tasks h,
      );
      ordered = tt;
    }
