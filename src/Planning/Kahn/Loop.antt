-- ===== src/Planning/Kahn/Loop.antt =====
-- The `while` loop of `_topological_order`, planning/validator.py, ends.
use autonomous_swe.Prelude.{
  ℕ, zero, suc, ◌+◌, ◌≡◌, ◌≤◌, ◌<◌, refl, ap, sym, subst, List, [], ◌∷◌, ◌++◌, length,
  length-append, leb, ◌⊎◌, inl, inr, sort_by, Table, Distinct, arith,
}
use autonomous_swe.Planning.Models.{TaskSpec}
use autonomous_swe.Planning.Counting.{count, count-append}
use autonomous_swe.Planning.Kahn.{
  Search, release, release_all, visit, search_loop, start, keys, add_tasks, no_edges,
  topological_search,
}
use autonomous_swe.Planning.Kahn.Dependencies.{dependents-start}
use autonomous_swe.Planning.Kahn.Invariant.{Inv, search_loop-Inv, start-Inv, count-keys}
use autonomous_swe.Planning.Kahn.Pigeonhole.{length-le_of_count}

release_all-result : (ys : List ℕ) (s : Search) → (release_all ys s).result ≡ s.result
unfolding release_all
release_all-result [] s = refl
release_all-result (y ∷ ys) s = release_all-result ys (release y s)

visit-result :
    (d : ℕ → List ℕ) (x : ℕ) (rest : List ℕ) (s : Search)
    → length (visit d (x ∷ rest) s).result ≡ suc (length s.result)
unfolding visit
visit-result d x rest s =
    rw
      (release_all-result (sort_by leb (d x))
        (record s { ready = rest; result = s.result ++ x ∷ [] }))
      (omega (arith, length-append s.result (x ∷ [])))

visit_idle : (d : ℕ → List ℕ) (s : Search) → s.ready ≡ [] → (visit d s.ready s).ready ≡ []
unfolding visit
visit_idle d s e = subst (λ l. (visit d l s).ready ≡ []) (sym e) e

search_loop_idle :
    (d : ℕ → List ℕ) (n : ℕ) (s : Search) → s.ready ≡ [] → (search_loop d n s).ready ≡ []
unfolding search_loop
search_loop_idle d zero s e = e
search_loop_idle d (suc n) s e = search_loop_idle d n (visit d s.ready s) (visit_idle d s e)

search_loop_progress :
    (d : ℕ → List ℕ) (n : ℕ) (s : Search)
    → ((search_loop d n s).ready ≡ []) ⊎ (length (search_loop d n s).result ≡ length s.result + n)
unfolding search_loop
search_loop_progress d zero s = inr (omega arith)
search_loop_progress d (suc n) s = go s.ready refl (search_loop_progress d n (visit d s.ready s))
  where
    go :
        (ready : List ℕ)
        → s.ready ≡ ready
        → ((search_loop d n (visit d s.ready s)).ready ≡ [])
          ⊎ (length (search_loop d n (visit d s.ready s)).result
              ≡ length (visit d s.ready s).result + n)
        → ((search_loop d n (visit d s.ready s)).ready ≡ [])
          ⊎ (length (search_loop d n (visit d s.ready s)).result ≡ length s.result + suc n)
    go ready e (inl idle) = inl idle
    go [] e (inr more) = inl (search_loop_idle d n (visit d s.ready s) (visit_idle d s e))
    go (x ∷ rest) e (inr more) =
        inr (omega (arith, more, ap (λ l. length (visit d l s).result) e, visit-result d x rest s))

empty_of_length : (l : List ℕ) → length l ≤ 0 → l ≡ []
empty_of_length [] h = refl
empty_of_length (x ∷ xs) h = absurd (omega arith)

pub length-keys : (tasks : Table TaskSpec) → length (keys tasks) ≡ length tasks
length-keys [] = refl
length-keys ((k, t) ∷ ts) = ap suc (length-keys ts)

pub topological_search-Inv :
    (tasks : Table TaskSpec) → Distinct tasks → Inv tasks [] (topological_search tasks)
unfolding topological_search
topological_search-Inv tasks h =
    search_loop-Inv tasks _ (λ x z. dependents-start tasks x z h) (length tasks) _
      (start-Inv tasks h)

module _ (tasks : Table TaskSpec) (distinct : Distinct tasks) (s : Search)
    (h : Inv tasks [] s) where
  pub once : (z : ℕ) → count z s.result + count z s.ready ≤ 1
  once z = ground (arith, h.placed z)

  pub placed_in_plan : (z : ℕ) → 0 < count z s.result + count z s.ready → count z (keys tasks) ≡ 1
  placed_in_plan z p = ground (arith, h.placed z, count-keys z tasks distinct)

  pub fits : length s.result + length s.ready ≤ length tasks
  fits = omega (
    arith,
    length-keys tasks,
    length-append s.result s.ready,
    length-le_of_count (s.result ++ s.ready) (keys tasks)
        (λ z. omega (arith, once z, count-append z s.result s.ready))
        (λ z p. placed_in_plan z (omega (arith, count-append z s.result s.ready))),
  )

-- One round for each task is enough for the loop to run out of ready tasks.
pub topological_search_ends :
    (tasks : Table TaskSpec) → Distinct tasks → (topological_search tasks).ready ≡ []
unfolding topological_search
topological_search_ends tasks h =
    let e = add_tasks tasks tasks no_edges in
    elim (search_loop_progress e.dependents (length tasks) (start tasks e)) [
      | inl idle ↦ idle
      | inr full ↦ empty_of_length (topological_search tasks).ready (
          omega
            (arith, full, fits tasks h (topological_search tasks) (topological_search-Inv tasks h)))
    ]
