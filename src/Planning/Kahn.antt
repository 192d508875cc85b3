-- ===== src/Planning/Kahn.antt =====
-- `_topological_order`, planning/validator.py. A dictionary whose keys are fixed is a function of the
-- key. `heapq` on pairs of one UUID and itself is a sorted list. A round of the `while` loop is
-- `visit`, which does nothing when `ready` is empty; the loop gets one round for each task.
pub mod Dependencies
pub mod Invariant
pub mod Pigeonhole
pub mod Loop
pub mod Correct
use autonomous_swe.Prelude.{
  ℕ, zero, suc, ◌+◌, ◌-◌, Bool, List, [], ◌∷◌, ◌++◌, length, map, where_true, ◌==◌, leb,
  if◌then◌else◌, sort_by, insert_by, Table, get, is_some,
}
use autonomous_swe.Planning.Models.{TaskSpec}

abbrev pub update {ℓ} : {A : Type ℓ} → ℕ → A → (ℕ → A) → ℕ → A
update k a f j = if k == j then a else f j

pub record Edges : Type 0 where
  pub indegree : ℕ → ℕ
  pub dependents : ℕ → List ℕ

-- Dependencies outside the plan do not count.
abbrev pub planned : Table TaskSpec → ℕ → Bool
planned tasks_by_id k = is_some (get k tasks_by_id)

unfoldable pub add_edge : Table TaskSpec → ℕ → ℕ → Edges → Edges
add_edge tasks_by_id id dependency e =
    if planned tasks_by_id dependency
    then record {
      indegree = update id (e.indegree id + 1) e.indegree;
      dependents = update dependency (e.dependents dependency ++ id ∷ []) e.dependents;
    }
    else e

unfoldable pub add_task : Table TaskSpec → ℕ → List ℕ → Edges → Edges
unfolding add_edge
add_task tasks_by_id id [] e = e
add_task tasks_by_id id (dependency ∷ rest) e =
    add_task tasks_by_id id rest (add_edge tasks_by_id id dependency e)

unfoldable pub add_tasks : Table TaskSpec → Table TaskSpec → Edges → Edges
unfolding add_task
add_tasks tasks_by_id [] e = e
add_tasks tasks_by_id ((id, task) ∷ rest) e =
    add_tasks tasks_by_id rest (add_task tasks_by_id id task.dependencies e)

abbrev pub no_edges : Edges
no_edges = record { indegree = λ _. 0; dependents = λ _. [] }

pub record Search : Type 0 where
  pub indegree : ℕ → ℕ
  pub ready : List ℕ
  pub result : List ℕ

unfoldable pub release : ℕ → Search → Search
release dependent s =
    let degree = s.indegree dependent - 1 in
    record s {
      indegree = update dependent degree s.indegree;
      ready = if degree == 0 then insert_by leb dependent s.ready else s.ready;
    }

unfoldable pub release_all : List ℕ → Search → Search
unfolding release
release_all [] s = s
release_all (dependent ∷ rest) s = release_all rest (release dependent s)

unfoldable pub visit : (ℕ → List ℕ) → List ℕ → Search → Search
unfolding release_all
visit dependents [] s = s
visit dependents (task_id ∷ rest) s =
    release_all (sort_by leb (dependents task_id))
      (record s { ready = rest; result = s.result ++ task_id ∷ [] })

unfoldable pub search_loop : (ℕ → List ℕ) → ℕ → Search → Search
unfolding visit
search_loop dependents zero s = s
search_loop dependents (suc rounds) s = search_loop dependents rounds (visit dependents s.ready s)

abbrev pub keys : Table TaskSpec → List ℕ
keys [] = []
keys ((k, task) ∷ rest) = k ∷ keys rest

abbrev pub start : Table TaskSpec → Edges → Search
start tasks_by_id e = record {
  indegree = e.indegree;
  ready = sort_by leb (where_true (λ k. e.indegree k == 0) (keys tasks_by_id));
  result = [];
}

unfoldable pub topological_search : Table TaskSpec → Search
unfolding add_tasks search_loop
topological_search tasks_by_id =
    let e = add_tasks tasks_by_id tasks_by_id no_edges in
    search_loop e.dependents (length tasks_by_id) (start tasks_by_id e)

unfoldable pub topological_order : Table TaskSpec → List ℕ
unfolding topological_search
topological_order tasks_by_id = (topological_search tasks_by_id).result
