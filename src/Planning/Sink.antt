-- ===== src/Planning/Sink.antt =====
-- `_has_final_validation_sink`, planning/validator.py. `pending` is the list of the source with its
-- end first; `none` is the `KeyError` of a dependency that is not in the plan. The `while` loop gets
-- one round for each identifier that it can ever append.
pub mod Walks
pub mod Covers
pub mod Returns
use autonomous_swe.Prelude.{
  elem, ℕ, zero, suc, ◌+◌, Bool, true, false, not, ◌&&◌, Option, none, some, List, [], ◌∷◌, ◌++◌,
  length, map, any, all, where_true, ◌==◌, if◌then◌else◌, Table, get, is_some,
}
use mathlib.Core.List.{reverse}
use autonomous_swe.Domain.Enums.{TaskType}
use autonomous_swe.Planning.Models.{TaskSpec}
use autonomous_swe.Planning.Kahn.{planned, keys}

pub record Walk : Type 0 where
  pub found : List ℕ
  pub pending : List ℕ

abbrev pub extend : Walk → Option TaskSpec → Option Walk
extend s none = none
extend s (some task) = some (record s { pending = reverse task.dependencies ++ s.pending })

unfoldable pub walk_step : Table TaskSpec → Walk → List ℕ → Option Walk
walk_step tasks_by_id s [] = some s
walk_step tasks_by_id s (dependency ∷ rest) =
    if elem dependency s.found
    then some (record s { pending = rest })
    else extend (record { found = dependency ∷ s.found; pending = rest })
        (get dependency tasks_by_id)

unfoldable pub walk : Table TaskSpec → ℕ → Option Walk → Option Walk
unfolding walk_step
walk tasks_by_id rounds none = none
walk tasks_by_id zero (some s) = some s
walk tasks_by_id (suc rounds) (some s) = walk tasks_by_id rounds (walk_step tasks_by_id s s.pending)

-- The dependencies of all tasks that are not in a list.
abbrev pub named_beside : List ℕ → Table TaskSpec → ℕ
named_beside found [] = 0
named_beside found ((k, task) ∷ rest) =
    (if elem k found then 0 else length task.dependencies) + named_beside found rest

abbrev pub begin : TaskSpec → Walk
begin task = record { found = []; pending = reverse task.dependencies }

unfoldable pub ancestors : Table TaskSpec → TaskSpec → Option Walk
unfolding walk
ancestors tasks_by_id task =
    walk tasks_by_id (length (reverse task.dependencies) + named_beside [] tasks_by_id)
      (some (begin task))

abbrev pub depended_on : ℕ → Table TaskSpec → Bool
depended_on k [] = false
depended_on k ((j, task) ∷ rest) = if elem k task.dependencies then true else depended_on k rest

abbrev pub is_validation : TaskType → Bool
is_validation TaskType.validation = true
is_validation _ = false

-- `ancestors(task.id) | {task.id} == complete`
abbrev pub covers : Table TaskSpec → ℕ → Option Walk → Option Bool
covers tasks_by_id k none = none
covers tasks_by_id k (some s) =
    some (
      all (λ j. elem j (k ∷ s.found)) (keys tasks_by_id) && all (planned tasks_by_id) (k ∷ s.found))

unfoldable pub is_final_sink : Table TaskSpec → ℕ → TaskSpec → Option Bool
unfolding ancestors
is_final_sink tasks_by_id k task =
    if depended_on k tasks_by_id
    then some false
    else if is_validation task.task_type
    then covers tasks_by_id k (ancestors tasks_by_id task)
    else some false

abbrev pub count_one : Option Bool → Option ℕ → Option ℕ
count_one none n = none
count_one (some b) none = none
count_one (some b) (some n) = some ((if b then 1 else 0) + n)

unfoldable pub final_sinks : Table TaskSpec → Table TaskSpec → Option ℕ
unfolding is_final_sink
final_sinks tasks_by_id [] = some 0
final_sinks tasks_by_id ((k, task) ∷ rest) =
    count_one (is_final_sink tasks_by_id k task) (final_sinks tasks_by_id rest)

abbrev pub is_one : Option ℕ → Option Bool
is_one none = none
is_one (some n) = some (n == 1)

unfoldable pub has_final_validation_sink : Table TaskSpec → Option Bool
unfolding final_sinks
has_final_validation_sink tasks_by_id = is_one (final_sinks tasks_by_id tasks_by_id)
