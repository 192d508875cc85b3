-- ===== src/Planning/Depth.antt =====
-- `_maximum_depth`, planning/validator.py. `max(…, default=0)` of natural numbers starts at 0.
use autonomous_swe.Prelude.{ℕ, ◌+◌, max, Option, none, some, List, [], ◌∷◌, Table, get, put}
use autonomous_swe.Planning.Models.{TaskSpec}
use autonomous_swe.Planning.Kahn.Dependencies.{dependencies_of}

abbrev pub or_zero : Option ℕ → ℕ
or_zero none = 0
or_zero (some n) = n

unfoldable pub deepest : Table ℕ → List ℕ → ℕ
deepest depths [] = 0
deepest depths (d ∷ ds) = max (or_zero (get d depths)) (deepest depths ds)

-- The order has tasks of the plan only, so the lookup of `tasks_by_id[task_id]` finds one.
unfoldable pub depths_of : Table TaskSpec → List ℕ → Table ℕ → Table ℕ
unfolding deepest
depths_of tasks_by_id [] depths = depths
depths_of tasks_by_id (k ∷ order) depths =
    depths_of tasks_by_id order
      (put k (1 + deepest depths (dependencies_of (get k tasks_by_id))) depths)

abbrev pub largest : Table ℕ → ℕ
largest [] = 0
largest ((k, n) ∷ rest) = max n (largest rest)

unfoldable pub maximum_depth : Table TaskSpec → List ℕ → ℕ
unfolding depths_of
maximum_depth tasks_by_id order = largest (depths_of tasks_by_id order [])
