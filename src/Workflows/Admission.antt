-- ===== src/Workflows/Admission.antt =====
-- `SchedulerDispatchBatch`, workflows/state.py.
use autonomous_swe.Prelude.{elem, unique, ℕ, Bool, true, ◌&&◌, List, [], ◌∷◌, map, all, length, leb}
use autonomous_swe.Domain.Enums.{TaskType}

pub record AdmittedTask : Type 0 where
  pub task_id : ℕ
  pub task_type : TaskType
  pub dependencies : List ℕ

pub record SchedulerDispatchBatch : Type 0 where
  pub run_id : ℕ
  pub project_id : ℕ
  pub repository_id : ℕ
  pub admitted_tasks : List AdmittedTask
  pub completed_task_ids : List ℕ
  pub scheduler_parallel_limit : ℕ

abbrev admitted_ids : List AdmittedTask → List ℕ
admitted_ids tasks = map (λ (task : AdmittedTask). task.task_id) tasks

-- `missing` is empty for each task.
abbrev dependencies_done : List ℕ → List AdmittedTask → Bool
dependencies_done completed [] = true
dependencies_done completed (task ∷ rest) =
    all (λ dependency. elem dependency completed) task.dependencies
    && dependencies_done completed rest

-- A validator that raises is `false`.
unfoldable pub scheduler_admission_is_self_consistent : SchedulerDispatchBatch → Bool
scheduler_admission_is_self_consistent b =
    unique (admitted_ids b.admitted_tasks)
    && leb (length (admitted_ids b.admitted_tasks)) b.scheduler_parallel_limit
    && dependencies_done b.completed_task_ids b.admitted_tasks
