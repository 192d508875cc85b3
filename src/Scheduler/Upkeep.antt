-- ===== src/Scheduler/Upkeep.antt =====
-- execution/scheduler/service.py: promotion, the cancellation cascade, expired leases, and the
-- cancellation of tasks and of runs. `notify` of a cancellation is outside the model.
use autonomous_swe.Prelude.{
  ℕ, suc, zero, ◌+◌, Bool, false, not, ◌&&◌, ◌||◌, Option, none, some, List, [], ◌∷◌, Table, get,
  put, is_some, any, length, take, where_true, sort_by, ltb, leb, ◌==◌, if◌then◌else◌,
}
use autonomous_swe.Domain.Enums.{TaskStatus, RunStatus, run_terminal}
use autonomous_swe.Domain.Equality.{task_is}
use autonomous_swe.Domain.Transitions.{terminal_task, require_run_transition}
use autonomous_swe.Persistence.Rows.{TaskRow, LeaseRow, RunRow, of_run, run_cancelled, Topic}
use autonomous_swe.Persistence.Session.{
  test◌then◌else◌, World, Exec, pure, gets, or_raise, modify, guard, when, transaction, for_each,
  utc_now, lookup_error, invalid_state_transition, ◌>>=◌, ◌>>◌,
}
use autonomous_swe.Persistence.Repository.{
  in_project, transition_task, record_state_duration, publish,
}
use autonomous_swe.Scheduler.Policy.{dependencies_satisfied}
use autonomous_swe.Scheduler.Service.{clean_up, state_of, created_before, select_tasks}

unfoldable pub move_to : TaskStatus → ℕ × TaskRow → Exec Unit
move_to target (task_id, row) = do
  after ← transition_task row.project_id task_id row.version target
  pure tt

-- PENDING, with every dependency resolved to a COMPLETED task.
abbrev pub eligible : World → TaskRow → Bool
eligible w row =
    task_is row.state TaskStatus.pending && dependencies_satisfied row.dependencies (state_of w)

unfoldable pub promote_round : ℕ → (ℕ → Bool) → Exec ℕ
promote_round limit locked = do
  candidates ← gets (λ w. select_tasks (eligible w) created_before limit locked w.tasks)
  moved ← for_each candidates (move_to TaskStatus.ready)
  pure (length candidates)

-- One transaction for each round, until a round finds less than a full batch.
unfoldable pub promote_dependency_ready : ℕ → ℕ → (ℕ → ℕ → Bool) → Exec ℕ
promote_dependency_ready limit zero locked = pure 0
promote_dependency_ready limit (suc rounds) locked =
    let rest = promote_dependency_ready limit rounds locked in
    do
      promoted ← transaction (promote_round limit (locked rounds))
      test ltb promoted limit || promoted == 0
          then pure promoted
          else do more ← rest; pure (promoted + more)

abbrev failed_or_cancelled : Option TaskStatus → Bool
failed_or_cancelled none = false
failed_or_cancelled (some s) = task_is s TaskStatus.failed || task_is s TaskStatus.cancelled

abbrev pub is_pending : TaskRow → Bool
is_pending row = task_is row.state TaskStatus.pending

abbrev pub is_blocked : World → ℕ × TaskRow → Bool
is_blocked w (i, row) = any (λ d. failed_or_cancelled (state_of w d)) row.dependencies

unfoldable pub cancel_blocked_round : ℕ → (ℕ → Bool) → Exec ℕ
cancel_blocked_round limit locked = do
  blocked ←
      gets
        λ w. where_true (is_blocked w) (select_tasks is_pending created_before limit locked w.tasks)
  moved ← for_each blocked (move_to TaskStatus.cancelled)
  pure (length blocked)

-- `range(16)` is the caller's `rounds`.
unfoldable pub cancel_blocked_dependents : ℕ → ℕ → (ℕ → ℕ → Bool) → Exec ℕ
cancel_blocked_dependents limit zero locked = pure 0
cancel_blocked_dependents limit (suc rounds) locked =
    let rest = cancel_blocked_dependents limit rounds locked in
    do
      blocked ← transaction (cancel_blocked_round limit (locked rounds))
      test blocked == 0 then pure 0 else do more ← rest; pure (blocked + more)

-- `ORDER BY expires_at, task_id`
abbrev expires_before : ℕ × LeaseRow → ℕ × LeaseRow → Bool
expires_before (i, a) (j, b) =
    ltb a.expires_at b.expires_at || (a.expires_at == b.expires_at && leb i j)

abbrev pub expired_leases : ℕ → ℕ → Table LeaseRow → Table LeaseRow
expired_leases now limit leases =
    take limit (sort_by expires_before (where_true (λ (i, l). leb l.expires_at now) leases))

abbrev expired_lease : ℕ → Option LeaseRow → Bool
expired_lease now none = false
expired_lease now (some l) = leb l.expires_at now

unfoldable pub reclaim_row : ℕ → ℕ → TaskRow → Exec ℕ
reclaim_row now task_id task = test task_is task.state TaskStatus.running then pure 0 else do
  when (task_is task.state TaskStatus.leased) (move_to TaskStatus.ready (task_id, task))
  clean_up task_id now
  pure 1

unfoldable pub reclaim_found : ℕ → ℕ → Option TaskRow → Bool → Exec ℕ
unfolding reclaim_row
reclaim_found now task_id none stale = pure 0
reclaim_found now task_id (some task) stale =
    test stale then reclaim_row now task_id task else pure 0

-- The body of the loop: 1 for a lease that is given up, and 0 for `continue`.
unfoldable pub reclaim_one : ℕ → ℕ × LeaseRow → Exec ℕ
reclaim_one now (task_id, seen) = do
  task ← gets (λ w. get task_id w.tasks)
  stale ← gets (λ w. expired_lease now (get task_id w.leases))
  reclaim_found now task_id task stale

abbrev total : List ℕ → ℕ
total [] = 0
total (n ∷ ns) = n + total ns

unfoldable pub reclaim_expired : ℕ → ℕ → Exec ℕ
reclaim_expired now limit = transaction (do
  candidates ← gets (λ w. expired_leases now limit w.leases)
  counts ← for_each candidates (reclaim_one now)
  pure (total counts))

unfoldable pub cancel_body : ℕ → ℕ → ℕ → Exec Unit
cancel_body project_id task_id now = do
  found ← gets (λ w. in_project project_id (get task_id w.tasks))
  task ← or_raise found lookup_error
  when (not (task_is task.state TaskStatus.cancelled))
      (do after ← transition_task project_id task_id task.version TaskStatus.cancelled; pure tt)
  clean_up task_id now

unfoldable pub cancel_task : ℕ → ℕ → Exec Unit
cancel_task project_id task_id = do now ← utc_now; transaction (cancel_body project_id task_id now)

abbrev unfinished_in : ℕ → ℕ × TaskRow → Bool
unfinished_in run_id (i, row) = row.run_id == run_id && not (terminal_task row.state)

unfoldable pub cancel_run_row : ℕ → ℕ → Option RunRow → Exec ℕ
cancel_run_row run_id now none = pure 0
cancel_run_row run_id now (some run) = test run_terminal run.state then pure 0 else do
  guard (require_run_transition run.state RunStatus.cancelled) invalid_state_transition
  record_state_duration run_id (of_run run.state) run.state_entered_at now
  modify λ t. record t {
    runs = put run_id (record run { state = RunStatus.cancelled; state_entered_at = now }) t.runs;
  }
  publish Topic.run_state run_id run_id (run_cancelled run_id)
  pure 1

-- The second transaction of a run, which is 1 if the run was resolved.
unfoldable pub cancel_run : ℕ → ℕ → Exec ℕ
cancel_run run_id now = do found ← gets (λ w. get run_id w.runs); cancel_run_row run_id now found

unfoldable pub cancel_run_tasks : ℕ × RunRow → Exec ℕ
cancel_run_tasks (run_id, run) = do
  tasks ← gets (λ w. where_true (unfinished_in run_id) w.tasks)
  done ← for_each tasks (λ (task_id, row). cancel_task row.project_id task_id)
  now ← utc_now
  transaction (cancel_run run_id now)

abbrev requested : ℕ × RunRow → Bool
requested (i, run) = is_some run.cancellation_requested_at && not (run_terminal run.state)

abbrev request_time : Option ℕ → ℕ
request_time none = 0
request_time (some t) = t

-- `ORDER BY cancellation_requested_at`
abbrev requested_before : ℕ × RunRow → ℕ × RunRow → Bool
requested_before (i, a) (j, b) =
    leb (request_time a.cancellation_requested_at) (request_time b.cancellation_requested_at)

unfoldable pub cancel_requested_runs : ℕ → Exec ℕ
cancel_requested_runs limit = do
  runs ← gets (λ w. take limit (sort_by requested_before (where_true requested w.runs)))
  counts ← for_each runs cancel_run_tasks
  pure (total counts)
