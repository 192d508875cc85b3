-- ===== src/Scheduler/Execution.antt =====
-- execution/scheduler/service.py: `heartbeat`, `start_claim` and `finish_claim`.
use autonomous_swe.Prelude.{
  ℕ, ◌+◌, String, Bool, true, false, not, ◌&&◌, ◌||◌, Option, none, some, List, [], ◌∷◌, Table, get,
  put, leb, ◌==◌, str_eq, if◌then◌else◌,
}
use autonomous_swe.Domain.Enums.{TaskType, TaskStatus, GraphExecutionState}
use autonomous_swe.Domain.Equality.{task_is, graph_is}
use autonomous_swe.Domain.Transitions.{terminal_task}
use autonomous_swe.Persistence.Rows.{
  TaskRow, TaskAttemptRow, ModelCallRow, LeaseRow, RunRow, RepositoryRow, GraphExecutionRow,
}
use autonomous_swe.Persistence.Session.{
  test◌then◌else◌, World, Result, raise, Exec, pure, throw, gets, or_raise, modify, guard,
  transaction, utc_now, lookup_error, permission_error, runtime_error, value_error,
  budget_exhausted, ◌>>=◌, ◌>>◌,
}
use autonomous_swe.Persistence.Repository.{in_project, transition_task, create_attempt}
use autonomous_swe.Scheduler.Service.{SchedulerService, clean_up, owned_by, state_of}

abbrev pub is_terminal : Option TaskStatus → Bool
is_terminal none = false
is_terminal (some s) = terminal_task s

abbrev pub renewed : ℕ → ℕ → LeaseRow → LeaseRow
renewed now ttl l = record l { heartbeat_at = now; expires_at = now + ttl }

-- `UPDATE leases … WHERE task_id, owner, token`: the number of rows is 0 or 1.
unfoldable pub renew : SchedulerService → ℕ → String → ℕ → ℕ → Option LeaseRow → Exec Bool
renew s task_id owner token now none = pure false
renew s task_id owner token now (some l) =
    test owned_by owner token (some l)
    then (do
      modify (λ t. record t { leases = put task_id (renewed now s.lease_ttl l) t.leases })
      pure true)
    else pure false

unfoldable pub heartbeat : SchedulerService → ℕ → String → ℕ → ℕ → Exec Bool
unfolding renew
heartbeat s task_id owner token now = transaction (do
  state ← gets (λ w. state_of w task_id)
  lease ← gets (λ w. get task_id w.leases)
  test is_terminal state then pure false else renew s task_id owner token now lease)

-- The dispatch message that a worker presents.
pub record Claim : Type 0 where
  pub task_id : ℕ
  pub project_id : ℕ
  pub owner : String
  pub token : ℕ
  pub attempt_id : ℕ
  pub agent_spec_hash : String

pub record TaskExecutionLease : Type 0 where
  pub task_id : ℕ
  pub run_id : ℕ
  pub project_id : ℕ
  pub repository_id : ℕ
  pub attempt_id : ℕ
  pub baseline_commit : String
  pub source_path : String
  pub task_type : TaskType
  pub dependencies : List ℕ
  pub already_terminal : Bool

abbrev execution_lease : ℕ → TaskRow → RunRow → RepositoryRow → ℕ → Bool → TaskExecutionLease
execution_lease task_id task run repository attempt_id already_terminal = record {
  task_id = task_id;
  run_id = task.run_id;
  project_id = task.project_id;
  repository_id = task.repository_id;
  attempt_id = attempt_id;
  baseline_commit = run.baseline_commit;
  source_path = repository.source_path;
  task_type = task.task_type;
  dependencies = task.dependencies;
  already_terminal = already_terminal;
}

-- `SELECT count(*) … WHERE task_id`
unfoldable pub count_attempts : ℕ → Table TaskAttemptRow → ℕ
count_attempts task_id [] = 0
count_attempts task_id ((i, a) ∷ rest) =
    (if a.task_id == task_id then 1 else 0) + count_attempts task_id rest

-- `SELECT sum(cost_usd) … WHERE run_id`
unfoldable pub run_cost : ℕ → List ModelCallRow → ℕ
run_cost run_id [] = 0
run_cost run_id (c ∷ rest) = (if c.run_id == run_id then c.cost_usd else 0) + run_cost run_id rest

-- `_exhaustion_reason(…) is not None`
unfoldable pub exhausted : SchedulerService → ℕ → ℕ → World → Bool
exhausted s task_id run_id w =
    leb s.policy.max_task_attempts (count_attempts task_id w.attempts)
    || leb s.policy.max_run_cost_usd (run_cost run_id w.model_calls)

abbrev pub live_lease : String → ℕ → ℕ → Option LeaseRow → Bool
live_lease owner token now none = false
live_lease owner token now (some l) = owned_by owner token (some l) && not (leb l.expires_at now)

-- A task that is LEASED enters RUNNING, one that is RUNNING stays, and any other is refused.
unfoldable pub enter_running : ℕ → ℕ → TaskRow → Exec Unit
enter_running project_id task_id task =
    test task_is task.state TaskStatus.leased
    then (do after ← transition_task project_id task_id task.version TaskStatus.running; pure tt)
    else guard (task_is task.state TaskStatus.running) permission_error

abbrev pub same_attempt : ℕ → String → TaskAttemptRow → Bool
same_attempt task_id agent_spec_hash a =
    a.task_id == task_id && str_eq a.agent_spec_hash agent_spec_hash

unfoldable pub record_attempt : Claim → Option TaskAttemptRow → Exec Unit
record_attempt c none = create_attempt c.attempt_id c.task_id c.agent_spec_hash
record_attempt c (some a) = guard (same_attempt c.task_id c.agent_spec_hash a) permission_error

abbrev pub attempt_of : ℕ → Option TaskAttemptRow → Bool
attempt_of task_id none = false
attempt_of task_id (some a) = a.task_id == task_id

unfoldable pub admit_running : SchedulerService → Claim → ℕ → TaskRow → Exec Unit
admit_running s c now task = do
  spent ← gets (exhausted s c.task_id task.run_id)
  guard (not spent) budget_exhausted
  lease ← gets (λ w. get c.task_id w.leases)
  guard (live_lease c.owner c.token now lease) permission_error
  enter_running c.project_id c.task_id task
  attempt ← gets (λ w. get c.attempt_id w.attempts)
  record_attempt c attempt

unfoldable pub admit_completed : Claim → TaskRow → RunRow → RepositoryRow → Exec TaskExecutionLease
admit_completed c task run repository = do
  attempt ← gets (λ w. get c.attempt_id w.attempts)
  guard (attempt_of c.task_id attempt) lookup_error
  pure (execution_lease c.task_id task run repository c.attempt_id true)

unfoldable pub admit_claim : SchedulerService → Claim → ℕ → Exec TaskExecutionLease
admit_claim s c now = do
  found ← gets (λ w. in_project c.project_id (get c.task_id w.tasks))
  task ← or_raise found lookup_error
  run_found ← gets (λ w. get task.run_id w.runs)
  run ← or_raise run_found runtime_error
  repository_found ← gets (λ w. get task.repository_id w.repositories)
  repository ← or_raise repository_found runtime_error
  test task_is task.state TaskStatus.completed then admit_completed c task run repository else do
    admit_running s c now task
    pure (execution_lease c.task_id task run repository c.attempt_id false)

unfoldable pub refuse_row : Claim → ℕ → Option TaskRow → Exec Unit
refuse_row c now none = pure tt
refuse_row c now (some task) = test terminal_task task.state then pure tt else do
  clean_up c.task_id now
  after ← transition_task c.project_id c.task_id task.version TaskStatus.failed
  pure tt

unfoldable pub refuse_exhausted_task : Claim → ℕ → Exec Unit
refuse_exhausted_task c now = do
  found ← gets (λ w. in_project c.project_id (get c.task_id w.tasks))
  refuse_row c now found

-- `except TaskBudgetExhausted`: the refusal is made durable, and the exception raised again.
unfoldable pub after_admission : Claim → ℕ → Result TaskExecutionLease → Exec TaskExecutionLease
after_admission c now (raise budget_exhausted) = do
  transaction (refuse_exhausted_task c now)
  throw budget_exhausted
after_admission c now r = λ w. (r, w)

unfoldable pub start_claim : SchedulerService → Claim → ℕ → Exec TaskExecutionLease
start_claim s c now w =
    let (r, v) = transaction (admit_claim s c now) w in after_admission c now r v

-- The graph state that a terminal task state asks for.
abbrev pub required_graph_state : TaskStatus → GraphExecutionState
required_graph_state TaskStatus.completed = GraphExecutionState.completed
required_graph_state TaskStatus.failed = GraphExecutionState.failed
required_graph_state _ = GraphExecutionState.cancelled

abbrev pub graph_at : GraphExecutionState → Option GraphExecutionRow → Bool
graph_at state none = false
graph_at state (some g) = graph_is g.state state

-- Not more than one lease term past its expiry.
abbrev pub within_grace : SchedulerService → ℕ → LeaseRow → Bool
within_grace s now l = not (leb (l.expires_at + s.lease_ttl) now)

-- The task is in the wanted state already: what is left of the lease goes, if it is the caller's.
unfoldable pub replay_finish : Claim → ℕ → Option LeaseRow → Exec Unit
replay_finish c now none = pure tt
replay_finish c now (some l) = do
  guard (owned_by c.owner c.token (some l)) permission_error
  clean_up c.task_id now

unfoldable pub close_attempt : Claim → ℕ → TaskStatus → Exec Unit
close_attempt c now target = do
  found ← gets (λ w. get c.attempt_id w.attempts)
  attempt ← or_raise found permission_error
  guard (attempt.task_id == c.task_id) permission_error
  modify λ t. record t {
    attempts =
        put c.attempt_id (record attempt { status = target; ended_at = some now }) t.attempts;
  }

unfoldable pub finish_owned :
    SchedulerService → Claim → TaskStatus → ℕ → TaskRow → Option LeaseRow → Exec Unit
finish_owned s c target now task lease = do
  guard (owned_by c.owner c.token lease) permission_error
  held ← or_raise lease permission_error
  guard (within_grace s now held) permission_error
  graph ← gets (λ w. get c.task_id w.graphs)
  guard (graph_at (required_graph_state target) graph) runtime_error
  after ← transition_task c.project_id c.task_id task.version target
  close_attempt c now target
  clean_up c.task_id now

unfoldable pub finish_body : SchedulerService → Claim → TaskStatus → ℕ → Exec Unit
finish_body s c target now = do
  found ← gets (λ w. in_project c.project_id (get c.task_id w.tasks))
  task ← or_raise found lookup_error
  lease ← gets (λ w. get c.task_id w.leases)
  test task_is task.state target
      then replay_finish c now lease
      else finish_owned s c target now task lease

unfoldable pub finish_claim : SchedulerService → Claim → TaskStatus → Exec Unit
finish_claim s c target = do
  guard (terminal_task target) value_error
  now ← utc_now
  transaction (finish_body s c target now)
