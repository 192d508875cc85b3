-- ===== src/Persistence/Repository.antt =====
-- persistence/repositories.py: the operations of `DomainRepository` that the scheduler and the
-- reconciler call.
use autonomous_swe.Prelude.{
  ℕ, ◌+◌, ◌-◌, String, Bool, not, ◌&&◌, ◌||◌, Option, none, some, [], ◌∷◌, ◌++◌, get, put, is_some,
  ◌==◌, str_eq, if◌then◌else◌,
}
use autonomous_swe.Domain.Enums.{TaskStatus, GraphExecutionState}
use autonomous_swe.Domain.Equality.{graph_is}
use autonomous_swe.Domain.Transitions.{require_task_transition, require_graph_transition}
use autonomous_swe.Persistence.Rows.{
  TaskRow, GraphExecutionRow, StateName, of_task, of_graph, Payload, task_state_changed,
  workflow_state_changed, attempt_rollover, Topic,
}
use autonomous_swe.Persistence.Session.{
  test◌then◌else◌, Exec, pure, gets, or_raise, modify, guard, utc_now, uuid4, lookup_error,
  stale_state, invalid_state_transition, value_error, integrity_error, ◌>>=◌, ◌>>◌,
}

-- `max(0.0, exited_at - entered_at)` is the truncated difference.
unfoldable pub record_state_duration : ℕ → StateName → ℕ → ℕ → Exec Unit
record_state_duration aggregate_id state entered_at exited_at = modify λ t. record t {
  durations =
      t.durations
      ++ record {
        aggregate_id = aggregate_id;
        state = state;
        entered_at = entered_at;
        exited_at = exited_at;
        duration = exited_at - entered_at;
      }
        ∷ [];
}

unfoldable pub append_audit : ℕ → ℕ → Payload → ℕ → Exec Unit
append_audit event_id aggregate_id payload correlation_id = modify λ t. record t {
  audit =
      t.audit
      ++ record {
        id = event_id;
        aggregate_id = aggregate_id;
        payload = payload;
        correlation_id = correlation_id;
        causation_id = event_id;
      }
        ∷ [];
}

unfoldable pub enqueue_event : ℕ → Topic → Payload → Exec Unit
enqueue_event event_id topic payload = do
  now ← utc_now
  modify λ t. record t {
    outbox =
        t.outbox
        ++ (
          event_id,
          record {
            topic = topic;
            payload = payload;
            attempts = 0;
            next_attempt_at = now;
            published_at = none;
            dead_lettered_at = none;
            last_error = none;
            publisher = none;
            claim_token = none;
            claimed_until = none;
            created_at = now;
          },
        )
          ∷ [];
  }

-- `select(TaskRow).where(TaskRow.id == task_id, TaskRow.project_id == project_id)`
abbrev pub in_project : ℕ → Option TaskRow → Option TaskRow
in_project project_id none = none
in_project project_id (some row) = if row.project_id == project_id then some row else none

-- The two rows that every state change leaves behind, under one identifier.
unfoldable pub publish : Topic → ℕ → ℕ → Payload → Exec Unit
unfolding append_audit enqueue_event
publish topic aggregate_id correlation_id payload = do
  event_id ← uuid4
  append_audit event_id aggregate_id payload correlation_id
  enqueue_event event_id topic payload

unfoldable pub transition_task : ℕ → ℕ → ℕ → TaskStatus → Exec TaskRow
unfolding require_task_transition record_state_duration publish
transition_task project_id task_id expected_version target = do
  found ← gets (λ w. in_project project_id (get task_id w.tasks))
  row ← or_raise found lookup_error
  guard (row.version == expected_version) stale_state
  guard (require_task_transition row.state target) invalid_state_transition
  now ← utc_now
  record_state_duration task_id (of_task row.state) row.state_entered_at now
  let after = record row { state = target; version = row.version + 1; state_entered_at = now }
  modify (λ t. record t { tasks = put task_id after t.tasks })
  publish Topic.task_state task_id row.run_id
      (task_state_changed task_id project_id row.state target after.version)
  pure after

unfoldable pub create_attempt : ℕ → ℕ → String → Exec Unit
create_attempt attempt_id task_id agent_spec_hash = do
  now ← utc_now
  modify λ t. record t {
    attempts =
        put attempt_id
          (record {
            task_id = task_id;
            agent_spec_hash = agent_spec_hash;
            status = TaskStatus.running;
            started_at = now;
            ended_at = none;
          })
          t.attempts;
  }

-- The table takes one lease for a task: a second one is an `IntegrityError`.
unfoldable pub create_lease : ℕ → String → ℕ → ℕ → Exec Unit
create_lease task_id owner token expires_at = do
  present ← gets (λ w. is_some (get task_id w.leases))
  guard (not present) integrity_error
  now ← utc_now
  modify λ t. record t {
    leases =
        put task_id
          (record { owner = owner; token = token; expires_at = expires_at; heartbeat_at = now })
          t.leases;
  }

-- `a or b` on optional texts: the empty text counts as missing.
abbrev or_else : Option String → Option String → Option String
or_else none b = b
or_else (some a) b = if str_eq a "" then b else some a

-- What a caller passes to `transition_graph_execution`.
pub record GraphIdentity : Type 0 where
  pub task_id : ℕ
  pub run_id : ℕ
  pub repository_id : ℕ
  pub baseline_commit : String
  pub thread_id : String

unfoldable pub write_graph : ℕ → GraphExecutionRow → Exec Unit
write_graph task_id row = modify (λ t. record t { graphs = put task_id row t.graphs })

unfoldable pub record_graph_execution :
    GraphIdentity → GraphExecutionState → Option String → Exec GraphExecutionRow
unfolding write_graph
record_graph_execution i state checkpoint_id = do
  id ← uuid4
  now ← utc_now
  let row : GraphExecutionRow = record {
    id = id;
    run_id = i.run_id;
    repository_id = i.repository_id;
    baseline_commit = i.baseline_commit;
    thread_id = i.thread_id;
    state = state;
    state_entered_at = now;
    checkpoint_id = checkpoint_id;
  }
  write_graph i.task_id row
  pure row

-- The event at the end of every path that changed the state.
unfoldable pub announce :
    GraphIdentity
    → GraphExecutionState
    → GraphExecutionState
    → GraphExecutionRow
    → Exec GraphExecutionRow
unfolding publish
announce i previous target row = do
  publish Topic.workflow_state row.id i.run_id
      (workflow_state_changed i.task_id i.thread_id previous target row.checkpoint_id)
  pure row

-- `row` has the new thread and its time of entry already, if the attempt rolled over.
unfoldable pub settle :
    GraphIdentity
    → GraphExecutionState
    → Option String
    → ℕ
    → GraphExecutionRow
    → Exec GraphExecutionRow
unfolding announce record_state_duration write_graph
settle i target checkpoint_id now row = do
  record_state_duration row.id (of_graph row.state) row.state_entered_at now
  let after = record row {
    state = target;
    state_entered_at = now;
    checkpoint_id = or_else checkpoint_id row.checkpoint_id;
  }
  write_graph i.task_id after
  announce i row.state target after

abbrev pub same_identity : GraphIdentity → GraphExecutionRow → Bool
same_identity i row =
    row.run_id == i.run_id
    && row.repository_id == i.repository_id
    && str_eq row.baseline_commit i.baseline_commit

abbrev starts : GraphExecutionState → Bool
starts target =
    graph_is target GraphExecutionState.running || graph_is target GraphExecutionState.cancelled

-- Another thread is a new attempt: the one way out of a terminal state.
unfoldable pub roll_over :
    GraphIdentity
    → GraphExecutionState
    → Option String
    → ℕ
    → GraphExecutionRow
    → Exec GraphExecutionRow
unfolding settle publish
roll_over i target checkpoint_id now row = do
  guard (graph_is target GraphExecutionState.running) value_error
  publish Topic.workflow_state row.id i.run_id
      (attempt_rollover i.task_id row.thread_id i.thread_id row.state)
  settle i target checkpoint_id now (record row { thread_id = i.thread_id; state_entered_at = now })

unfoldable pub keep_state :
    GraphIdentity → Option String → GraphExecutionRow → Exec GraphExecutionRow
unfolding write_graph
keep_state i checkpoint_id row = do
  let kept = record row { checkpoint_id = or_else checkpoint_id row.checkpoint_id }
  write_graph i.task_id kept
  pure kept

unfoldable pub advance :
    GraphIdentity
    → GraphExecutionState
    → Option String
    → ℕ
    → GraphExecutionRow
    → Exec GraphExecutionRow
unfolding settle require_graph_transition
advance i target checkpoint_id now row = do
  guard (require_graph_transition row.state target) invalid_state_transition
  settle i target checkpoint_id now row

unfoldable pub move_graph :
    GraphIdentity
    → GraphExecutionState
    → Option String
    → ℕ
    → Option GraphExecutionRow
    → Exec GraphExecutionRow
unfolding record_graph_execution announce roll_over keep_state advance
move_graph i target checkpoint_id now none = do
  guard (starts target) value_error
  row ← record_graph_execution i target checkpoint_id
  announce i GraphExecutionState.not_started target row
move_graph i target checkpoint_id now (some row) = do
  guard (same_identity i row) value_error
  test not (str_eq row.thread_id i.thread_id)
      then roll_over i target checkpoint_id now row
      else test graph_is row.state target
      then keep_state i checkpoint_id row
      else advance i target checkpoint_id now row

unfoldable pub transition_graph_execution :
    GraphIdentity → GraphExecutionState → Option String → Exec GraphExecutionRow
unfolding move_graph
transition_graph_execution i target checkpoint_id = do
  now ← utc_now
  found ← gets (λ w. get i.task_id w.graphs)
  move_graph i target checkpoint_id now found
