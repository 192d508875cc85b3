-- ===== src/Examples/Worlds.antt =====
-- Worlds with one task, for the examples.
use autonomous_swe.Prelude.{ℕ, ◌+◌, Bool, false, none, List, [], ◌∷◌}
use autonomous_swe.Domain.Enums.{TaskType, TaskStatus, GraphExecutionState, RunStatus}
use autonomous_swe.Persistence.Rows.{
  TaskRow, RunRow, RepositoryRow, LeaseRow, GraphExecutionRow, TaskAttemptRow, OutboxRow, Topic,
  message,
}
use autonomous_swe.Persistence.Session.{Tables, World}
use autonomous_swe.Scheduler.Policy.{ConcurrencyPolicy}
use autonomous_swe.Scheduler.Service.{SchedulerService}
use autonomous_swe.Scheduler.Execution.{Claim}
use autonomous_swe.Messaging.Consumer.{DeliveryConsumer, RedisStreamRecord}
use autonomous_swe.Messaging.Outbox.{OutboxPublisher, ClaimedEvent}

abbrev pub policy : ConcurrencyPolicy
policy = record {
  max_parallel_tasks = 2;
  max_parallel_tasks_per_project = 2;
  max_model_concurrency = 1;
  max_sandbox_concurrency = 1;
  max_task_attempts = 3;
  max_run_cost_usd = 1000;
}

abbrev pub service : SchedulerService
service = record { policy = policy; lease_ttl = 60 }

abbrev pub task_in : TaskStatus → TaskRow
task_in state = record {
  run_id = 3;
  project_id = 1;
  repository_id = 2;
  task_type = TaskType.implementation;
  dependencies = [];
  priority = 1000;
  estimate_model_tokens = 100;
  estimate_sandbox_slots = 1;
  state = state;
  version = 5;
  state_entered_at = 10;
  created_at = 1;
}

abbrev pub run_row : RunRow
run_row = record {
  project_id = 1;
  repository_id = 2;
  baseline_commit = "c0";
  state = RunStatus.executing;
  state_entered_at = 4;
  cancellation_requested_at = none;
}

abbrev pub repository_row : RepositoryRow
repository_row = record { project_id = 1; source_path = "/repo" }

abbrev pub graph_in : GraphExecutionState → GraphExecutionRow
graph_in state = record {
  id = 30;
  run_id = 3;
  repository_id = 2;
  baseline_commit = "c0";
  thread_id = "t1";
  state = state;
  state_entered_at = 12;
  checkpoint_id = none;
}

abbrev pub lease_row : LeaseRow
lease_row = record { owner = "w1"; token = 77; expires_at = 120; heartbeat_at = 60 }

abbrev pub attempt_row : TaskAttemptRow
attempt_row = record {
  task_id = 7;
  agent_spec_hash = "h";
  status = TaskStatus.running;
  started_at = 60;
  ended_at = none;
}

abbrev pub message_row : OutboxRow
message_row = record {
  topic = Topic.agent_messages;
  payload = message 40 41;
  attempts = 0;
  next_attempt_at = 5;
  published_at = none;
  dead_lettered_at = none;
  last_error = none;
  publisher = none;
  claim_token = none;
  claimed_until = none;
  created_at = 5;
}

abbrev pub world_of : Tables → World
world_of t = record {
  tables = t;
  ticks = λ n. 100 + n;
  ticked = 0;
  draws = λ n. 500 + n;
  drawn = 0;
  dispatch_latencies = [];
  acknowledged = [];
}

abbrev pub tables_with : TaskStatus → List (ℕ × LeaseRow) → List (ℕ × GraphExecutionRow) → Tables
tables_with state leases graphs = record {
  tasks = (7, task_in state) ∷ [];
  runs = (3, run_row) ∷ [];
  repositories = (2, repository_row) ∷ [];
  attempts = (9, attempt_row) ∷ [];
  model_calls = [];
  leases = leases;
  reservations = [];
  graphs = graphs;
  durations = [];
  audit = [];
  outbox = (40, message_row) ∷ [];
  dead_letters = [];
  receipts = [];
  deliveries = [];
}

-- READY, and nothing held.
abbrev pub ready_world : World
ready_world = world_of (tables_with TaskStatus.ready [] [])

-- RUNNING under a lease, with a graph execution.
abbrev pub running_world : GraphExecutionState → World
running_world graph =
    world_of (tables_with TaskStatus.running ((7, lease_row) ∷ []) ((7, graph_in graph) ∷ []))

-- COMPLETED in the domain, with a graph execution that was cancelled after a failure.
abbrev pub divergent_world : World
divergent_world =
    world_of (tables_with TaskStatus.completed [] ((7, graph_in GraphExecutionState.failed) ∷ []))

abbrev pub spent_world : World
spent_world = record (world_of (tables_with TaskStatus.ready [] [])) {
  tables = record (tables_with TaskStatus.ready [] []) {
    model_calls = record { run_id = 3; cost_usd = 1200 } ∷ [];
  };
}

abbrev pub dispatch : Claim
dispatch = record {
  task_id = 7;
  project_id = 1;
  owner = "w1";
  token = 77;
  attempt_id = 9;
  agent_spec_hash = "h";
}

abbrev pub unlocked : ℕ → Bool
unlocked i = false

abbrev pub publisher : OutboxPublisher
publisher = record {
  publisher_id = "p1";
  claim_ttl = 30;
  retry_base = 1;
  retry_max = 300;
  max_attempts = 8;
}

abbrev pub old_event : ClaimedEvent
old_event = record {
  event_id = 40;
  topic = Topic.agent_messages;
  payload = message 40 41;
  attempt = 1;
  claim_token = 450;
}

-- What `reconcile` leaves of the divergent world.
abbrev pub parked_world : World
parked_world = world_of (
    tables_with TaskStatus.completed []
      ((7, graph_in GraphExecutionState.needs_reconciliation) ∷ []))

abbrev pub consumer : DeliveryConsumer
consumer = record {
  group = "g";
  consumer = "g-1";
  retry_policy = record { max_attempts = 2; base_delay = 1; max_delay = 300; jitter = false };
}

abbrev pub delivery : RedisStreamRecord
delivery = record {
  stream_id = 90;
  event_id = 40;
  topic = Topic.agent_messages;
  payload = message 40 41;
}

-- The group has its receipt of the delivery.
abbrev pub receipt_world : World
receipt_world = record ready_world {
  tables = record (tables_with TaskStatus.ready [] []) {
    receipts = record { consumer = "g"; event_id = 40 } ∷ [];
  };
}
