-- ===== src/Persistence/Rows.antt =====
-- persistence/tables.py: the rows that the scheduler reads and writes. The unique column by which a
-- table is looked up (`id`, or `task_id` of a lease and of a graph execution) is the table's key. A
-- UUID and a time are numbers, money is a whole number of the smallest unit, and the columns of
-- free text are left out. The only constraint of the schema that the model enforces is that a task
-- has at most one lease and one graph execution.
use autonomous_swe.Prelude.{ℕ, String, Option, List}
use autonomous_swe.Domain.Enums.{TaskType, TaskStatus, GraphExecutionState, RunStatus}

pub record TaskRow : Type 0 where
  pub run_id : ℕ
  pub project_id : ℕ
  pub repository_id : ℕ
  pub task_type : TaskType
  pub dependencies : List ℕ
  pub priority : ℕ  -- the column's value plus 1000, which is the least that a task may have
  pub estimate_model_tokens : ℕ
  pub estimate_sandbox_slots : ℕ
  pub state : TaskStatus
  pub version : ℕ
  pub state_entered_at : ℕ
  pub created_at : ℕ

pub record RunRow : Type 0 where
  pub project_id : ℕ
  pub repository_id : ℕ
  pub baseline_commit : String
  pub state : RunStatus
  pub state_entered_at : ℕ
  pub cancellation_requested_at : Option ℕ

pub record RepositoryRow : Type 0 where
  pub project_id : ℕ
  pub source_path : String

pub record TaskAttemptRow : Type 0 where
  pub task_id : ℕ
  pub agent_spec_hash : String
  pub status : TaskStatus
  pub started_at : ℕ
  pub ended_at : Option ℕ

pub record ModelCallRow : Type 0 where
  pub run_id : ℕ
  pub cost_usd : ℕ

pub record LeaseRow : Type 0 where
  pub owner : String
  pub token : ℕ
  pub expires_at : ℕ
  pub heartbeat_at : ℕ

pub data Resource : Type 0 where
  task model sandbox : Resource

pub record ReservationRow : Type 0 where
  pub task_id : ℕ
  pub project_id : ℕ
  pub resource : Resource
  pub units : ℕ
  pub created_at : ℕ
  pub released_at : Option ℕ

pub record GraphExecutionRow : Type 0 where
  pub id : ℕ
  pub run_id : ℕ
  pub repository_id : ℕ
  pub baseline_commit : String
  pub thread_id : String
  pub state : GraphExecutionState
  pub state_entered_at : ℕ
  pub checkpoint_id : Option String

-- `state` of a duration: a state of one of the three machines.
pub data StateName : Type 0 where
  of_task : TaskStatus → StateName
  of_graph : GraphExecutionState → StateName
  of_run : RunStatus → StateName

pub record StateDurationRow : Type 0 where
  pub aggregate_id : ℕ
  pub state : StateName
  pub entered_at : ℕ
  pub exited_at : ℕ
  pub duration : ℕ

pub data Action : Type 0 where
  noop resume_checkpoint finalize_domain requeue_missing_checkpoint : Action
  domain_terminal_wins graph_terminal_wins quarantine : Action

pub data Resolution : Type 0 where
  fail retry : Resolution

-- The JSON payloads, with the event type that each goes with.
pub data Payload : Type 0 where
  task_state_changed :
      (task_id project_id : ℕ) (previous target : TaskStatus) (version : ℕ) → Payload
  workflow_state_changed :
      (task_id : ℕ) (thread_id : String) (previous target : GraphExecutionState)
      (checkpoint_id : Option String)
      → Payload
  attempt_rollover :
      (task_id : ℕ) (from_thread_id to_thread_id : String) (previous : GraphExecutionState)
      → Payload
  run_cancelled : (run_id : ℕ) → Payload
  reconciled :
      (action : Action) (task_id : ℕ) (domain_state : TaskStatus)
      (graph_state : Option GraphExecutionState)
      → Payload
  resolved :
      (action : Action) (resolution : Resolution) (task_id : ℕ) (domain_state : TaskStatus)
      (graph_state : GraphExecutionState)
      → Payload
  message : (message_id content : ℕ) → Payload

pub data Topic : Type 0 where
  task_state workflow_state run_state reconciliation agent_messages : Topic

-- `content_hash`, a digest of the other columns, is left out.
pub record AuditEventRow : Type 0 where
  pub id : ℕ
  pub aggregate_id : ℕ
  pub payload : Payload
  pub correlation_id : ℕ
  pub causation_id : ℕ

pub record OutboxRow : Type 0 where
  pub topic : Topic
  pub payload : Payload
  pub attempts : ℕ
  pub next_attempt_at : ℕ
  pub published_at : Option ℕ
  pub dead_lettered_at : Option ℕ
  pub last_error : Option String
  pub publisher : Option String
  pub claim_token : Option ℕ
  pub claimed_until : Option ℕ
  pub created_at : ℕ

-- `consumer` of a dead letter: "outbox:" and the publisher, or the name of a consumer.
pub data DeadLetterConsumer : Type 0 where
  outbox_publisher delivery_consumer : String → DeadLetterConsumer

pub record DeadLetterRow : Type 0 where
  pub event_id : ℕ
  pub consumer : DeadLetterConsumer
  pub topic : Topic
  pub payload : Payload
  pub attempts : ℕ
  pub last_error : String
  pub created_at : ℕ

pub record ConsumerReceiptRow : Type 0 where
  pub consumer : String
  pub event_id : ℕ

pub data DeliveryStatus : Type 0 where
  retrying dead_lettered : DeliveryStatus

pub record ConsumerDeliveryRow : Type 0 where
  pub consumer : String
  pub event_id : ℕ
  pub topic : Topic
  pub attempts : ℕ
  pub status : DeliveryStatus
  pub next_attempt_at : ℕ
  pub last_error : String
  pub updated_at : ℕ
