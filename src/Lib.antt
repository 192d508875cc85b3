-- ===== src/Lib.antt =====
-- autonomous-swe: the control plane of the platform, which decides what the agents' workers may
-- do.
--
-- A task moves through a table of states (domain/enums.py, domain/events.py). The scheduler
-- (execution/scheduler/service.py) promotes, claims, starts, finishes, reclaims and cancels tasks;
-- the reconciler (execution/scheduler/reconciliation.py) settles a task against the execution of
-- its graph. Both write through the repository (persistence/repositories.py) to the tables
-- (persistence/tables.py), each operation in one transaction (persistence/database.py), and a
-- change of state leaves an audit event and an outbox event, which the publisher
-- (messaging/outbox.py) hands to the transport; a consumer (messaging/consumer.py) applies what it
-- gets from there. Before that, the planner's validator (planning/validator.py) decides which plans,
-- and which later mutations of a plan, become tasks; the workflow graphs carry a run and its tasks
-- from node to node as a state (workflows/state.py).
--
-- The files:
--   Prelude         the library names, Boolean tests, lists, and tables by their unique column
--   Domain          the enumerations, the transition tables and their guards
--   Persistence     Rows: the tables; Session: a session as a state and exception monad, with
--                   `transaction`, which restores the tables when an exception leaves it;
--                   Repository: transition_task, transition_graph_execution, create_lease, ...;
--                   Post and Total: rules for what an action establishes if it returns, and that it
--                   returns; Transition and Refusals: what transition_task does; Graphs;
--                   Evolution: rules for actions that move tasks along the table of states only
--   Planning        Models: tasks, plans and mutations; Kahn: _topological_order, with its
--                   invariant, its loop and what it establishes; Counting; Depth; Sink:
--                   _has_final_validation_sink; Risk: the order of risks and the static grants
--                   (policies/risk/policy_engine.py, domain/task_policy.py); ToolRisk:
--                   ToolRiskPolicy, of the same file, with the level it gives and the paths
--                   it protects; Paths; Validator:
--                   validate and validate_mutation, with the plans that they accept
--   Scheduler       Policy: ceilings, admission and retries; Reservations; Claiming: claim_ready;
--                   Execution: heartbeat, start_claim, finish_claim; Upkeep: promotion, the
--                   cancellation cascade, reclaiming, cancellation; Invariant and Soundness: what all
--                   of these keep; Outcomes: what single operations do
--   Reconciliation  Decision: _decide; Service: reconcile, reconcile_due,
--                   resolve_needs_reconciliation; Legality, Outcome, Convergence, Scan,
--                   Resolution, Soundness
--   Control         Steps: the transactions of both services as a step relation; Reachable: what is
--                   reachable; Evolution and Refinement: the steps against the state machine of a task
--   Messaging       Outbox: OutboxPublisher; Rows, Backoff, Fencing; Consumer: DeliveryConsumer;
--                   Delivery, Failures, Exhaustion
--   Workflows       Models, State, Reducers and Admission: workflows/state.py; Texts: the limits of
--                   its models
--   Examples        concrete worlds, and the theorems applied to them
--
-- A function has the name of the method it models without the leading underscore; a method that is
-- long is several functions, one for each of its blocks. A world (Persistence.Session) is the
-- tables, the readings of the clock and the random UUIDs still to come, the latencies that were
-- observed, and the stream entries that were acknowledged.
--
-- The model and its bounds: UUIDs, times and money are natural numbers (of the smallest unit; a
-- priority has 1000 added, since the least one is -1000). A table is an association list from its
-- unique column. Of the schema's constraints only the single lease and the single graph execution
-- of a task are enforced; text columns, the hash of an audit event and the reason of a refusal are
-- left out. `FOR UPDATE SKIP LOCKED` is a parameter that says which rows are skipped. A
-- transaction is one step: the row locks and the advisory locks of the code serialise the
-- transactions that touch the same rows. The rounds of promote_dependency_ready (32) and of
-- cancel_blocked_dependents (16) are an argument of the model; the other loops run over a list.
-- The transport of the publisher is an argument, which may fail on every event; so are the handler
-- of a delivery, which may raise, and the generator of the jitter.
-- The `while` loop of _topological_order has one round for each task, and that of the search for
-- ancestors one for each identifier that it can append; both are shown to be enough. A dictionary
-- with fixed keys is a function; `heapq` is a sorted list; an issue is its code and its task, without
-- the message. The text of a UUID and its parser are a parameter; so are `casefold`, and what
-- pydantic strips from a text. A product of a timedelta that is too long raises in the publisher, whose
-- unit of time is the microsecond; in delay_for of the consumer times have no greatest value, as they
-- have none in sums, so the model leaves out the OverflowError of a policy with some fifty attempts.
-- The least length of a plan, one task, is left out where the validator builds the proposed plan: a
-- mutation adds tasks to those of a plan that has some.
--
-- Not modelled: the observed usage and the metrics of the scheduler (floating-point averages), the
-- message bus and the sweep of stalled deliveries, the planner's calls of a language model, approvals,
-- the workflow graphs themselves, which a library drives, the agents and the tools, the sandboxes and
-- repositories, and the applications, which call the services above.
pub mod Prelude
pub mod Domain
pub mod Persistence
pub mod Planning
pub mod Scheduler
pub mod Reconciliation
pub mod Control
pub mod Messaging
pub mod Workflows
pub mod Examples
