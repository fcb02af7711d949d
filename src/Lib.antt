-- ===== src/Lib.antt =====
-- A model of the core of DevFlow's backend: the task contracts that planning produces, the graph
-- of tasks, the scheduler that runs a graph, the leases by which workers own tasks, the loop that a
-- worker runs for one task, the token budgets of model calls, the diagnosis of interrupted runs, and
-- the boundaries on what a task and a conflict repair may change.
--
-- The parts and how they interact. A planner's answer becomes TaskContract values, which become
-- the nodes of a TaskDAG; its constructor rejects duplicate ids, unknown dependencies and cycles.
-- A DAGScheduler drives one graph: it asks the graph for ready and blocked tasks, and the runtime
-- calls start, succeed and fail. A worker that runs a task first acquires its lease in PostgreSQL,
-- renews it while it works, and every later write of the worker is fenced by the token of the lease.
-- The worker's orchestrator develops, verifies, reviews and repairs the task; its changes are checked
-- against the write scope of the contract. Every model call is first reserved in a token budget, that of the
-- launch while it is planned and that of the run later, and settled with its usage; the usage of
-- the planner is handed from the one to the other once. When a run was interrupted, the recovery
-- classifier reads its leases and evidence. A merge conflict goes through the integration policy,
-- which uses the scope check.
--
-- - Contract.antt: backend/app/models/task.py. The validators by their names, make_contract for
--   the constructor. Text.antt has Python's strip, split and tests on strings.
-- - Graph.antt: the loops of topological_order and blocked_task_ids in backend/app/models/dag.py,
--   over records of their variables (Kahn, Search). Prelude/Order.antt has sorted and heappop, which
--   stand for sorted and heapq on distinct ids.
-- - Dag.antt: TaskNode and TaskDAG of backend/app/models/dag.py, with make_node and make_dag for
--   the constructors, and the records of backend/app/models/work_package.py that a node holds.
-- - Scheduler.antt: DAGScheduler of backend/app/runtime/scheduler.py with the records of
--   backend/app/models/scheduler.py, a method for a method; init is the constructor.
-- - Lease.antt: backend/app/models/lease.py, backend/app/persistence/fencing.py, the lease columns
--   of backend/app/persistence/models.py, and what backend/app/persistence/leases.py does to one row.
--   Lease/Events.antt: append_runtime_event of backend/app/persistence/events.py. Lease/Store.antt:
--   the transactions of PostgresTaskLeaseStore.
-- - Run.antt: TaskStateMachine of backend/app/runtime/state_machine.py, FailureClassifier of
--   backend/app/runtime/failure_classifier.py and SingleTaskRunResult of backend/app/models/run.py.
--   Run/Repair.antt and Run/Loop.antt: SingleTaskOrchestrator of backend/app/runtime/orchestrator.py,
--   where Agents holds the task and what the developer, the reviewer, the repair agent, the verifier
--   and Git do. Run/Failures.antt and Run/Handoff.antt: the failures and the handoffs that it builds,
--   with the validators of backend/app/models/failure.py and backend/app/models/repair.py.
-- - Budget.antt: the statuses and the charge that both budgets share. Budget/Planning.antt and
--   Budget/Planning/Links.antt: PostgresPlanningTokenBudgetStore of
--   backend/app/persistence/planning_budget.py. Budget/Runs.antt, with the tables in
--   Budget/Runs/Tables.antt and the shares of stages and packages in Budget/Runs/Shares.antt:
--   PostgresRunTokenBudgetStore of backend/app/persistence/token_budget.py. Budget/Transfer.antt: the
--   transfer from one to the other, _transfer_planner_usage of backend/app/api/autonomous.py.
-- - Recovery.antt, Recovery/Evidence.antt and Recovery/Classify.antt: RecoveryStateClassifier of
--   backend/app/runtime/recovery.py with the models of backend/app/models/recovery.py and
--   backend/app/models/dispatch.py.
-- - Scope.antt: ScopeEnforcer of backend/app/workspace/scope.py. Scope/Policy.antt and its children:
--   IntegrationConflictPolicy of backend/app/runtime/integration_policy.py.
-- - Transaction.antt: the block `session_factory.begin()`, which keeps the writes of a body that
--   returns and drops those of a body that raises.
-- - Prelude.antt and Result.antt: sets as lists without duplicates, equality, Python's exceptions as
--   a result type. Tests: the model on small inputs.
--
-- Representation. A method that changes an object returns the new one, or the exception; a
-- transaction returns the new database, or the exception and no database, since SQLAlchemy rolls
-- back. Dictionaries are functions from their keys. Times are microseconds and UUIDs are numbers.
-- Validators of Pydantic run in the order of the fields and the model keeps the first error.
--
-- Fuel. The loops of the graph run on fuel: each id enters the heap or the queue at most once, so
-- they take as many rounds as the graph has ids. The loops of the
-- orchestrator run on the repair budget and one more: each round but the last makes a repair.
--
-- Parameters. The hash of event attributes and Python's str of a number and isoformat of a time
-- are arguments; a transaction takes the answer of clock_timestamp and the new UUID. So are the hash
-- of conflict facts, str.lower, the search for a path and a symbol in failures, and the product with
-- the safety factor of token estimates. re.fullmatch on translated patterns is the function accepts.
--
-- Not modelled: the HTTP interface, agents and model providers, Git and the file system, containers,
-- the message broker, traces, benchmarks and the user interface, which are input and output; the
-- merge queue and the reconcilers; of the run budget, the initial shares of packages, the
-- observations of costs and the reports, and the code that no call reaches; of the orchestrator, the
-- usage summaries, and the fields of the state for a continuation: whether its validators accept it
-- is an argument. Exceptions of Git, of the providers and of the summaries (a name of a model of more
-- than 500 characters) are left out there; hashes are SHA-256 digests, which fit their patterns. The budget of repairs, the larger of
-- max_retries and minimum_repair_attempts, is an argument. The unique index on run tokens is left
-- out, since uuid4 repeats none.
pub mod Prelude
pub mod Result
pub mod Text
pub mod Transaction
pub mod Budget
pub mod Contract
pub mod Graph
pub mod Lease
pub mod Run
pub mod Scope
pub mod Recovery
pub mod Dag
pub mod Scheduler
pub mod Tests
