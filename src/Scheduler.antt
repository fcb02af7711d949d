-- ===== src/Scheduler.antt =====
-- backend/app/runtime/scheduler.py and backend/app/models/scheduler.py: the in-memory scheduler of
-- one validated TaskDAG. The dictionary of states is a function, read at task ids of the graph
-- only. A method returns the new object or the exception.
pub mod State
pub mod Consistent
pub mod Refresh
pub mod Moves
pub mod Failing
pub mod Methods
pub mod Progress
pub mod Runs
pub mod Log
pub use State.{
  TaskScheduleState, pending, ready, running, succeeded, failed, blocked, State_eq, same_state_iff,
  allowed, is_terminal_state,
}
use Prim.Native.String.{◌++◌ as str_append}
use muti_agent.Prelude.{
  ℕ, String, String_eq, Nat_eq, ◌==◌, Bool, true, false, not, ◌||◌, List, [], ◌∷◌, ◌++◌, map, any,
  all, elem, select, sorted, set_add, length, if◌then◌else◌,
}
use muti_agent.Result.{Result, ok, err, ◌>>=◌, ◌>>◌, raise_if}
use muti_agent.Graph.{TaskId, update}
use muti_agent.Dag.{
  TaskDag, DagError, task_ids, topological_order, blocked_task_ids, ready_task_ids,
}

pub record SchedulerEvent : Type 0 where
  pub sequence : ℕ
  pub task_id : TaskId
  pub from_state : TaskScheduleState
  pub to_state : TaskScheduleState
  pub detail : String

pub record DagScheduler : Type 0 where
  pub dag : TaskDag
  pub states : TaskId → TaskScheduleState
  pub events : List SchedulerEvent

pub data SchedulerError : Type 0 where
  unknown_task : TaskId → SchedulerError
  wrong_state : TaskId → TaskScheduleState → TaskScheduleState → SchedulerError
  invalid_transition : TaskId → TaskScheduleState → TaskScheduleState → SchedulerError
  invariant_violation : List TaskId → SchedulerError
  graph_error : DagError → SchedulerError

-- A query of the graph, made by a method of the scheduler.
unfoldable pub query : {A : Type 0} → Result DagError A → Result SchedulerError A
query (ok a) = ok a
query (err e) = err (graph_error e)

unfoldable pub require_task : DagScheduler → TaskId → Result SchedulerError TaskScheduleState
require_task s task_id =
    if elem task_id (task_ids s.dag) then ok (s.states task_id) else err (unknown_task task_id)

unfoldable pub require_state :
    DagScheduler → TaskId → TaskScheduleState → Result SchedulerError (Unit {0})
require_state s task_id expected = do
  current ← require_task s task_id
  raise_if (not (current == expected)) (wrong_state task_id expected current)

unfoldable pub task_ids_with_state : DagScheduler → TaskScheduleState → List TaskId
task_ids_with_state s state = select (λ task_id. s.states task_id == state) (task_ids s.dag)

abbrev pub event : DagScheduler → TaskId → TaskScheduleState → String → SchedulerEvent
event s task_id next_state detail = record {
  sequence = length s.events;
  task_id = task_id;
  from_state = s.states task_id;
  to_state = next_state;
  detail = detail;
}

unfoldable pub transition :
    DagScheduler → TaskId → TaskScheduleState → String → Result SchedulerError DagScheduler
transition s task_id next_state detail = do
  current ← require_task s task_id
  raise_if (not (allowed current next_state)) (invalid_transition task_id current next_state)
  ok (record s {
    states = update s.states task_id next_state;
    events = s.events ++ event s task_id next_state detail ∷ [];
  })

-- The loop of _refresh_ready over the ready ids.
unfoldable pub promote_all :
    String → DagScheduler → List TaskId → Result SchedulerError DagScheduler
promote_all detail s [] = ok s
promote_all detail s (task_id ∷ rest) = do
  next ← if s.states task_id == pending then transition s task_id ready detail else ok s
  promote_all detail next rest

unfoldable pub refresh_ready : DagScheduler → String → Result SchedulerError DagScheduler
refresh_ready s detail = do
  found ←
      query (ready_task_ids s.dag (task_ids_with_state s succeeded) (task_ids_with_state s failed))
  promote_all detail s found

-- `DAGScheduler(dag)`.
unfoldable pub init : TaskDag → Result SchedulerError DagScheduler
init dag =
    refresh_ready (record { dag = dag; states = λ _. pending; events = [] })
      "All dependencies are satisfied at scheduler initialization."

unfoldable pub start : DagScheduler → TaskId → Result SchedulerError DagScheduler
start s task_id = do
  require_state s task_id ready
  transition s task_id running "Task execution started."

unfoldable pub succeed : DagScheduler → TaskId → Result SchedulerError DagScheduler
succeed s task_id = do
  require_state s task_id running
  next ← transition s task_id succeeded "Task execution completed successfully."
  refresh_ready next (str_append "Dependencies satisfied after " (str_append task_id " succeeded."))

unfoldable pub is_blockable : TaskScheduleState → Bool
is_blockable state = state == pending || state == blocked

unfoldable pub assert_blockable : DagScheduler → List TaskId → Result SchedulerError (Unit {0})
unfolding is_blockable
assert_blockable s ids =
    let invalid = select (λ task_id. not (is_blockable (s.states task_id))) (sorted ids) in
    raise_if (any (λ _. true) invalid) (invariant_violation invalid)

-- The loop of `fail` over the topological order.
unfoldable pub block_all :
    List TaskId → DagScheduler → List TaskId → Result SchedulerError DagScheduler
block_all blocked_ids s [] = ok s
block_all blocked_ids s (task_id ∷ rest) = do
  next ←
      if not (elem task_id blocked_ids) || s.states task_id == blocked
      then ok s
      else transition s task_id blocked "Blocked by a failed upstream dependency."
  block_all blocked_ids next rest

unfoldable pub fail : DagScheduler → TaskId → Result SchedulerError DagScheduler
fail s task_id = do
  require_state s task_id running
  let failed_after = set_add task_id (task_ids_with_state s failed)
  blocked_after ← query (blocked_task_ids s.dag failed_after)
  assert_blockable s blocked_after
  next ← transition s task_id failed "Task execution failed."
  order ← query (topological_order s.dag)
  block_all blocked_after next order

unfoldable pub is_terminal : DagScheduler → Bool
is_terminal s = all (λ task_id. is_terminal_state (s.states task_id)) (task_ids s.dag)

unfoldable pub task_ids_in_state :
    DagScheduler → TaskScheduleState → Result SchedulerError (List TaskId)
task_ids_in_state s state = do
  order ← query (topological_order s.dag)
  ok (select (λ task_id. s.states task_id == state) order)

pub record TaskScheduleRecord : Type 0 where
  pub task_id : TaskId
  pub state : TaskScheduleState

pub record SchedulerSnapshot : Type 0 where
  pub tasks : List TaskScheduleRecord
  pub events : List SchedulerEvent

unfoldable pub snapshot : DagScheduler → Result SchedulerError SchedulerSnapshot
snapshot s = do
  order ← query (topological_order s.dag)
  ok (record {
    tasks = map (λ task_id. record { task_id = task_id; state = s.states task_id }) order;
    events = s.events;
  })
