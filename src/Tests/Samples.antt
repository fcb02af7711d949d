-- ===== src/Tests/Samples.antt =====
-- The inputs that the tests share.
use muti_agent.Prelude.{◌≡◌, refl, none, List, [], ◌∷◌}
use muti_agent.Result.{ok, err, traverse}
use muti_agent.Contract.{TaskContract, is_task_id}
use muti_agent.Text.{is_space, lstrip, rstrip, strip, text_length, all_chars}
use muti_agent.Graph.{TaskId, run_kahn, run_spread}
use muti_agent.Prelude.{sorted, heappop}
use muti_agent.Dag.{
  TaskNode, TaskDag, dependency_cycle, unknown_dependencies, make_dag, make_node, validate_graph,
  topological_order, blocked_task_ids, ready_task_ids, is_ready, validate_runtime_ids, graph_of,
  task_ids, depends_on, dependents, nodes_by_id, validate_dependencies, reject_self_dependency,
  validate_work_package_metadata, normalize_dependency,
}

-- What has to unfold for a query to run.
unfoldable pub queries : Unit {0}
unfolding make_dag make_node validate_graph topological_order blocked_task_ids ready_task_ids
    is_ready validate_runtime_ids graph_of task_ids depends_on dependents nodes_by_id
    validate_dependencies reject_self_dependency validate_work_package_metadata normalize_dependency
    run_kahn run_spread sorted heappop traverse is_task_id is_space lstrip rstrip strip text_length
    all_chars
queries = tt

abbrev pub contract : TaskId → TaskContract
contract task_id = record {
  task_id = task_id;
  objective = "build";
  readable_files = [];
  writable_files = "src/a.py" ∷ [];
  readonly_files = [];
  acceptance_criteria = "builds" ∷ [];
  verification_commands = "make" ∷ [];
  max_retries = 2;
}

abbrev pub task_node : TaskId → List TaskId → TaskNode
task_node task_id depends_on = record {
  task = contract task_id;
  depends_on = depends_on;
  produces = [];
  consumes = [];
  complexity = none;
  budget_allocation = none;
  complexity_assessment = none;
}

abbrev pub diamond_nodes : List TaskNode
diamond_nodes =
    task_node "d" ("b" ∷ "c" ∷ [])
    ∷ task_node "c" ("a" ∷ [])
    ∷ task_node "b" ("a" ∷ [])
    ∷ task_node "a" []
    ∷ []

abbrev pub diamond : TaskDag
diamond = record { tasks = diamond_nodes }

abbrev pub diamond_order : List TaskId
diamond_order = "a" ∷ "b" ∷ "c" ∷ "d" ∷ []

pub make_dag-diamond : make_dag diamond_nodes ≡ ok diamond
unfolding queries
make_dag-diamond = refl

pub topological_order-diamond : topological_order diamond ≡ ok diamond_order
unfolding queries
topological_order-diamond = refl

make_dag-cycle :
    make_dag (task_node "a" ("b" ∷ []) ∷ task_node "b" ("a" ∷ []) ∷ []) ≡ err dependency_cycle
unfolding queries
make_dag-cycle = refl

make_dag-unknown : make_dag (task_node "a" ("z" ∷ []) ∷ []) ≡ err unknown_dependencies
unfolding queries
make_dag-unknown = refl

blocked_task_ids-diamond : blocked_task_ids diamond ("b" ∷ []) ≡ ok ("d" ∷ [])
unfolding queries
blocked_task_ids-diamond = refl

pub ready_task_ids-diamond : ready_task_ids diamond ("a" ∷ []) ("b" ∷ []) ≡ ok ("c" ∷ [])
unfolding queries
ready_task_ids-diamond = refl
