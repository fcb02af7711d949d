-- ===== src/Dag.antt =====
-- backend/app/models/dag.py: TaskNode, TaskDAG and its queries.
pub mod Facts
pub mod Order
pub mod Blocked
use muti_agent.Prelude.{
  ℕ, String, String_eq, Nat_eq, ◌==◌, ◌≡◌, Bool, true, false, not, ◌&&◌, ◌||◌, Option, none, some,
  List, [], ◌∷◌, map, foldl, any, elem, distinct, subset, select, set_add, leb, ltb, length,
  if◌then◌else◌,
}
use muti_agent.Result.{Result, ok, err, ◌>>=◌, ◌>>◌, raise_if, traverse}
use muti_agent.Text.{is_empty, strip}
use muti_agent.Contract.{TaskContract, is_task_id}
use muti_agent.Graph.{TaskId, Graph, update, run_kahn, run_spread}

-- backend/app/models/work_package.py
pub data PlanningComplexity : Type 0 where
  low medium high : PlanningComplexity

pub PlanningComplexity-discrete : Discrete PlanningComplexity
PlanningComplexity-discrete = hlevel

pub record TaskBudgetAllocation : Type 0 where
  pub package_id : String
  pub recommended_token_budget : ℕ

pub record PlanningComplexityAssessment : Type 0 where
  pub package_id : String
  pub complexity : PlanningComplexity
  pub score : ℕ
  pub reasons : List String

-- The fields `execution_mode` and `resume_context`, which nothing here reads, are left out.
pub record TaskNode : Type 0 where
  pub task : TaskContract
  pub depends_on : List TaskId
  pub produces : List String
  pub consumes : List String
  pub complexity : Option PlanningComplexity
  pub budget_allocation : Option TaskBudgetAllocation
  pub complexity_assessment : Option PlanningComplexityAssessment

pub record TaskDag : Type 0 where
  pub tasks : List TaskNode

pub data DagError : Type 0 where
  empty_dependency bad_dependency duplicate_dependencies self_dependency : DagError
  too_many_interfaces duplicate_produces duplicate_consumes : DagError
  foreign_allocation foreign_assessment complexity_mismatch : DagError
  empty_dag duplicate_task_ids unknown_dependencies dependency_cycle : DagError
  unknown_failed unknown_completed completed_and_failed completed_downstream : DagError
  unknown_task : DagError

abbrev pub node_id : TaskNode → TaskId
node_id node = node.task.task_id

unfoldable pub normalize_dependency : TaskId → Result DagError TaskId
normalize_dependency value = do
  let dependency = strip value
  raise_if (is_empty dependency) empty_dependency
  raise_if (not (is_task_id dependency)) bad_dependency
  ok dependency

unfoldable pub validate_dependencies : List TaskId → Result DagError (List TaskId)
validate_dependencies values = do
  normalized ← traverse normalize_dependency values
  raise_if (not (distinct normalized)) duplicate_dependencies
  ok normalized

unfoldable pub reject_self_dependency : TaskNode → Result DagError TaskNode
reject_self_dependency node = do
  raise_if (elem (node_id node) node.depends_on) self_dependency
  ok node

same_complexity : PlanningComplexity → PlanningComplexity → Bool
same_complexity low low = true
same_complexity medium medium = true
same_complexity high high = true
same_complexity _ _ = false

foreign_budget : TaskId → Option TaskBudgetAllocation → Bool
foreign_budget task_id none = false
foreign_budget task_id (some a) = not (a.package_id == task_id)

foreign_complexity : TaskId → Option PlanningComplexityAssessment → Bool
foreign_complexity task_id none = false
foreign_complexity task_id (some a) = not (a.package_id == task_id)

complexity_disagrees : Option PlanningComplexity → Option PlanningComplexityAssessment → Bool
unfolding same_complexity
complexity_disagrees (some c) (some a) = not (same_complexity c a.complexity)
complexity_disagrees _ _ = false

unfoldable pub validate_work_package_metadata : TaskNode → Result DagError TaskNode
unfolding foreign_budget foreign_complexity complexity_disagrees
validate_work_package_metadata node = do
  raise_if (not (distinct node.produces)) duplicate_produces
  raise_if (not (distinct node.consumes)) duplicate_consumes
  raise_if (foreign_budget (node_id node) node.budget_allocation) foreign_allocation
  raise_if (foreign_complexity (node_id node) node.complexity_assessment) foreign_assessment
  raise_if (complexity_disagrees node.complexity node.complexity_assessment) complexity_mismatch
  ok node

-- `TaskNode(**fields)`, of a validated contract.
unfoldable pub make_node : TaskNode → Result DagError TaskNode
make_node node = do
  depends_on ← validate_dependencies node.depends_on
  raise_if (ltb 16 (length node.produces)) too_many_interfaces
  raise_if (ltb 16 (length node.consumes)) too_many_interfaces
  checked ← reject_self_dependency (record node { depends_on = depends_on })
  validate_work_package_metadata checked

unfoldable pub task_ids : TaskDag → List TaskId
task_ids dag = map node_id dag.tasks

-- `{node.task.task_id: node for node in self.tasks}`: of equal keys the last one counts.
unfoldable pub nodes_by_id : List TaskNode → TaskId → Option TaskNode
nodes_by_id [] task_id = none
nodes_by_id (node ∷ nodes) task_id = elim (nodes_by_id nodes task_id) [
  | some later ↦ some later
  | none ↦ if node_id node == task_id then some node else none
]

unfoldable pub node : TaskDag → TaskId → Result DagError TaskNode
unfolding nodes_by_id
node dag task_id = elim (nodes_by_id dag.tasks task_id) [
  | some found ↦ ok found
  | none ↦ err unknown_task
]

unfoldable pub depends_on : List TaskNode → TaskId → List TaskId
unfolding nodes_by_id
depends_on nodes task_id = elim (nodes_by_id nodes task_id) [ some n ↦ n.depends_on | none ↦ [] ]

unfoldable pub add_dependent : TaskId → (TaskId → List TaskId) → TaskId → TaskId → List TaskId
add_dependent task_id table dependency =
    update table dependency (set_add task_id (table dependency))

unfoldable pub add_node : (TaskId → List TaskId) → TaskNode → TaskId → List TaskId
unfolding add_dependent
add_node table n = foldl (add_dependent (node_id n)) table n.depends_on

unfoldable pub dependents : List TaskNode → TaskId → List TaskId
unfolding add_node
dependents nodes = foldl add_node (λ _. []) nodes

unfoldable pub graph_of : TaskDag → Graph
graph_of dag = record {
  ids = task_ids dag;
  deps = depends_on dag.tasks;
  dependents = dependents dag.tasks;
}

unfoldable pub topological_order : TaskDag → Result DagError (List TaskId)
topological_order dag =
    let ordered = (run_kahn (graph_of dag)).ordered in
    do raise_if (not (length ordered == length (task_ids dag))) dependency_cycle; ok ordered

unfoldable pub validate_graph : List TaskNode → Result DagError TaskDag
validate_graph tasks =
    let dag : TaskDag = record { tasks = tasks } in
    let known = task_ids dag in
    do
      raise_if (ltb (length tasks) 1) empty_dag
      raise_if (not (distinct known)) duplicate_task_ids
      raise_if (any (λ n. not (subset n.depends_on known)) tasks) unknown_dependencies
      topological_order dag
      ok dag

-- `TaskDAG(tasks=(TaskNode(...), ...))`.
unfoldable pub make_dag : List TaskNode → Result DagError TaskDag
make_dag nodes = do tasks ← traverse make_node nodes; validate_graph tasks

unfoldable pub validate_runtime_ids : TaskDag → List TaskId → DagError → Result DagError (Unit {0})
validate_runtime_ids dag ids unknown = raise_if (not (subset ids (task_ids dag))) unknown

-- Sets of task ids are lists with no id twice.
unfoldable pub blocked_task_ids : TaskDag → List TaskId → Result DagError (List TaskId)
blocked_task_ids dag failed = do
  validate_runtime_ids dag failed unknown_failed
  ordered ← topological_order dag
  let blocked = (run_spread (graph_of dag) failed).blocked
  ok (select (λ task_id. elem task_id blocked) ordered)

module _ (dag : TaskDag) (completed failed : List TaskId) where
  unfoldable pub is_ready : List TaskId → TaskId → Bool
  is_ready blocked task_id =
      not (elem task_id completed || elem task_id failed || elem task_id blocked)
      && subset (depends_on dag.tasks task_id) completed

  unfoldable pub ready_task_ids : Result DagError (List TaskId)
  ready_task_ids = do
    validate_runtime_ids dag completed unknown_completed
    validate_runtime_ids dag failed unknown_failed
    raise_if (any (λ task_id. elem task_id failed) completed) completed_and_failed
    blocked ← blocked_task_ids dag failed
    raise_if (any (λ task_id. elem task_id blocked) completed) completed_downstream
    ordered ← topological_order dag
    ok (select (is_ready blocked) ordered)
