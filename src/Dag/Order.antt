-- ===== src/Dag/Order.antt =====
-- topological_order and the validation of a TaskDAG.
use muti_agent.Prelude.{
  ℕ, String_eq, Nat_eq, ◌≡◌, ◌↔◌, refl, ap, true, List, [], elem, distinct, length, arith,
}
use muti_agent.Result.{ok}
use muti_agent.Graph.{TaskId, IsGraph, run_kahn}
use muti_agent.Graph.Topology.{
  DepsFirst, IsRank, position, DepsFirst-position, run_kahn_all, run_kahn_complete, run_kahn-known,
  run_kahn-distinct, run_kahn-DepsFirst,
}
use muti_agent.Dag.{TaskNode, TaskDag, task_ids, depends_on, graph_of, topological_order, make_dag}
use muti_agent.Dag.Facts.{IsDag, graph_of-IsGraph, make_dag-IsDag, make_dag-order}

-- Both outcomes, by the number of ids that the loop places.
topological_order-outcome :
    (dag : TaskDag) (order : List TaskId)
    → topological_order dag ≡ ok order
    → (order ≡ (run_kahn (graph_of dag)).ordered) × (length order ≡ length (task_ids dag))
unfolding topological_order
topological_order-outcome dag order h = ground arith

-- A topological order: each task once, and behind all that it depends on.
pub record IsTopological (dag : TaskDag) (order : List TaskId) : Type 0 where
  pub once : distinct order ≡ true
  pub all_tasks : (n : TaskId) → (elem n order ≡ true) ↔ (elem n (task_ids dag) ≡ true)
  pub deps_first : DepsFirst (graph_of dag) [] order

pub order-IsTopological :
    (dag : TaskDag) (order : List TaskId)
    → IsDag dag
    → topological_order dag ≡ ok order
    → IsTopological dag order
unfolding graph_of
order-IsTopological dag order v h =
    let g = graph_of dag in
    let laws = graph_of-IsGraph dag v in
    let (e, l) = topological_order-outcome dag order h in
    rw e (record {
      once = run_kahn-distinct g laws;
      all_tasks = λ n. (run_kahn-known g laws n, run_kahn_complete g laws (rw e at l) n);
      deps_first = run_kahn-DepsFirst g laws;
    })

pub graph_of-ids : (dag : TaskDag) → (graph_of dag).ids ≡ task_ids dag
unfolding graph_of
graph_of-ids dag = refl

pub graph_of-deps : (dag : TaskDag) (n : TaskId) → (graph_of dag).deps n ≡ depends_on dag.tasks n
unfolding graph_of
graph_of-deps dag n = refl

-- For every graph that make_dag returns, topological_order returns a list that has each task id
-- of the graph exactly once and each task behind all that it depends on.
pub make_dag-IsTopological :
    (raws : List TaskNode) (dag : TaskDag)
    → make_dag raws ≡ ok dag
    → (order : List TaskId) × (topological_order dag ≡ ok order) × IsTopological dag order
make_dag-IsTopological raws dag h =
    let (order, e) = make_dag-order raws dag h in
    (order, e, order-IsTopological dag order (make_dag-IsDag raws dag h) e)

-- On validated nodes, topological_order returns an order exactly if the dependencies have no
-- cycle: there is a rank that grows along every dependency.
pub topological_order_iff :
    (dag : TaskDag)
    → IsDag dag
    → ((order : List TaskId) × (topological_order dag ≡ ok order))
      ↔ ((rank : TaskId → ℕ) × IsRank (graph_of dag) rank)
unfolding topological_order task_ids graph_of
topological_order_iff dag v = (
  λ (order, e).
      let t = order-IsTopological dag order v e in
      (
        λ x. position x order,
        λ x d m.
            DepsFirst-position (graph_of dag) [] order x d t.deps_first
              ((t.all_tasks x).1 (laws.deps_of_known x d m)) m refl,
      ),
  λ (rank, up). (
    (run_kahn (graph_of dag)).ordered,
    ground (arith, run_kahn_all (graph_of dag) laws rank up, ap length ids),
  ),
)
  where
    laws : IsGraph (graph_of dag)
    laws = graph_of-IsGraph dag v

    ids : (graph_of dag).ids ≡ task_ids dag
    ids = graph_of-ids dag
