-- ===== src/Tests/Graphs.antt =====
-- backend/app/models/dag.py: the theorems at a diamond of four tasks.
use muti_agent.Prelude.{
  ℕ, String_eq, ◌≡◌, ◌↔◌, refl, true, false, List, [], ◌∷◌, elem, distinct, subset,
}
use muti_agent.Result.{ok}
use muti_agent.Graph.{TaskId}
use muti_agent.Graph.Topology.{IsRank}
use muti_agent.Graph.Blocked.{Descendant}
use muti_agent.Dag.{task_ids, graph_of, depends_on, topological_order, blocked_task_ids}
use muti_agent.Dag.Facts.{IsDag, make_dag-IsDag}
use muti_agent.Dag.Order.{IsTopological, make_dag-IsTopological, topological_order_iff}
use muti_agent.Dag.Blocked.{blocked_task_ids_correct, ready_task_ids_iff}
use muti_agent.Tests.Samples.{
  queries, diamond_nodes, diamond, diamond_order, make_dag-diamond, topological_order-diamond,
  ready_task_ids-diamond,
}

diamond-IsDag : IsDag diamond
diamond-IsDag = make_dag-IsDag diamond_nodes diamond make_dag-diamond

make_dag-IsTopological_example :
    (order : List TaskId) × (topological_order diamond ≡ ok order) × IsTopological diamond order
make_dag-IsTopological_example = make_dag-IsTopological diamond_nodes diamond make_dag-diamond

topological_order_iff_example :
    ((order : List TaskId) × (topological_order diamond ≡ ok order))
    ↔ ((rank : TaskId → ℕ) × IsRank (graph_of diamond) rank)
topological_order_iff_example = topological_order_iff diamond diamond-IsDag

subset-b : subset ("b" ∷ []) (task_ids diamond) ≡ true
unfolding queries
subset-b = refl

subset-a : subset ("a" ∷ []) (task_ids diamond) ≡ true
unfolding queries
subset-a = refl

blocked_task_ids_correct_example :
    (blocked : List TaskId) × (blocked_task_ids diamond ("b" ∷ []) ≡ ok blocked)
    × (distinct blocked ≡ true)
    × ((n : TaskId)
        → (elem n blocked ≡ true)
          ↔ ((elem n ("b" ∷ []) ≡ false) × Descendant (graph_of diamond) ("b" ∷ []) n))
blocked_task_ids_correct_example =
    blocked_task_ids_correct diamond diamond-IsDag diamond_order topological_order-diamond
      ("b" ∷ []) refl subset-b

ready_task_ids_iff_example : (elem {A = TaskId} "c" ("c" ∷ []) ≡ true) ↔ (
    (elem "c" (task_ids diamond) ≡ true)
    × (elem {A = TaskId} "c" ("a" ∷ []) ≡ false)
    × (elem {A = TaskId} "c" ("b" ∷ []) ≡ false)
    × (subset (depends_on diamond.tasks "c") ("a" ∷ []) ≡ true))
ready_task_ids_iff_example =
    ready_task_ids_iff diamond diamond-IsDag diamond_order topological_order-diamond ("a" ∷ [])
      ("b" ∷ []) refl subset-a subset-b ("c" ∷ []) ready_task_ids-diamond "c"
