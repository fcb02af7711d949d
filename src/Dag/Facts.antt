-- ===== src/Dag/Facts.antt =====
-- The graph of a validated TaskDAG obeys the laws of Graph.
use muti_agent.Prelude.{
  String_eq, Nat_eq, ◌==◌, ◌≡◌, refl, ap, ◌∙◌, Bool, true, false, not, ◌&&◌, ◌||◌, none, some, List,
  [], ◌∷◌, map, foldl, any, all, elem, distinct, subset, all-elim, distinct-snoc, elem-append,
  arith, inl, inr, Option-cases,
}
use text.Mathlib.TextEquality.{eq_iff}
use muti_agent.Result.{ok, Result-cases, >>=-eq-ok, traverse}
use muti_agent.Graph.{TaskId, IsGraph}
use muti_agent.Dag.{
  TaskNode, TaskDag, node_id, validate_dependencies, reject_self_dependency,
  validate_work_package_metadata, make_node, task_ids, nodes_by_id, depends_on, add_dependent,
  add_node, dependents, graph_of, topological_order, validate_graph, make_dag,
}

-- The entry for an id is a node with this id, and passes what all nodes pass.
nodes_by_id-some :
    (test : TaskNode → Bool) (ns : List TaskNode) (x : TaskId) (n : TaskNode)
    → nodes_by_id ns x ≡ some n
    → (node_id n ≡ x) × (elem x (map node_id ns) ≡ true) × (all test ns ≡ true → test n ≡ true)
unfolding nodes_by_id
nodes_by_id-some test [] x n h = absurd (ground arith)
nodes_by_id-some test (m ∷ ns) x n h = elim (Option-cases (nodes_by_id ns x)) [
  | inl e ↦ ground (arith, eq_iff (node_id m) x, eq_iff x (node_id m))
  | inr (later, e) ↦ ground (arith, nodes_by_id-some test ns x later e)
]

nodes_by_id-none :
    (ns : List TaskNode) (x : TaskId) → elem x (map node_id ns) ≡ false → nodes_by_id ns x ≡ none
unfolding nodes_by_id
nodes_by_id-none [] x h = refl
nodes_by_id-none (m ∷ ns) x h =
    ground (arith, nodes_by_id-none ns x, eq_iff (node_id m) x, eq_iff x (node_id m))

elem-add_dependents :
    (ds : List TaskId) (task_id : TaskId) (table : TaskId → List TaskId) (k x : TaskId)
    → elem x (foldl (add_dependent task_id) table ds k)
      ≡ (elem x (table k) || x == task_id && elem k ds)
unfolding add_dependent
elem-add_dependents [] task_id table k x = ground arith
elem-add_dependents (d ∷ ds) task_id table k x = ground (
  arith,
  elem-add_dependents ds task_id (add_dependent task_id table d) k x,
  elem-append x (table d) (task_id ∷ []),
  eq_iff k d,
  eq_iff x task_id,
)

distinct-add_dependents :
    (ds : List TaskId) (task_id : TaskId) (table : TaskId → List TaskId)
    → ((k : TaskId) → distinct (table k) ≡ true)
    → (k : TaskId) → distinct (foldl (add_dependent task_id) table ds k) ≡ true
unfolding add_dependent
distinct-add_dependents [] task_id table h k = h k
distinct-add_dependents (d ∷ ds) task_id table h k =
    distinct-add_dependents ds task_id (add_dependent task_id table d)
      (λ j. ground (arith, h j, h d, distinct-snoc (table d) task_id)) k

abbrev has_edge : TaskId → TaskId → TaskNode → Bool
has_edge k x n = x == node_id n && elem k n.depends_on

elem-add_nodes :
    (ns : List TaskNode) (table : TaskId → List TaskId) (k x : TaskId)
    → elem x (foldl add_node table ns k) ≡ (elem x (table k) || any (has_edge k x) ns)
unfolding add_node
elem-add_nodes [] table k x = ground arith
elem-add_nodes (n ∷ ns) table k x = ground (
  arith,
  elem-add_nodes ns (add_node table n) k x,
  elem-add_dependents n.depends_on (node_id n) table k x,
)

distinct-add_nodes :
    (ns : List TaskNode) (table : TaskId → List TaskId)
    → ((k : TaskId) → distinct (table k) ≡ true)
    → (k : TaskId) → distinct (foldl add_node table ns k) ≡ true
unfolding add_node
distinct-add_nodes [] table h k = h k
distinct-add_nodes (n ∷ ns) table h k =
    distinct-add_nodes ns (add_node table n)
      (distinct-add_dependents n.depends_on (node_id n) table h) k

any-has_edge-absent :
    (ns : List TaskNode) (k x : TaskId)
    → elem x (map node_id ns) ≡ false
    → any (has_edge k x) ns ≡ false
any-has_edge-absent [] k x h = refl
any-has_edge-absent (n ∷ ns) k x h = ground (arith, any-has_edge-absent ns k x)

any-has_edge :
    (ns : List TaskNode) (k x : TaskId)
    → distinct (map node_id ns) ≡ true
    → any (has_edge k x) ns ≡ elem k (depends_on ns x)
unfolding depends_on nodes_by_id
any-has_edge [] k x h = refl
any-has_edge (n ∷ ns) k x h = ground (
  arith,
  any-has_edge ns k x,
  any-has_edge-absent ns k x,
  nodes_by_id-none ns x,
  eq_iff (node_id n) x,
  eq_iff x (node_id n),
)

-- What validation has established, in the form in which the queries use it.
pub record IsDag (dag : TaskDag) : Type 0 where
  pub ids_distinct : distinct (task_ids dag) ≡ true
  pub deps_distinct : all (λ n. distinct n.depends_on) dag.tasks ≡ true
  pub deps_known : all (λ n. subset n.depends_on (task_ids dag)) dag.tasks ≡ true

module _ (dag : TaskDag) (v : IsDag dag) where
  deps-distinct : (x : TaskId) → distinct (depends_on dag.tasks x) ≡ true
  unfolding depends_on
  deps-distinct x = elim (Option-cases (nodes_by_id dag.tasks x)) [
    | inl e ↦ rw (e, depends_on) refl
    | inr (n, e) ↦
        rw (e, depends_on)
          ((nodes_by_id-some (λ m. distinct m.depends_on) dag.tasks x n e).2 v.deps_distinct)
  ]

  deps-known :
      (x d : TaskId)
      → elem d (depends_on dag.tasks x) ≡ true
      → (elem d (task_ids dag) ≡ true) × (elem x (task_ids dag) ≡ true)
  unfolding depends_on task_ids
  deps-known x d m = elim (Option-cases (nodes_by_id dag.tasks x)) [
    | inl e ↦ absurd (ground arith)
    | inr (n, e) ↦
        let (_, known, all_known) =
          nodes_by_id-some (λ k. subset k.depends_on (task_ids dag)) dag.tasks x n e in
        (
          all-elim (λ k. elem k (task_ids dag)) n.depends_on d (all_known v.deps_known)
              (ground arith),
          known,
        )
  ]

  pub graph_of-IsGraph : IsGraph (graph_of dag)
  unfolding graph_of task_ids dependents
  graph_of-IsGraph = record {
    ids_distinct = v.ids_distinct;
    deps_distinct = deps-distinct;
    deps_known = λ x d m. (deps-known x d m).0;
    deps_of_known = λ x d m. (deps-known x d m).1;
    dependents_distinct = distinct-add_nodes dag.tasks (λ _. []) (λ _. refl);
    dependents_deps =
        λ d x. elem-add_nodes dag.tasks (λ _. []) d x ∙ any-has_edge dag.tasks d x v.ids_distinct;
  }

make_node-distinct : (raw n : TaskNode) → make_node raw ≡ ok n → distinct n.depends_on ≡ true
unfolding make_node validate_dependencies reject_self_dependency validate_work_package_metadata
make_node-distinct raw n h = ground arith

traverse-make_node :
    (raws ns : List TaskNode)
    → traverse make_node raws ≡ ok ns
    → all (λ n. distinct n.depends_on) ns ≡ true
unfolding traverse
traverse-make_node [] [] h = refl
traverse-make_node [] (n ∷ ns) h = ground arith
traverse-make_node (raw ∷ raws) [] h = ground arith
traverse-make_node (raw ∷ raws) (n ∷ ns) h =
    ground (arith, make_node-distinct raw n, traverse-make_node raws ns)

all-not-any :
    (test : TaskNode → Bool) (ns : List TaskNode)
    → any (λ n. not (test n)) ns ≡ false
    → all test ns ≡ true
all-not-any test [] h = refl
all-not-any test (n ∷ ns) h = ground (arith, all-not-any test ns)

validate_graph-tasks :
    (ns : List TaskNode) (dag : TaskDag)
    → validate_graph ns ≡ ok dag
    → (dag ≡ record { tasks = ns })
      × (distinct (task_ids dag) ≡ true)
      × (any (λ n. not (subset n.depends_on (task_ids dag))) dag.tasks ≡ false)
unfolding validate_graph
validate_graph-tasks ns dag h = ground arith

validate_graph-order :
    (ns : List TaskNode) (dag : TaskDag)
    → validate_graph ns ≡ ok dag
    → (order : List TaskId) × (topological_order dag ≡ ok order)
unfolding validate_graph
validate_graph-order ns dag h = elim (Result-cases (topological_order dag)) [
  | inl found ↦ found
  | inr (e, bad) ↦ absurd (ground (arith, validate_graph-tasks ns dag h))
]

make_dag-tasks :
    (raws : List TaskNode) (dag : TaskDag)
    → make_dag raws ≡ ok dag
    → (traverse make_node raws ≡ ok dag.tasks) × (validate_graph dag.tasks ≡ ok dag)
unfolding make_dag
make_dag-tasks raws dag h =
    let (ns, made, valid) = >>=-eq-ok (traverse make_node raws) validate_graph h in
    let e : ns ≡ dag.tasks = ground (arith, validate_graph-tasks ns dag) in
    (made ∙ ap ok e, rw e at valid)

pub make_dag-order :
    (raws : List TaskNode) (dag : TaskDag)
    → make_dag raws ≡ ok dag
    → (order : List TaskId) × (topological_order dag ≡ ok order)
make_dag-order raws dag h = validate_graph-order dag.tasks dag (make_dag-tasks raws dag h).1

-- A TaskDAG that was constructed obeys the laws.
pub make_dag-IsDag : (raws : List TaskNode) (dag : TaskDag) → make_dag raws ≡ ok dag → IsDag dag
make_dag-IsDag raws dag h =
    let (made, valid) = make_dag-tasks raws dag h in
    let (_, ids, known) = validate_graph-tasks dag.tasks dag valid in
    record {
      ids_distinct = ids;
      deps_distinct = traverse-make_node raws dag.tasks made;
      deps_known = all-not-any (λ n. subset n.depends_on (task_ids dag)) dag.tasks known;
    }
