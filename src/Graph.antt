-- ===== src/Graph.antt =====
-- backend/app/models/dag.py: the graph queries of TaskDAG, over the task ids, the dependencies of
-- each id and the dictionary of dependents. A dictionary is a function from its keys; every key
-- that these queries read is a task id of the graph.
pub mod Relax
pub mod Topology
pub mod Blocked
use muti_agent.Prelude.{
  ℕ, zero, suc, ◌-◌, String, String_eq, Nat_eq, ◌≡◌, Bool, true, false, List, [], ◌∷◌, ◌++◌, foldl,
  ◌==◌, ◌||◌, if◌then◌else◌, length, elem, distinct, sorted, heappop,
}

abbrev pub TaskId : Type 0
TaskId = String

pub record Graph : Type 0 where
  pub ids : List TaskId
  pub deps : TaskId → List TaskId
  pub dependents : TaskId → List TaskId

-- What validation establishes of a graph.
pub record IsGraph (g : Graph) : Type 0 where
  pub ids_distinct : distinct g.ids ≡ true
  pub deps_distinct : (x : TaskId) → distinct (g.deps x) ≡ true
  pub deps_known : (x d : TaskId) → elem d (g.deps x) ≡ true → elem d g.ids ≡ true
  pub deps_of_known : (x d : TaskId) → elem d (g.deps x) ≡ true → elem x g.ids ≡ true
  pub dependents_distinct : (d : TaskId) → distinct (g.dependents d) ≡ true
  pub dependents_deps : (d x : TaskId) → elem x (g.dependents d) ≡ elem d (g.deps x)

-- `d[k] = v`
abbrev pub update {ℓ} : {A : Type ℓ} → (TaskId → A) → TaskId → A → TaskId → A
update f k v j = if j == k then v else f j

-- The variables of the loop of topological_order.
pub record Kahn : Type 0 where
  pub indegree : TaskId → ℕ
  pub ready : List TaskId
  pub ordered : List TaskId

-- The body of the inner loop. The decremented degree is 0 just if it was 1.
pub relax : Kahn → TaskId → Kahn
relax s dependent = record s {
  indegree = update s.indegree dependent (s.indegree dependent - 1);
  ready = if s.indegree dependent == 1 then dependent ∷ s.ready else s.ready;
}

module _ (g : Graph) where
  -- The body of the `while` loop, on a heap that holds `x` and `xs`.
  pub visit : Kahn → TaskId → List TaskId → Kahn
  visit s x xs =
      let (task_id, rest) = heappop x xs in
      foldl relax (record s { ready = rest; ordered = s.ordered ++ task_id ∷ [] })
        (sorted (g.dependents task_id))

  pub drain : ℕ → Kahn → Kahn
  drain zero s = s
  drain (suc fuel) s = elim s.ready [ [] ↦ s | x ∷ xs ↦ drain fuel (visit s x xs) ]

  pub zero_degree : List TaskId → List TaskId
  zero_degree [] = []
  zero_degree (x ∷ xs) =
      let rest = zero_degree xs in if length (g.deps x) == 0 then x ∷ rest else rest

  pub start : Kahn
  unfolding zero_degree
  start = record { indegree = λ x. length (g.deps x); ready = zero_degree g.ids; ordered = [] }

  -- A round appends an id, each id once: the fuel is the number of ids.
  unfoldable pub run_kahn : Kahn
  unfolding drain visit relax start
  run_kahn = drain (length g.ids) start

-- The variables of the loop of blocked_task_ids.
pub record Search : Type 0 where
  pub blocked : List TaskId
  pub queue : List TaskId

module _ (failed : List TaskId) where
  -- The body of the inner loop.
  pub offer : Search → TaskId → Search
  offer s dependent =
      if elem dependent failed || elem dependent s.blocked
      then s
      else record s { blocked = s.blocked ++ dependent ∷ []; queue = s.queue ++ dependent ∷ [] }

module _ (g : Graph) (failed : List TaskId) where
  -- The body of the `while` loop, on a queue of `x` and `rest`.
  pub expand : Search → TaskId → List TaskId → Search
  expand s x rest = foldl (offer failed) (record s { queue = rest }) (sorted (g.dependents x))

  pub spread : ℕ → Search → Search
  spread zero s = s
  spread (suc fuel) s = elim s.queue [ [] ↦ s | x ∷ rest ↦ spread fuel (expand s x rest) ]

  -- A round takes an id off the queue, each id once: the fuel is the number of ids.
  unfoldable pub run_spread : Search
  unfolding spread expand offer
  run_spread = spread (length g.ids) (record { blocked = []; queue = sorted failed })
