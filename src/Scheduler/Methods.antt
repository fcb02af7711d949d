-- ===== src/Scheduler/Methods.antt =====
-- The methods of DAGScheduler keep the invariant, and raise only what their first test raises.
use muti_agent.Prelude.{
  String, String_eq, ◌==◌, ◌≡◌, ◌↔◌, ◌⊎◌, refl, ap, ◌∙◌, sym, true, false, not, ◌&&◌, ◌||◌, List,
  [], ◌∷◌, subset, all-intro, elem, distinct, set_add, distinct-select, distinct-snoc,
  if◌then◌else◌, arith, inl, inr, Bool-cases, sorted, elem-sorted, select-none,
}
use Prim.Native.String.{◌++◌ as str_append}
use text.Mathlib.TextEquality.{eq_iff}
use muti_agent.Result.{ok}
use muti_agent.Graph.{TaskId, IsGraph, update}
use muti_agent.Graph.Blocked.{Descendant, child, further}
use muti_agent.Dag.{TaskDag, task_ids, graph_of, depends_on, topological_order, blocked_task_ids}
use muti_agent.Dag.Facts.{IsDag, graph_of-IsGraph}
use muti_agent.Dag.Order.{graph_of-ids, graph_of-deps, IsTopological, order-IsTopological}
use muti_agent.Dag.Blocked.{blocked_task_ids_correct}
use muti_agent.Scheduler.{
  TaskScheduleState, pending, ready, running, succeeded, failed, blocked, State_eq, same_state_iff,
  DagScheduler, query, require_task, require_state, start, succeed, fail, is_blockable,
  assert_blockable, block_all, task_ids_with_state,
}
use muti_agent.Scheduler.Consistent.{
  States, ids_in, elem-ids_in, Settled, Consistent, Consistent-ext,
}
use muti_agent.Scheduler.Refresh.{Promotes, moved, transition-ok, refresh_ready-ok}
use muti_agent.Scheduler.{init}
use muti_agent.Dag.{TaskNode, make_dag}
use muti_agent.Dag.Facts.{make_dag-IsDag, make_dag-order}
use muti_agent.Scheduler.Moves.{update-Settled, start-Consistent}
use muti_agent.Scheduler.Failing.{after_fail, elem-failed_after, Descendant-idle, fail-Consistent}

-- The scheduler of a validated graph, in consistent states.
pub record IsValid (s : DagScheduler) : Type 0 where
  pub dag_valid : IsDag s.dag
  pub order : List TaskId
  pub ordered : topological_order s.dag ≡ ok order
  pub consistent : Consistent s.dag s.states

IsValid-of :
    (s t : DagScheduler) → IsValid s → t.dag ≡ s.dag → Consistent s.dag t.states → IsValid t
IsValid-of s t v e c = record {
  dag_valid = rw e v.dag_valid;
  order = v.order;
  ordered = rw e v.ordered;
  consistent = rw e c;
}

require_state-ok :
    (s : DagScheduler) (x : TaskId) (state : TaskScheduleState)
    → elem x (task_ids s.dag) ≡ true
    → s.states x ≡ state
    → require_state s x state ≡ ok tt
unfolding require_state require_task
require_state-ok s x state m e = ground (arith, same_state_iff state state)

idle-Settled : (dag : TaskDag) → Settled dag (λ _. pending)
idle-Settled dag = record {
  started = λ n d m h e. absurd (ground arith);
  blocked_sound = λ n m b. absurd (ground arith);
  blocked_complete = λ n h. absurd (nothing h);
}
  where
    nothing : {n : TaskId} → Descendant (graph_of dag) (ids_in dag (λ _. pending) failed) n → ⊥
    nothing (child d f e) = ground (arith, elem-ids_in dag (λ _. pending) failed d)
    nothing (further d f e) = nothing f

-- For every graph that make_dag returns, init returns a valid scheduler of that graph in which
-- every task is PENDING or READY.
pub init-IsValid :
    (raws : List TaskNode) (dag : TaskDag)
    → make_dag raws ≡ ok dag
    → (s : DagScheduler) × (init dag ≡ ok s)
      × (s.dag ≡ dag)
      × IsValid s
      × ((n : TaskId) → (s.states n ≡ pending) ⊎ (s.states n ≡ ready))
unfolding init
init-IsValid raws dag h =
    let v = make_dag-IsDag raws dag h in
    let (order, ordered) = make_dag-order raws dag h in
    let (s, e, d, c, p) =
      refresh_ready-ok (record { dag = dag; states = λ _. pending; events = [] })
        "All dependencies are satisfied at scheduler initialization." order v ordered
        (idle-Settled dag) in
    (
      s,
      e,
      d,
      record { dag_valid = rw d v; order = order; ordered = rw d ordered; consistent = rw d c },
      λ n. elim (p n) [ inl same ↦ inl same | inr (_, now) ↦ inr now ],
    )

-- On a valid scheduler with a READY task of the graph, start returns a valid scheduler with the
-- same graph, where only the state of that task is another one, RUNNING.
pub start-IsValid :
    (s : DagScheduler) (x : TaskId)
    → IsValid s
    → elem x (task_ids s.dag) ≡ true
    → s.states x ≡ ready
    → (t : DagScheduler) × (start s x ≡ ok t)
      × IsValid t
      × (t.dag ≡ s.dag)
      × ((n : TaskId) → t.states n ≡ update s.states x running n)
unfolding start
start-IsValid s x v m e =
    let t = moved s x running "Task execution started." in
    (
      t,
      rw (require_state-ok s x ready m e)
          (transition-ok s x running "Task execution started." m (rw e refl)),
      IsValid-of s t v refl (start-Consistent s.dag s.states x v.consistent e),
      refl,
      λ n. refl,
    )

-- On a valid scheduler with a RUNNING task of the graph, succeed returns a valid scheduler with
-- the same graph, where the task is SUCCEEDED and every other task keeps its state or goes from
-- PENDING to READY.
pub succeed-IsValid :
    (s : DagScheduler) (x : TaskId)
    → IsValid s
    → elem x (task_ids s.dag) ≡ true
    → s.states x ≡ running
    → (t : DagScheduler) × (succeed s x ≡ ok t)
      × IsValid t
      × (t.dag ≡ s.dag)
      × ((n : TaskId) → Promotes (update s.states x succeeded n) (t.states n))
unfolding succeed
succeed-IsValid s x v m e =
    let next = moved s x succeeded "Task execution completed successfully." in
    let (t, refreshed, d, c, p) =
      refresh_ready-ok next
        (str_append "Dependencies satisfied after " (str_append x " succeeded.")) v.order
        v.dag_valid v.ordered
        (update-Settled s.dag s.states x v.consistent.settled succeeded
          (ground arith, ground arith, ground arith) (refl, refl)) in
    (
      t,
      rw
          (
            require_state-ok s x running m e,
            transition-ok s x succeeded "Task execution completed successfully." m (rw e refl),
          )
          refreshed,
      IsValid-of s t v d c,
      d,
      p,
    )

block_all-ok :
    (behind : List TaskId) (s : DagScheduler) (xs : List TaskId)
    → subset xs (task_ids s.dag) ≡ true
    → ((n : TaskId) → elem n behind ≡ true → is_blockable (s.states n) ≡ true)
    → (t : DagScheduler) × (block_all behind s xs ≡ ok t)
      × (t.dag ≡ s.dag)
      × ((n : TaskId) → t.states n ≡ (if elem n xs && elem n behind then blocked else s.states n))
unfolding block_all is_blockable
block_all-ok behind s [] h idle = (s, refl, refl, λ n. refl)
block_all-ok behind s (x ∷ xs) h idle =
    elim (Bool-cases (not (elem x behind) || s.states x == blocked)) [
      | inl keeps ↦
          let (t, e, d, p) = block_all-ok behind s xs (ground arith) idle in
          (
            t,
            rw keeps e,
            d,
            λ n. ground (arith, p n, eq_iff n x, ap s.states, same_state_iff (s.states x) blocked),
          )
      | inr moves ↦
          let detail : String = "Blocked by a failed upstream dependency." in
          let (t, e, d, p) =
            block_all-ok behind (moved s x blocked detail) xs (ground arith)
              (λ n m. ground (arith, idle n m, eq_iff n x)) in
          (
            t,
            rw (moves, transition-ok s x blocked detail (ground arith) (ground (arith, idle x))) e,
            d,
            λ n. ground (arith, p n, eq_iff n x),
          )
    ]

assert_blockable-ok :
    (s : DagScheduler) (xs : List TaskId)
    → ((n : TaskId) → elem n xs ≡ true → is_blockable (s.states n) ≡ true)
    → assert_blockable s xs ≡ ok tt
unfolding assert_blockable
assert_blockable-ok s xs h =
    rw
      (select-none (λ n. not (is_blockable (s.states n))) (sorted xs)
        (λ n m. ground (arith, h n, elem-sorted n xs)))
      refl

after_fail-cases :
    (st : States) (x : TaskId) (behind : List TaskId) (n : TaskId)
    → (after_fail st x behind n ≡ update st x failed n)
      ⊎ ((elem n behind ≡ true) × (after_fail st x behind n ≡ blocked))
after_fail-cases st x behind n = elim (Bool-cases (elem n behind)) [
  | inl y ↦ inr (y, rw y refl)
  | inr other ↦ inl (rw other refl)
]

-- What `fail` leaves behind: `x` failed, the tasks behind it blocked, all else as it was.
abbrev pub Fails : DagScheduler → TaskId → DagScheduler → Type 0
Fails s x t =
    IsValid t
    × (t.dag ≡ s.dag)
    × (t.states x ≡ failed)
    × ((n : TaskId)
        → (t.states n ≡ update s.states x failed n)
          ⊎ (Descendant (graph_of s.dag) (ids_in s.dag t.states failed) n × (t.states n ≡ blocked)))

module _ (s : DagScheduler) (x : TaskId) (v : IsValid s) (m : elem x (task_ids s.dag) ≡ true)
    (e : s.states x ≡ running) where
  laws : IsGraph (graph_of s.dag)
  laws = graph_of-IsGraph s.dag v.dag_valid

  top : IsTopological s.dag v.order
  top = order-IsTopological s.dag v.order v.dag_valid v.ordered

  deps_known :
      (n d : TaskId) → elem d (depends_on s.dag.tasks n) ≡ true → elem n (task_ids s.dag) ≡ true
  deps_known n d h = ground (
    arith,
    laws.deps_of_known n d,
    ap (elem d) (graph_of-deps s.dag n),
    ap (elem n) (graph_of-ids s.dag),
  )

  abbrev lost : List TaskId
  lost = set_add x (ids_in s.dag s.states failed)

  elem-lost :
      (n : TaskId) → elem n lost ≡ (n == x || elem n (task_ids s.dag) && s.states n == failed)
  elem-lost n = elem-failed_after s.dag s.states x v.consistent e m deps_known n

  lost-distinct : distinct lost ≡ true
  lost-distinct = ground (
    arith,
    distinct-select (λ n. s.states n == failed) (task_ids s.dag) v.dag_valid.ids_distinct,
    distinct-snoc (ids_in s.dag s.states failed) x,
  )

  lost_known : subset lost (task_ids s.dag) ≡ true
  lost_known =
      all-intro (λ k. elem k (task_ids s.dag)) lost (λ k h. ground (arith, elem-lost k, eq_iff k x))

  order_known : subset v.order (task_ids s.dag) ≡ true
  order_known = all-intro (λ k. elem k (task_ids s.dag)) v.order (λ k h. (top.all_tasks k).0 h)

  module _ (behind : List TaskId)
      (behind_iff : (n : TaskId)
        → (elem n behind ≡ true)
          ↔ ((elem n lost ≡ false) × Descendant (graph_of s.dag) lost n)) where
    idle :
        (n : TaskId)
        → elem n behind ≡ true
        → (elem n (task_ids s.dag) ≡ true) × (is_blockable (s.states n) ≡ true)
    idle n b = Descendant-idle s.dag s.states x v.consistent e m deps_known ((behind_iff n).0 b).1

    idle-moved :
        (n : TaskId) → elem n behind ≡ true → is_blockable (update s.states x failed n) ≡ true
    idle-moved n b = ground (arith, idle n b, ((behind_iff n).0 b).0, elem-lost n)

    finish :
        (t : DagScheduler)
        → t.dag ≡ s.dag
        → ((n : TaskId)
            → t.states n
              ≡ (if elem n v.order && elem n behind then blocked else update s.states x failed n))
        → Fails s x t
    finish t d p =
        let same : (n : TaskId) → after_fail s.states x behind n ≡ t.states n =
          λ n. ground (arith, p n, idle n, (top.all_tasks n).1) in
        let c =
          Consistent-ext s.dag (after_fail s.states x behind) t.states same
            (fail-Consistent s.dag s.states x v.consistent e m deps_known behind behind_iff) in
        (
          IsValid-of s t v d c,
          d,
          ground (arith, p x, eq_iff x x, (behind_iff x).0, elem-lost x),
          λ n. elim (after_fail-cases s.states x behind n) [
            | inl keeps ↦ inl (sym (same n) ∙ keeps)
            | inr (b, now) ↦
                let stops = sym (same n) ∙ now in inr (c.blocked_sound n (idle n b).0 stops, stops)
          ],
        )

    fail-runs :
        blocked_task_ids s.dag lost ≡ ok behind
        → (t : DagScheduler) × (fail s x ≡ ok t) × Fails s x t
    unfolding fail query task_ids_with_state
    fail-runs asked =
        let next = moved s x failed "Task execution failed." in
        let (t, all_blocked, d, p) = block_all-ok behind next v.order order_known idle-moved in
        (
          t,
          rw
              (
                require_state-ok s x running m e,
                asked,
                assert_blockable-ok s behind (λ n b. (idle n b).1),
                transition-ok s x failed "Task execution failed." m (rw e refl),
                v.ordered,
              )
              all_blocked,
          finish t d p,
        )

  -- On a valid scheduler with a RUNNING task of the graph, fail returns a scheduler and raises
  -- nothing: it is valid, has the same graph, the task is FAILED, and every other task keeps its
  -- state or is a transitive dependent of a failed task and now BLOCKED.
  pub fail-IsValid : (t : DagScheduler) × (fail s x ≡ ok t) × Fails s x t
  fail-IsValid =
      let (behind, asked, _, behind_iff) =
        blocked_task_ids_correct s.dag v.dag_valid v.order v.ordered lost lost-distinct
          lost_known in
      fail-runs behind behind_iff asked
