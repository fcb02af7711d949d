-- ===== src/Scheduler/Progress.antt =====
-- What the invariant means for a run: no task starts early, and none waits forever.
use muti_agent.Prelude.{
  ℕ, zero, suc, ◌<◌, String_eq, ◌==◌, ◌≡◌, ap, true, false, all-false, all-intro, elem, arith, inl,
  inr, Bool-cases,
}
use muti_agent.Result.{ok}
use muti_agent.Graph.{TaskId, IsGraph}
use muti_agent.Graph.Blocked.{child, further}
use muti_agent.Dag.{task_ids, graph_of, depends_on}
use muti_agent.Dag.Facts.{graph_of-IsGraph}
use muti_agent.Dag.Order.{graph_of-ids, graph_of-deps}
use muti_agent.Scheduler.{
  TaskScheduleState, pending, ready, running, succeeded, failed, blocked, State_eq, same_state_iff,
  DagScheduler, require_task, require_state, start, succeed, fail,
}
use muti_agent.Scheduler.Consistent.{ids_in, elem-ids_in}
use muti_agent.Graph.Topology.{IsRank}
use muti_agent.Dag.Order.{topological_order_iff}
use muti_agent.Scheduler.{is_terminal, is_terminal_state}
use muti_agent.Scheduler.Methods.{IsValid}

-- When a call succeeds, the task is known and in the state that the call wants.
pub require_state-inv :
    (s : DagScheduler) (x : TaskId) (state : TaskScheduleState)
    → require_state s x state ≡ ok tt
    → (elem x (task_ids s.dag) ≡ true) × (s.states x ≡ state)
unfolding require_state require_task
require_state-inv s x state h = ground (arith, same_state_iff (s.states x) state)

pub start-inv :
    (s t : DagScheduler) (x : TaskId)
    → start s x ≡ ok t
    → (elem x (task_ids s.dag) ≡ true) × (s.states x ≡ ready)
unfolding start
start-inv s t x h = require_state-inv s x ready (ground arith)

pub succeed-inv :
    (s t : DagScheduler) (x : TaskId)
    → succeed s x ≡ ok t
    → (elem x (task_ids s.dag) ≡ true) × (s.states x ≡ running)
unfolding succeed
succeed-inv s t x h = require_state-inv s x running (ground arith)

pub fail-inv :
    (s t : DagScheduler) (x : TaskId)
    → fail s x ≡ ok t
    → (elem x (task_ids s.dag) ≡ true) × (s.states x ≡ running)
unfolding fail
fail-inv s t x h = require_state-inv s x running (ground arith)

module _ (s : DagScheduler) (v : IsValid s)
    (idle : (n : TaskId)
      → elem n (task_ids s.dag) ≡ true
      → ((s.states n == ready) ≡ false) × ((s.states n == running) ≡ false)) where
  laws : IsGraph (graph_of s.dag)
  laws = graph_of-IsGraph s.dag v.dag_valid

  -- If all dependencies have ended, so has the task.
  ended_behind :
      (n : TaskId)
      → elem n (task_ids s.dag) ≡ true
      → ((d : TaskId)
          → elem d (depends_on s.dag.tasks n) ≡ true
          → (elem d (task_ids s.dag) ≡ true) × (is_terminal_state (s.states d) ≡ true))
      → is_terminal_state (s.states n) ≡ true
  ended_behind n m h = elim (Bool-cases (s.states n == pending)) [
    | inr other ↦ ground (arith, idle n m)
    | inl waits ↦
        let p = (same_state_iff (s.states n) pending).0 waits in
        let (d, e, late) =
          all-false (λ k. elem k (ids_in s.dag s.states succeeded)) (depends_on s.dag.tasks n)
            (v.consistent.waiting n m p) in
        let (known, over) = h d e in
        let edge : elem d ((graph_of s.dag).deps n) ≡ true = rw graph_of-deps e in
        elim (Bool-cases (s.states d == failed)) [
          | inl f ↦
              let stops =
                v.consistent.blocked_complete n
                  (child d (ground (arith, elem-ids_in s.dag s.states failed d)) edge) in
              ground arith
          | inr fine ↦
              let b : s.states d ≡ blocked =
                ground (arith, elem-ids_in s.dag s.states succeeded d) in
              let stops =
                v.consistent.blocked_complete n
                  (further d (v.consistent.blocked_sound d known b) edge) in
              ground arith
        ]
  ]

  module _ (rank : TaskId → ℕ) (up : IsRank (graph_of s.dag) rank) where
    ended_below :
        (k : ℕ) (n : TaskId)
        → rank n < k
        → elem n (task_ids s.dag) ≡ true
        → is_terminal_state (s.states n) ≡ true
    ended_below zero n h m = elim h [ ]
    ended_below (suc k) n h m = ended_behind n m λ d e.
        let edge : elem d ((graph_of s.dag).deps n) ≡ true = rw graph_of-deps e in
        let known : elem d (task_ids s.dag) ≡ true =
          ground (arith, laws.deps_known n d edge, ap (elem d) (graph_of-ids s.dag)) in
        (known, ended_below k d (omega (arith, up n d edge)) known)

-- On a valid scheduler where no task of the graph is READY or RUNNING, every task has ended:
-- is_terminal answers true, so no run is stuck.
pub is_terminal-of_idle :
    (s : DagScheduler)
    → IsValid s
    → ((n : TaskId)
        → elem n (task_ids s.dag) ≡ true
        → ((s.states n == ready) ≡ false) × ((s.states n == running) ≡ false))
    → is_terminal s ≡ true
unfolding is_terminal
is_terminal-of_idle s v idle =
    let (rank, up) = (topological_order_iff s.dag v.dag_valid).0 (v.order, v.ordered) in
    all-intro (λ n. is_terminal_state (s.states n)) (task_ids s.dag)
      (λ n m. ended_below s v idle rank up (suc (rank n)) n (omega arith) m)
