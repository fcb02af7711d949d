-- ===== src/Scheduler/Runs.antt =====
-- Every sequence of calls: the invariant at each point, and a bound on its length.
use muti_agent.Prelude.{
  ℕ, zero, suc, ◌+◌, ◌*◌, ◌≤◌, ◌<◌, String_eq, ◌==◌, ◌≡◌, refl, ap, ◌∙◌, sym, true, List, [], ◌∷◌,
  elem, length, arith, inl, inr, Bool-cases,
}
use text.Mathlib.TextEquality.{eq_iff}
use muti_agent.Result.{ok, ok-injective}
use muti_agent.Graph.{TaskId}
use muti_agent.Dag.{TaskDag, task_ids}
use muti_agent.Scheduler.{
  TaskScheduleState, pending, ready, running, State_eq, DagScheduler, start, succeed, fail,
}
use muti_agent.Scheduler.Consistent.{States}
use muti_agent.Dag.{TaskNode, make_dag}
use muti_agent.Scheduler.{init}
use muti_agent.Scheduler.Methods.{
  IsValid, init-IsValid, start-IsValid, succeed-IsValid, fail-IsValid,
}
use muti_agent.Scheduler.Progress.{start-inv, succeed-inv, fail-inv}

-- One call that succeeds, on a task that the caller chooses.
pub data Step (s t : DagScheduler) : Type 0 where
  starts : (x : TaskId) → start s x ≡ ok t → Step s t
  succeeds : (x : TaskId) → succeed s x ≡ ok t → Step s t
  fails : (x : TaskId) → fail s x ≡ ok t → Step s t

pub data Run (s : DagScheduler) : ℕ → DagScheduler → Type 0 where
  here : Run s zero s
  next : {k : ℕ} {t u : DagScheduler} → Run s k t → Step t u → Run s (suc k) u

-- The calls that a task can still be part of.
abbrev pub calls_left : TaskScheduleState → ℕ
calls_left pending = 2
calls_left ready = 2
calls_left running = 1
calls_left _ = 0

abbrev pub total_left : States → List TaskId → ℕ
total_left st [] = 0
total_left st (x ∷ xs) = calls_left (st x) + total_left st xs

total_left-le :
    (st su : States) (xs : List TaskId)
    → ((n : TaskId) → calls_left (su n) ≤ calls_left (st n))
    → total_left su xs ≤ total_left st xs
total_left-le st su [] h = omega arith
total_left-le st su (x ∷ xs) h = omega (arith, h x, total_left-le st su xs h)

total_left-lt :
    (st su : States) (xs : List TaskId) (x : TaskId)
    → ((n : TaskId) → calls_left (su n) ≤ calls_left (st n))
    → calls_left (su x) < calls_left (st x)
    → elem x xs ≡ true
    → total_left su xs < total_left st xs
total_left-lt st su [] x h l m = absurd (ground arith)
total_left-lt st su (y ∷ xs) x h l m = elim (Bool-cases (x == y)) [
  | inl same ↦ let e = (eq_iff x y).0 same in omega (arith, (rw e at l), total_left-le st su xs h)
  | inr other ↦ omega (arith, h y, total_left-lt st su xs x h l (ground arith))
]

-- What a step keeps and what it uses up.
pub Advances : DagScheduler → DagScheduler → Type 0
Advances s t =
    IsValid t
    × (t.dag ≡ s.dag)
    × (total_left t.states (task_ids t.dag) < total_left s.states (task_ids s.dag))

advance :
    (s t : DagScheduler) (x : TaskId)
    → IsValid t
    → t.dag ≡ s.dag
    → elem x (task_ids s.dag) ≡ true
    → ((n : TaskId) → calls_left (t.states n) ≤ calls_left (s.states n))
    → calls_left (t.states x) < calls_left (s.states x)
    → Advances s t
unfolding Advances
advance s t x v d m h l = (v, d, rw d (total_left-lt s.states t.states (task_ids s.dag) x h l m))

start-Advances : (s t : DagScheduler) (x : TaskId) → IsValid s → start s x ≡ ok t → Advances s t
start-Advances s t x v h =
    let (m, r) = start-inv s t x h in
    let (u, e, w, d, p) = start-IsValid s x v m r in
    rw (ok-injective t u (sym h ∙ e)) (
      advance s u x w d m (λ n. ground (arith, p n, eq_iff n x, ap s.states))
        (ground (arith, p x, eq_iff x x)))

succeed-Advances : (s t : DagScheduler) (x : TaskId) → IsValid s → succeed s x ≡ ok t → Advances s t
succeed-Advances s t x v h =
    let (m, r) = succeed-inv s t x h in
    let (u, e, w, d, p) = succeed-IsValid s x v m r in
    rw (ok-injective t u (sym h ∙ e)) (
      advance s u x w d m (λ n. ground (arith, p n, eq_iff n x, ap s.states))
        (ground (arith, p x, eq_iff x x)))

fail-Advances : (s t : DagScheduler) (x : TaskId) → IsValid s → fail s x ≡ ok t → Advances s t
fail-Advances s t x v h =
    let (m, r) = fail-inv s t x h in
    let (u, e, (w, d, now, p)) = fail-IsValid s x v m r in
    rw (ok-injective t u (sym h ∙ e)) (
      advance s u x w d m
        (λ n. elim (p n) [
          | inl keeps ↦ ground (arith, eq_iff n x, ap s.states)
          | inr (_, stops) ↦ ground arith
        ])
        (ground arith))

Step-Advances : (s t : DagScheduler) → IsValid s → Step s t → Advances s t
Step-Advances s t v (starts x h) = start-Advances s t x v h
Step-Advances s t v (succeeds x h) = succeed-Advances s t x v h
Step-Advances s t v (fails x h) = fail-Advances s t x v h

Run-Advances :
    (s : DagScheduler) (k : ℕ) (t : DagScheduler)
    → IsValid s
    → Run s k t
    → IsValid t
      × (t.dag ≡ s.dag)
      × (k + total_left t.states (task_ids t.dag) ≤ total_left s.states (task_ids s.dag))
unfolding Advances
Run-Advances s zero t v here = (v, refl, omega arith)
Run-Advances s (suc k) u v (next {t = t} r st) =
    let (w, d, l) = Run-Advances s k t v r in
    let (w', d', l') = Step-Advances t u w st in (w', d' ∙ d, omega arith)

calls_left-le : (state : TaskScheduleState) → calls_left state ≤ 2
calls_left-le state = ground arith

total_left-bound : (st : States) (xs : List TaskId) → total_left st xs ≤ 2 * length xs
total_left-bound st [] = omega arith
total_left-bound st (x ∷ xs) = omega (arith, calls_left-le (st x), total_left-bound st xs)

-- For a graph that make_dag built and a scheduler that init made for it, after any sequence of k
-- successful calls of start, succeed and fail the scheduler is valid (a READY, RUNNING or ended
-- task other than a BLOCKED one has only SUCCEEDED dependencies, the BLOCKED tasks are exactly
-- the transitive dependents of the FAILED ones, a PENDING task has a dependency that has not
-- SUCCEEDED, the graph is a validated one with a topological order), its graph is the same, and
-- k is at most twice the number of tasks.
pub Run-IsValid :
    (raws : List TaskNode) (dag : TaskDag) (s t : DagScheduler) (k : ℕ)
    → make_dag raws ≡ ok dag
    → init dag ≡ ok s
    → Run s k t
    → IsValid t × (t.dag ≡ dag) × (k ≤ 2 * length (task_ids dag))
Run-IsValid raws dag s t k made started r =
    let (u, e, d, v, _) = init-IsValid raws dag made in
    let same = ok-injective u s (sym e ∙ started) in
    let (w, d', l) = Run-Advances s k t (rw same at v) r in
    let d'' : s.dag ≡ dag = rw same at d in
    (
      w,
      d' ∙ d'',
      omega (arith, total_left-bound s.states (task_ids s.dag), ap (λ g. length (task_ids g)) d''),
    )
