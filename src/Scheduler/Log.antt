-- ===== src/Scheduler/Log.antt =====
-- The event log is a faithful record: replayed from the initial states it gives the states.
use muti_agent.Prelude.{
  ℕ, subst, zero, suc, ◌+◌, String, String_eq, ◌==◌, ◌≡◌, refl, ◌∙◌, sym, true, not, ◌||◌, List, [],
  ◌∷◌, ◌++◌, elem, length, arith, inl, inr, Bool-cases,
}
use muti_agent.Result.{ok, >>=-eq-ok, ok-injective}
use muti_agent.Graph.{TaskId, update}
use muti_agent.Dag.{TaskDag, task_ids, topological_order}
use muti_agent.Scheduler.{
  TaskScheduleState, pending, ready, running, succeeded, failed, blocked, State_eq, allowed,
  DagScheduler, event, query, require_task, require_state, transition, start, succeed, fail,
  assert_blockable, block_all, refresh_ready,
}
use muti_agent.Scheduler.Consistent.{States}
use muti_agent.Scheduler.Refresh.{moved, transition-ok}
use muti_agent.Scheduler.{SchedulerEvent, init, promote_all}
use muti_agent.Scheduler.Runs.{Step, starts, succeeds, fails, Run, here, next}

-- From `st`, with `k` events before it, the log leads to `su` by allowed transitions.
abbrev pub Replays : States → ℕ → List SchedulerEvent → States → Type 0
Replays st k [] su = (n : TaskId) → st n ≡ su n
Replays st k (e ∷ es) su =
    (e.sequence ≡ k)
    × (e.from_state ≡ st e.task_id)
    × (allowed e.from_state e.to_state ≡ true)
    × Replays (update st e.task_id e.to_state) (suc k) es su

-- The log of a scheduler records all that happened to it.
abbrev pub Records : DagScheduler → Type 0
Records s = Replays (λ _. pending) 0 s.events s.states

Replays-snoc :
    (st : States) (k : ℕ) (es : List SchedulerEvent) (su : States) (e : SchedulerEvent)
    → Replays st k es su
    → e.sequence ≡ k + length es
    → e.from_state ≡ su e.task_id
    → allowed e.from_state e.to_state ≡ true
    → Replays st k (es ++ e ∷ []) (update su e.task_id e.to_state)
Replays-snoc st k [] su e r q f a =
    (omega (arith, q), f ∙ sym (r e.task_id), a, λ n. ground (arith, r n))
Replays-snoc st k (d ∷ es) su e r q f a = (
  r.0,
  r.1,
  r.2,
  Replays-snoc (update st d.task_id d.to_state) (suc k) es su e r.3 (omega (arith, q)) f a,
)

transition-inv :
    (s t : DagScheduler) (x : TaskId) (next_state : TaskScheduleState) (detail : String)
    → transition s x next_state detail ≡ ok t
    → (moved s x next_state detail ≡ t) × (allowed (s.states x) next_state ≡ true)
unfolding transition require_task
transition-inv s t x next_state detail h = elim (Bool-cases (elem x (task_ids s.dag))) [
  | inr unknown ↦ absurd (ground arith)
  | inl known ↦ elim (Bool-cases (allowed (s.states x) next_state)) [
    | inr forbidden ↦ absurd (ground arith)
    | inl fine ↦ (
      ok-injective (moved s x next_state detail) t
          (sym (transition-ok s x next_state detail known fine) ∙ h),
      fine,
    )
  ]
]

transition-Records :
    (s t : DagScheduler) (x : TaskId) (next_state : TaskScheduleState) (detail : String)
    → transition s x next_state detail ≡ ok t
    → Records s
    → Records t
transition-Records s t x next_state detail h r =
    let (e, fine) = transition-inv s t x next_state detail h in
    subst Records e (
      Replays-snoc (λ _. pending) 0 s.events s.states (event s x next_state detail) r (omega arith)
        refl fine)

promote_all-Records :
    (detail : String) (xs : List TaskId) (s t : DagScheduler)
    → promote_all detail s xs ≡ ok t
    → Records s
    → Records t
unfolding promote_all
promote_all-Records detail [] s t h r = rw (ok-injective s t h) at r
promote_all-Records detail (x ∷ xs) s t h r = elim (Bool-cases (s.states x == pending)) [
  | inl waits ↦
      let (u, e, rest) =
        >>=-eq-ok (transition s x ready detail) (λ v. promote_all detail v xs) (rw waits at h) in
      promote_all-Records detail xs u t rest (transition-Records s u x ready detail e r)
  | inr other ↦ promote_all-Records detail xs s t (rw other at h) r
]

block_all-Records :
    (behind xs : List TaskId) (s t : DagScheduler)
    → block_all behind s xs ≡ ok t
    → Records s
    → Records t
unfolding block_all
block_all-Records behind [] s t h r = rw (ok-injective s t h) at r
block_all-Records behind (x ∷ xs) s t h r =
    elim (Bool-cases (not (elem x behind) || s.states x == blocked)) [
      | inl keeps ↦ block_all-Records behind xs s t (rw keeps at h) r
      | inr moves ↦
          let (u, e, rest) =
            >>=-eq-ok (transition s x blocked "Blocked by a failed upstream dependency.")
              (λ v. block_all behind v xs) (rw moves at h) in
          block_all-Records behind xs u t rest (transition-Records s u x blocked _ e r)
    ]

refresh_ready-Records :
    (s t : DagScheduler) (detail : String) → refresh_ready s detail ≡ ok t → Records s → Records t
unfolding refresh_ready
refresh_ready-Records s t detail h r =
    let (found, _, rest) = >>=-eq-ok (query _) (promote_all detail s) h in
    promote_all-Records detail found s t rest r

init-Records : (dag : TaskDag) (s : DagScheduler) → init dag ≡ ok s → Records s
unfolding init
init-Records dag s h = refresh_ready-Records _ s _ h (λ n. refl)

start-Records : (s t : DagScheduler) (x : TaskId) → start s x ≡ ok t → Records s → Records t
unfolding start
start-Records s t x h r =
    let (_, _, rest) = >>=-eq-ok (require_state s x ready) _ h in
    transition-Records s t x running _ rest r

succeed-Records : (s t : DagScheduler) (x : TaskId) → succeed s x ≡ ok t → Records s → Records t
unfolding succeed
succeed-Records s t x h r =
    let (_, _, rest) = >>=-eq-ok (require_state s x running) _ h in
    let (u, e, refreshed) = >>=-eq-ok (transition s x succeeded _) _ rest in
    refresh_ready-Records u t _ refreshed (transition-Records s u x succeeded _ e r)

fail-Records : (s t : DagScheduler) (x : TaskId) → fail s x ≡ ok t → Records s → Records t
unfolding fail
fail-Records s t x h r =
    let (_, _, h1) = >>=-eq-ok (require_state s x running) _ h in
    let (behind, _, h2) = >>=-eq-ok (query _) _ h1 in
    let (_, _, h3) = >>=-eq-ok (assert_blockable s behind) _ h2 in
    let (u, e, h4) = >>=-eq-ok (transition s x failed _) _ h3 in
    let (order, _, h5) = >>=-eq-ok (query (topological_order s.dag)) _ h4 in
    block_all-Records behind order u t h5 (transition-Records s u x failed _ e r)

Step-Records : (s t : DagScheduler) → Step s t → Records s → Records t
Step-Records s t (starts x h) = start-Records s t x h
Step-Records s t (succeeds x h) = succeed-Records s t x h
Step-Records s t (fails x h) = fail-Records s t x h

Run-Records-from : (s : DagScheduler) (k : ℕ) (t : DagScheduler) → Run s k t → Records s → Records t
Run-Records-from s zero t here r = r
Run-Records-from s (suc k) u (next {t = t} run st) r =
    Step-Records t u st (Run-Records-from s k t run r)

-- For a scheduler that init made, after any sequence of successful calls of start, succeed and
-- fail, its events are numbered from zero without a gap, each is an allowed transition from the
-- state that the events before it give, and replaying all of them from PENDING gives the states
-- of the scheduler.
pub Run-Records :
    (dag : TaskDag) (s t : DagScheduler) (k : ℕ) → init dag ≡ ok s → Run s k t → Records t
Run-Records dag s t k started run = Run-Records-from s k t run (init-Records dag s started)
