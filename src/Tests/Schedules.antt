-- ===== src/Tests/Schedules.antt =====
-- backend/app/runtime/scheduler.py: the theorems at a run over the diamond.
use muti_agent.Prelude.{
  ◌*◌, ◌≤◌, String, String_eq, ◌==◌, ◌≡◌, ◌⊎◌, refl, true, false, [], elem, length, arith,
}
use muti_agent.Result.{ok, err}
use muti_agent.Graph.{TaskId, update}
use muti_agent.Dag.{task_ids}
use muti_agent.Scheduler.{
  pending, ready, running, succeeded, failed, blocked, State_eq, DagScheduler, wrong_state, init,
  start, succeed, fail, query, require_task, require_state, transition, refresh_ready, promote_all,
  assert_blockable, block_all, task_ids_with_state, is_blockable, is_terminal,
}
use muti_agent.Scheduler.Refresh.{Promotes, moved}
use muti_agent.Scheduler.Methods.{
  IsValid, Fails, init-IsValid, start-IsValid, succeed-IsValid, fail-IsValid,
}
use muti_agent.Scheduler.Progress.{is_terminal-of_idle}
use muti_agent.Scheduler.Runs.{Run, here, next, starts, succeeds, fails, Run-IsValid}
use muti_agent.Scheduler.Log.{Records, Run-Records}
use muti_agent.Tests.Samples.{queries, diamond_nodes, diamond, make_dag-diamond}

program : Unit {0}
unfolding queries init start succeed fail query require_task require_state transition refresh_ready
    promote_all assert_blockable block_all task_ids_with_state is_blockable is_terminal
program = tt

abbrev fresh : DagScheduler
fresh = record { dag = diamond; states = λ _. pending; events = [] }

abbrev s0 : DagScheduler
s0 = moved fresh "a" ready "All dependencies are satisfied at scheduler initialization."

abbrev s1 : DagScheduler
s1 = moved s0 "a" running "Task execution started."

-- The only task with no dependency has failed, and all others are blocked.
abbrev blocked_by : DagScheduler → TaskId → DagScheduler
blocked_by s x = moved s x blocked "Blocked by a failed upstream dependency."

abbrev s2 : DagScheduler
s2 = blocked_by (blocked_by (blocked_by (moved s1 "a" failed "Task execution failed.") "b") "c") "d"

init-diamond : init diamond ≡ ok s0
unfolding program
init-diamond = refl

start-a : start s0 "a" ≡ ok s1
unfolding program
start-a = refl

fail-a : fail s1 "a" ≡ ok s2
unfolding program
fail-a = refl

start-b : start s0 "b" ≡ err (wrong_state "b" ready pending)
unfolding program
start-b = refl

run : Run s0 2 s2
run = next (next here (starts "a" start-a)) (fails "a" fail-a)

known-a : elem {A = TaskId} "a" (task_ids diamond) ≡ true
unfolding queries
known-a = refl

s0-IsValid : IsValid s0
s0-IsValid = (Run-IsValid diamond_nodes diamond s0 s0 0 make_dag-diamond init-diamond here).0

s1-IsValid : IsValid s1
s1-IsValid =
    (Run-IsValid diamond_nodes diamond s0 s1 1 make_dag-diamond init-diamond
      (next here (starts "a" start-a))).0

s2-IsValid : IsValid s2
s2-IsValid = (Run-IsValid diamond_nodes diamond s0 s2 2 make_dag-diamond init-diamond run).0

Run-IsValid_example : IsValid s2 × (s2.dag ≡ diamond) × (2 ≤ 2 * length (task_ids diamond))
Run-IsValid_example = Run-IsValid diamond_nodes diamond s0 s2 2 make_dag-diamond init-diamond run

init-IsValid_example :
    (s : DagScheduler) × (init diamond ≡ ok s)
    × (s.dag ≡ diamond)
    × IsValid s
    × ((n : TaskId) → (s.states n ≡ pending) ⊎ (s.states n ≡ ready))
init-IsValid_example = init-IsValid diamond_nodes diamond make_dag-diamond

start-IsValid_example :
    (t : DagScheduler) × (start s0 "a" ≡ ok t)
    × IsValid t
    × (t.dag ≡ s0.dag)
    × ((n : TaskId) → t.states n ≡ update s0.states "a" running n)
start-IsValid_example = start-IsValid s0 "a" s0-IsValid known-a refl

succeed-IsValid_example :
    (t : DagScheduler) × (succeed s1 "a" ≡ ok t)
    × IsValid t
    × (t.dag ≡ s1.dag)
    × ((n : TaskId) → Promotes (update s1.states "a" succeeded n) (t.states n))
succeed-IsValid_example = succeed-IsValid s1 "a" s1-IsValid known-a refl

fail-IsValid_example : (t : DagScheduler) × (fail s1 "a" ≡ ok t) × Fails s1 "a" t
fail-IsValid_example = fail-IsValid s1 "a" s1-IsValid known-a refl

-- In the run that succeeds, `b` starts behind `a`.
abbrev a_done : DagScheduler
a_done =
    let done : DagScheduler = moved s1 "a" succeeded "Task execution completed successfully." in
    let detail : String = "Dependencies satisfied after a succeeded." in
    moved (moved done "b" ready detail) "c" ready detail

abbrev b_runs : DagScheduler
b_runs = moved a_done "b" running "Task execution started."

succeed-a : succeed s1 "a" ≡ ok a_done
unfolding program
succeed-a = refl

start-b_behind_a : start a_done "b" ≡ ok b_runs
unfolding program
start-b_behind_a = refl

a_done-IsValid : IsValid a_done
a_done-IsValid =
    (Run-IsValid diamond_nodes diamond s0 a_done 2 make_dag-diamond init-diamond
      (next (next here (starts "a" start-a)) (succeeds "a" succeed-a))).0

s2-idle :
    (n : TaskId)
    → elem n (task_ids diamond) ≡ true
    → ((s2.states n == ready) ≡ false) × ((s2.states n == running) ≡ false)
unfolding queries
s2-idle n m = ground arith

is_terminal-of_idle_example : is_terminal s2 ≡ true
is_terminal-of_idle_example = is_terminal-of_idle s2 s2-IsValid s2-idle

Run-Records_example : Records s2
Run-Records_example = Run-Records diamond s0 s2 2 init-diamond run
