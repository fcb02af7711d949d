-- ===== src/Scheduler/Consistent.antt =====
-- What holds of the states of a scheduler between two calls of its methods.
use mathlib.Core.Path.{fun_ext}
use muti_agent.Prelude.{
  String_eq, ◌==◌, ◌≡◌, Bool, true, false, ◌&&◌, List, subset, all-elim, all-intro, elem, select,
  elem-select,
}
use muti_agent.Graph.{TaskId, Graph}
use muti_agent.Graph.Blocked.{Descendant, child, further}
use muti_agent.Dag.{TaskDag, task_ids, graph_of, depends_on}
use muti_agent.Scheduler.{
  TaskScheduleState, pending, ready, running, succeeded, failed, blocked, State_eq,
}

abbrev pub States : Type 0
States = TaskId → TaskScheduleState

-- `{task_id for task_id, current in states.items() if current is state}`
abbrev pub ids_in : TaskDag → States → TaskScheduleState → List TaskId
ids_in dag st state = select (λ x. st x == state) (task_ids dag)

abbrev pub is_started : TaskScheduleState → Bool
is_started ready = true
is_started running = true
is_started succeeded = true
is_started failed = true
is_started _ = false

-- The part of the invariant that holds also before new tasks are made ready.
pub record Settled (dag : TaskDag) (st : States) : Type 0 where
  -- A task is started only behind its dependencies.
  pub started :
      (n d : TaskId)
      → elem n (task_ids dag) ≡ true
      → is_started (st n) ≡ true
      → elem d (depends_on dag.tasks n) ≡ true
      → st d ≡ succeeded
  -- The blocked tasks are those behind a failed one.
  pub blocked_sound :
      (n : TaskId)
      → elem n (task_ids dag) ≡ true
      → st n ≡ blocked
      → Descendant (graph_of dag) (ids_in dag st failed) n
  pub blocked_complete :
      (n : TaskId) → Descendant (graph_of dag) (ids_in dag st failed) n → st n ≡ blocked

-- The invariant: besides, a task waits only while some dependency has not succeeded.
pub record Consistent (dag : TaskDag) (st : States) : Type 0 where
  pub settled : Settled dag st
  pub open settled use *
  pub waiting :
      (n : TaskId)
      → elem n (task_ids dag) ≡ true
      → st n ≡ pending
      → subset (depends_on dag.tasks n) (ids_in dag st succeeded) ≡ false

pub elem-ids_in :
    (dag : TaskDag) (st : States) (state : TaskScheduleState) (n : TaskId)
    → elem n (ids_in dag st state) ≡ (elem n (task_ids dag) && st n == state)
elem-ids_in dag st state n = elem-select (λ x. st x == state) n (task_ids dag)

-- Being behind a failed task depends on the failed tasks only as a set.
pub Descendant-mono :
    (g : Graph) (xs ys : List TaskId)
    → ((n : TaskId) → elem n xs ≡ true → elem n ys ≡ true)
    → {n : TaskId} → Descendant g xs n
    → Descendant g ys n
Descendant-mono g xs ys h (child d f e) = child d (h d f) e
Descendant-mono g xs ys h (further d f e) = further d (Descendant-mono g xs ys h f) e

pub subset_mono :
    (ds xs ys : List TaskId)
    → ((n : TaskId) → elem n xs ≡ true → elem n ys ≡ true)
    → subset ds xs ≡ true
    → subset ds ys ≡ true
subset_mono ds xs ys h s =
    all-intro (λ k. elem k ys) ds (λ a m. h a (all-elim (λ k. elem k xs) ds a s m))

-- States that agree everywhere.
module _ (dag : TaskDag) (st su : States) (same : (n : TaskId) → st n ≡ su n) where
  Settled-ext : Settled dag st → Settled dag su
  Settled-ext v = rw (fun_ext same) at v

  pub Consistent-ext : Consistent dag st → Consistent dag su
  Consistent-ext v = rw (fun_ext same) at v
