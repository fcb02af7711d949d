-- ===== src/Scheduler/Moves.antt =====
-- The first assignment of `start` and of `succeed`, on the states.
use muti_agent.Prelude.{
  String_eq, ◌==◌, ◌≡◌, refl, ap, true, false, subset, elem, arith, inl, inr, Bool-cases,
}
use text.Mathlib.TextEquality.{eq_iff}
use muti_agent.Graph.{TaskId, update}
use muti_agent.Dag.{TaskDag, graph_of, depends_on}
use muti_agent.Scheduler.{TaskScheduleState, ready, running, succeeded, failed, State_eq}
use muti_agent.Scheduler.Consistent.{
  States, ids_in, elem-ids_in, is_started, Settled, Consistent, Descendant-mono, subset_mono,
}

module _ (dag : TaskDag) (st : States) (x : TaskId) where
  module _ (next : TaskScheduleState) (state : TaskScheduleState)
      (neither : ((st x == state) ≡ false) × ((next == state) ≡ false)) where
    ids_in-update :
        (n : TaskId) → elem n (ids_in dag (update st x next) state) ≡ elem n (ids_in dag st state)
    ids_in-update n = ground (
      arith,
      elem-ids_in dag (update st x next) state n,
      elem-ids_in dag st state n,
      eq_iff n x,
      ap st,
    )

  -- A started task that stays started, and is not yet done, may move on.
  module _ (v : Settled dag st) (next : TaskScheduleState)
      (was : (is_started (st x) ≡ true)
        × ((st x == succeeded) ≡ false)
        × ((st x == failed) ≡ false))
      (is : (is_started next ≡ true) × ((next == failed) ≡ false)) where
    pub update-Settled : Settled dag (update st x next)
    update-Settled = record {
      started = λ n d m h e.
          ground (arith, v.started n d m, eq_iff n x, eq_iff d x, ap st, v.started x d);
      blocked_sound = λ n m b.
          Descendant-mono (graph_of dag) (ids_in dag st failed)
            (ids_in dag (update st x next) failed)
            (λ k q. ground (arith, ids_in-update next failed (was.2, is.1) k))
            (v.blocked_sound n m (ground (arith, eq_iff n x)));
      blocked_complete = λ n h. ground (
        arith,
        eq_iff n x,
        ap st,
        v.blocked_complete n (
            Descendant-mono (graph_of dag) (ids_in dag (update st x next) failed)
              (ids_in dag st failed)
              (λ k q. ground (arith, ids_in-update next failed (was.2, is.1) k)) h),
      );
    }

-- A ready task may start.
pub start-Consistent :
    (dag : TaskDag) (st : States) (x : TaskId)
    → Consistent dag st
    → st x ≡ ready
    → Consistent dag (update st x running)
start-Consistent dag st x v e = record {
  settled =
      update-Settled dag st x v.settled running (ground arith, ground arith, ground arith)
        (refl, refl);
  waiting = λ n m p.
      elim (Bool-cases
        (subset (depends_on dag.tasks n) (ids_in dag (update st x running) succeeded))) [
          | inl placed ↦ absurd (
              ground (
                arith,
                eq_iff n x,
                v.waiting n m,
                subset_mono (depends_on dag.tasks n) (ids_in dag (update st x running) succeeded)
                    (ids_in dag st succeeded)
                    (λ k q.
                      ground
                        (arith, ids_in-update dag st x running succeeded (ground arith, refl) k))
                    placed,
              ))
          | inr open_dependency ↦ open_dependency
        ];
}
