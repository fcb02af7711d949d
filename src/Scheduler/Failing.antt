-- ===== src/Scheduler/Failing.antt =====
-- The assignments of `fail`, on the states.
use muti_agent.Prelude.{
  String_eq, ◌==◌, ◌≡◌, ◌↔◌, ap, true, false, not, ◌&&◌, ◌||◌, List, [], ◌∷◌, subset, elem, set_add,
  elem-append, if◌then◌else◌, arith, inl, inr, Bool-cases,
}
use text.Mathlib.TextEquality.{eq_iff}
use muti_agent.Graph.{TaskId, update}
use muti_agent.Graph.Blocked.{Descendant, child, further}
use muti_agent.Dag.{TaskDag, task_ids, graph_of, depends_on}
use muti_agent.Dag.Order.{graph_of-deps}
use muti_agent.Scheduler.{
  pending, running, succeeded, failed, blocked, State_eq, same_state_iff, is_blockable,
}
use muti_agent.Scheduler.Consistent.{
  States, ids_in, elem-ids_in, is_started, Consistent, Descendant-mono, subset_mono,
}

-- The states after `fail`: `x` has failed, and the tasks behind it are blocked.
abbrev pub after_fail : States → TaskId → List TaskId → States
after_fail st x behind n = if not (elem n behind) then update st x failed n else blocked

module _ (dag : TaskDag) (st : States) (x : TaskId) (v : Consistent dag st) (was : st x ≡ running)
    (known : elem x (task_ids dag) ≡ true)
    (deps_known : (n d : TaskId)
      → elem d (depends_on dag.tasks n) ≡ true
      → elem n (task_ids dag) ≡ true) where
  abbrev pub failed_after : List TaskId
  failed_after = set_add x (ids_in dag st failed)

  pub elem-failed_after :
      (n : TaskId) → elem n failed_after ≡ (n == x || elem n (task_ids dag) && st n == failed)
  elem-failed_after n = ground (
    arith,
    elem-append n (ids_in dag st failed) (x ∷ []),
    elem-ids_in dag st failed n,
    elem-ids_in dag st failed x,
    eq_iff n x,
  )

  -- No task behind a failed one has started.
  pub Descendant-idle :
      {n : TaskId}
      → Descendant (graph_of dag) failed_after n
      → (elem n (task_ids dag) ≡ true) × (is_blockable (st n) ≡ true)
  unfolding is_blockable
  Descendant-idle {n} (child d f e) =
      let m = deps_known n d (rw graph_of-deps at e) in
      (
        m,
        ground (
          arith,
          elem-failed_after d,
          eq_iff d x,
          ap st,
          v.started n d m,
          same_state_iff (st d) failed,
          ap (elem d) (graph_of-deps dag n),
        ),
      )
  Descendant-idle {n} (further d f e) =
      let m = deps_known n d (rw graph_of-deps at e) in
      (m, ground (arith, Descendant-idle f, v.started n d m, ap (elem d) (graph_of-deps dag n)))

  module _ (behind : List TaskId)
      (behind_iff : (n : TaskId)
        → (elem n behind ≡ true)
          ↔ ((elem n failed_after ≡ false) × Descendant (graph_of dag) failed_after n)) where
    abbrev su : States
    su = after_fail st x behind

    behind-idle : (n : TaskId) → elem n behind ≡ true → is_blockable (st n) ≡ true
    behind-idle n m = (Descendant-idle ((behind_iff n).0 m).1).1

    elem-lost : (n : TaskId) → elem n (ids_in dag su failed) ≡ elem n failed_after
    unfolding is_blockable
    elem-lost n =
        ground (
          arith,
          elem-ids_in dag su failed n,
          elem-failed_after n,
          eq_iff n x,
          known,
          behind-idle n,
        )

    elem-done : (n : TaskId) → elem n (ids_in dag su succeeded) ≡ elem n (ids_in dag st succeeded)
    unfolding is_blockable
    elem-done n = ground (
      arith,
      elem-ids_in dag su succeeded n,
      elem-ids_in dag st succeeded n,
      eq_iff n x,
      ap st,
      behind-idle n,
    )

    su-started :
        (n d : TaskId)
        → elem n (task_ids dag) ≡ true
        → is_started (su n) ≡ true
        → elem d (depends_on dag.tasks n) ≡ true
        → su d ≡ succeeded
    unfolding is_blockable
    su-started n d m h e =
        ground (arith, v.started n d m, v.started x d, behind-idle d, eq_iff n x, eq_iff d x, ap st)

    to_lost :
        {n : TaskId}
        → Descendant (graph_of dag) failed_after n
        → Descendant (graph_of dag) (ids_in dag su failed) n
    to_lost h =
        Descendant-mono (graph_of dag) failed_after (ids_in dag su failed)
          (λ k q. ground (arith, elem-lost k)) h

    su-blocked_sound :
        (n : TaskId)
        → elem n (task_ids dag) ≡ true
        → su n ≡ blocked
        → Descendant (graph_of dag) (ids_in dag su failed) n
    su-blocked_sound n m b = elim (Bool-cases (elem n behind)) [
      | inl y ↦ to_lost ((behind_iff n).0 y).1
      | inr other ↦ to_lost (
          Descendant-mono (graph_of dag) (ids_in dag st failed) failed_after
            (λ k q. ground (arith, elem-failed_after k, elem-ids_in dag st failed k))
            (v.blocked_sound n m (ground (arith, eq_iff n x))))
    ]

    su-blocked_complete :
        (n : TaskId) → Descendant (graph_of dag) (ids_in dag su failed) n → su n ≡ blocked
    unfolding is_blockable
    su-blocked_complete n h =
        let back =
          Descendant-mono (graph_of dag) (ids_in dag su failed) failed_after
            (λ k q. ground (arith, elem-lost k)) h in
        let idle = Descendant-idle back in
        let fresh : elem n failed_after ≡ false =
          ground (arith, elem-failed_after n, eq_iff n x, ap st, idle) in
        ground (arith, (behind_iff n).1 (fresh, back))

    su-waiting :
        (n : TaskId)
        → elem n (task_ids dag) ≡ true
        → su n ≡ pending
        → subset (depends_on dag.tasks n) (ids_in dag su succeeded) ≡ false
    su-waiting n m p =
        elim (Bool-cases (subset (depends_on dag.tasks n) (ids_in dag su succeeded))) [
          | inl placed ↦ absurd (
              ground (
                arith,
                eq_iff n x,
                v.waiting n m,
                subset_mono (depends_on dag.tasks n) (ids_in dag su succeeded)
                    (ids_in dag st succeeded) (λ k q. ground (arith, elem-done k)) placed,
              ))
          | inr open_dependency ↦ open_dependency
        ]

    pub fail-Consistent : Consistent dag su
    fail-Consistent = record {
      settled = record {
        started = su-started;
        blocked_sound = su-blocked_sound;
        blocked_complete = su-blocked_complete;
      };
      waiting = su-waiting;
    }
