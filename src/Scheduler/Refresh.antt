-- ===== src/Scheduler/Refresh.antt =====
-- _refresh_ready succeeds on settled states and makes them consistent.
use muti_agent.Prelude.{
  String, String_eq, ◌==◌, ◌≡◌, ◌↔◌, ◌⊎◌, refl, ap, sym, true, false, ◌&&◌, List, [], ◌∷◌, ◌++◌,
  any, subset, all-elim, all-intro, any-intro_false, elem, distinct, distinct-select, if◌then◌else◌,
  arith, inl, inr, Bool-cases,
}
use text.Mathlib.TextEquality.{eq_iff}
use muti_agent.Result.{ok}
use muti_agent.Graph.{TaskId, update}
use muti_agent.Dag.{TaskDag, task_ids, graph_of, depends_on, topological_order}
use muti_agent.Dag.Facts.{IsDag, graph_of-IsGraph}
use muti_agent.Dag.Order.{graph_of-ids, graph_of-deps}
use muti_agent.Dag.Blocked.{ready_task_ids-ok, ready_task_ids_iff}
use muti_agent.Scheduler.{
  TaskScheduleState, pending, ready, succeeded, failed, State_eq, same_state_iff, allowed,
  DagScheduler, event, query, require_task, transition, promote_all, refresh_ready,
  task_ids_with_state,
}
use muti_agent.Scheduler.Consistent.{
  States, ids_in, elem-ids_in, is_started, Settled, Consistent, Consistent-ext, Descendant-mono,
  subset_mono,
}

-- The object after an allowed transition.
abbrev pub moved : DagScheduler → TaskId → TaskScheduleState → String → DagScheduler
moved s task_id next detail = record s {
  states = update s.states task_id next;
  events = s.events ++ event s task_id next detail ∷ [];
}

pub transition-ok :
    (s : DagScheduler) (x : TaskId) (next : TaskScheduleState) (detail : String)
    → elem x (task_ids s.dag) ≡ true
    → allowed (s.states x) next ≡ true
    → transition s x next detail ≡ ok (moved s x next detail)
unfolding transition require_task
transition-ok s x next detail m a = ground arith

abbrev promoted : States → List TaskId → States
promoted st xs n = if elem n xs && st n == pending then ready else st n

promote_all-ok :
    (detail : String) (s : DagScheduler) (xs : List TaskId)
    → subset xs (task_ids s.dag) ≡ true
    → (t : DagScheduler) × (promote_all detail s xs ≡ ok t)
      × (t.dag ≡ s.dag)
      × ((n : TaskId) → t.states n ≡ promoted s.states xs n)
unfolding promote_all
promote_all-ok detail s [] h = (s, refl, refl, λ n. refl)
promote_all-ok detail s (x ∷ xs) h = elim (Bool-cases (s.states x == pending)) [
  | inl waits ↦
      let (t, e, d, p) = promote_all-ok detail (moved s x ready detail) xs (ground arith) in
      (
        t,
        rw (waits, transition-ok s x ready detail (ground arith) (ground arith)) e,
        d,
        λ n. ground (arith, p n, eq_iff n x),
      )
  | inr other ↦
      let (t, e, d, p) = promote_all-ok detail s xs (ground arith) in
      (t, rw other e, d, λ n. ground (arith, p n, eq_iff n x, ap s.states))
]

module _ (dag : TaskDag) (st : States) (v : Settled dag st) (found : List TaskId)
    (found_iff : (n : TaskId)
      → (elem n found ≡ true) ↔ (
          (elem n (task_ids dag) ≡ true)
          × (elem n (ids_in dag st succeeded) ≡ false)
          × (elem n (ids_in dag st failed) ≡ false)
          × (subset (depends_on dag.tasks n) (ids_in dag st succeeded) ≡ true))) where
  abbrev su : States
  su = promoted st found

  same_ids :
      (state : TaskScheduleState) (n : TaskId)
      → (state == pending) ≡ false
      → (state == ready) ≡ false
      → elem n (ids_in dag su state) ≡ elem n (ids_in dag st state)
  same_ids state n a b = ground (arith, elem-ids_in dag su state n, elem-ids_in dag st state n)

  su-started :
      (n d : TaskId)
      → elem n (task_ids dag) ≡ true
      → is_started (su n) ≡ true
      → elem d (depends_on dag.tasks n) ≡ true
      → su d ≡ succeeded
  su-started n d m h e = elim (Bool-cases (st n == pending)) [
    | inl waits ↦
        let placed = ((found_iff n).0 (ground arith)).3 in
        ground (
          arith,
          all-elim (λ k. elem k (ids_in dag st succeeded)) (depends_on dag.tasks n) d placed e,
          elem-ids_in dag st succeeded d,
          same_state_iff (st d) succeeded,
        )
    | inr other ↦ ground (arith, v.started n d m (ground arith) e)
  ]

  su-waiting :
      (n : TaskId)
      → elem n (task_ids dag) ≡ true
      → su n ≡ pending
      → subset (depends_on dag.tasks n) (ids_in dag su succeeded) ≡ true
      → ⊥
  su-waiting n m p placed =
      let here =
        subset_mono (depends_on dag.tasks n) (ids_in dag su succeeded) (ids_in dag st succeeded)
          (λ k q. ground (arith, same_ids succeeded k refl refl)) placed in
      let waits : st n ≡ pending = ground (arith, same_state_iff (st n) pending) in
      let chosen : elem n found ≡ true = (found_iff n).1 (
        m,
        ground (arith, elem-ids_in dag st succeeded n),
        ground (arith, elem-ids_in dag st failed n),
        here,
      ) in
      ground arith

  promoted-Consistent : Consistent dag su
  promoted-Consistent = record {
    settled = record {
      started = su-started;
      blocked_sound = λ n m b.
          Descendant-mono (graph_of dag) (ids_in dag st failed) (ids_in dag su failed)
            (λ k q. ground (arith, same_ids failed k refl refl))
            (v.blocked_sound n m (ground arith));
      blocked_complete = λ n h. ground (
        arith,
        v.blocked_complete n (
            Descendant-mono (graph_of dag) (ids_in dag su failed) (ids_in dag st failed)
              (λ k q. ground (arith, same_ids failed k refl refl)) h),
      );
    };
    waiting = λ n m p.
        elim (Bool-cases (subset (depends_on dag.tasks n) (ids_in dag su succeeded))) [
          | inl placed ↦ absurd (su-waiting n m p placed)
          | inr open_dependency ↦ open_dependency
        ];
  }

-- What making tasks ready does to one state.
abbrev pub Promotes : TaskScheduleState → TaskScheduleState → Type 0
Promotes before after = (after ≡ before) ⊎ ((before ≡ pending) × (after ≡ ready))

promoted-Promotes :
    (st : States) (xs : List TaskId) (n : TaskId) → Promotes (st n) (promoted st xs n)
promoted-Promotes st xs n = elim (Bool-cases (elem n xs && st n == pending)) [
  | inl y ↦ inr (ground (arith, same_state_iff (st n) pending), rw y refl)
  | inr other ↦ inl (rw other refl)
]

subset-ids_in :
    (dag : TaskDag) (st : States) (state : TaskScheduleState)
    → subset (ids_in dag st state) (task_ids dag) ≡ true
subset-ids_in dag st state =
    all-intro (λ k. elem k (task_ids dag)) (ids_in dag st state)
      (λ k m. ground (arith, elem-ids_in dag st state k))

-- On settled states the scheduler makes the waiting tasks ready whose dependencies succeeded,
-- raises nothing, and ends in consistent states.
pub refresh_ready-ok :
    (s : DagScheduler) (detail : String) (order : List TaskId)
    → IsDag s.dag
    → topological_order s.dag ≡ ok order
    → Settled s.dag s.states
    → (t : DagScheduler) × (refresh_ready s detail ≡ ok t)
      × (t.dag ≡ s.dag)
      × Consistent s.dag t.states
      × ((n : TaskId) → Promotes (s.states n) (t.states n))
unfolding refresh_ready query task_ids_with_state
refresh_ready-ok s detail order v ordered settled =
    let (found, asked) =
      ready_task_ids-ok dag v order ordered done lost once known_done known_lost apart closed in
    let found_iff =
      ready_task_ids_iff dag v order ordered done lost once known_done known_lost found asked in
    let (t, e, d, p) =
      promote_all-ok detail s found
        (all-intro (λ k. elem k (task_ids dag)) found (λ k m. ((found_iff k).0 m).0)) in
    (
      t,
      rw asked e,
      d,
      Consistent-ext dag (promoted st found) t.states (λ n. sym (p n))
          (promoted-Consistent dag st settled found found_iff),
      λ n. rw (p n) (promoted-Promotes st found n),
    )
  where
    open s use {dag, states as st}

    done : List TaskId
    done = ids_in dag st succeeded

    lost : List TaskId
    lost = ids_in dag st failed

    once : distinct lost ≡ true
    once = distinct-select (λ x. st x == failed) (task_ids dag) v.ids_distinct

    known_done : subset done (task_ids dag) ≡ true
    known_done = subset-ids_in dag st succeeded

    known_lost : subset lost (task_ids dag) ≡ true
    known_lost = subset-ids_in dag st failed

    apart : any (λ k. elem k lost) done ≡ false
    apart =
        any-intro_false (λ k. elem k lost) done
          (λ k m. ground (arith, elem-ids_in dag st succeeded k, elem-ids_in dag st failed k))

    closed :
        (n d : TaskId)
        → elem n done ≡ true
        → elem d ((graph_of dag).deps n) ≡ true
        → elem d done ≡ true
    closed n d m e = ground (
      arith,
      elem-ids_in dag st succeeded n,
      elem-ids_in dag st succeeded d,
      settled.started n d,
      graph_of-deps dag n,
      (graph_of-IsGraph dag v).deps_known n d e,
      ap (elem d) (graph_of-ids dag),
    )
