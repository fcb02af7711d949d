-- ===== src/Dag/Blocked.antt =====
-- blocked_task_ids and ready_task_ids against what they are to find.
use muti_agent.Prelude.{
  String_eq, Nat_eq, ◌≡◌, ◌↔◌, refl, ap, true, false, List, any, subset, all-elim, any-false,
  any-intro_false, elem, distinct, select, elem-select, distinct-select, arith, inl, inr,
  Bool-cases,
}
use muti_agent.Result.{ok}
use muti_agent.Graph.{TaskId, IsGraph, run_spread}
use muti_agent.Graph.Blocked.{
  Descendant, child, further, blocked_fresh, blocked_known, blocked_sound, blocked_complete,
}
use muti_agent.Dag.{
  TaskDag, task_ids, graph_of, depends_on, topological_order, validate_runtime_ids,
  blocked_task_ids, is_ready, ready_task_ids,
}
use muti_agent.Dag.Facts.{IsDag, graph_of-IsGraph}
use muti_agent.Dag.Order.{IsTopological, order-IsTopological, graph_of-ids}

-- A task set that the runtime may name.
abbrev pub Known : TaskDag → List TaskId → Type 0
Known dag ids = subset ids (task_ids dag) ≡ true

module _ (dag : TaskDag) (v : IsDag dag) (order : List TaskId)
    (ordered : topological_order dag ≡ ok order) where
  laws : IsGraph (graph_of dag)
  laws = graph_of-IsGraph dag v

  top : IsTopological dag order
  top = order-IsTopological dag order v ordered

  module _ (failed : List TaskId) (once : distinct failed ≡ true) (known : Known dag failed) where
    failed_known : (n : TaskId) → elem n failed ≡ true → elem n (graph_of dag).ids ≡ true
    unfolding graph_of
    failed_known n m = all-elim (λ k. elem k (task_ids dag)) failed n known m

    abbrev spread_over : List TaskId
    spread_over = (run_spread (graph_of dag) failed).blocked

    abbrev blocked_list : List TaskId
    blocked_list = select (λ n. elem n spread_over) order

    blocked-eq : blocked_task_ids dag failed ≡ ok blocked_list
    unfolding blocked_task_ids validate_runtime_ids
    blocked-eq = ground (arith, known, ordered)

    elem-blocked_list : (n : TaskId) → elem n blocked_list ≡ true → elem n spread_over ≡ true
    elem-blocked_list n m = ground (arith, elem-select (λ k. elem k spread_over) n order)

    Descendant-blocked :
        (n : TaskId)
        → elem n failed ≡ false
        → Descendant (graph_of dag) failed n
        → elem n blocked_list ≡ true
    Descendant-blocked n fresh d = ground (
      arith,
      blocked_complete (graph_of dag) laws failed once failed_known d,
      elem-select (λ k. elem k spread_over) n order,
      blocked_known (graph_of dag) laws failed once failed_known n,
      (top.all_tasks n).1,
      ap (elem n) (graph_of-ids dag),
    )

    -- On a validated graph with an order and for a duplicate-free list of known failed ids,
    -- blocked_task_ids returns a list without duplicates that holds exactly the tasks that are
    -- not failed themselves and depend on a failed task directly or through others.
    pub blocked_task_ids_correct :
        (blocked : List TaskId) × (blocked_task_ids dag failed ≡ ok blocked)
        × (distinct blocked ≡ true)
        × ((n : TaskId)
            → (elem n blocked ≡ true)
              ↔ ((elem n failed ≡ false) × Descendant (graph_of dag) failed n))
    blocked_task_ids_correct =
        (blocked_list, blocked-eq, distinct-select _ order top.once, λ n. (to n, from n))
      where
        to :
            (n : TaskId)
            → elem n blocked_list ≡ true
            → (elem n failed ≡ false) × Descendant (graph_of dag) failed n
        to n m =
            let found = elem-blocked_list n m in
            (
              blocked_fresh (graph_of dag) laws failed once failed_known n found,
              blocked_sound (graph_of dag) laws failed once failed_known n found,
            )

        from :
            (n : TaskId)
            → (elem n failed ≡ false) × Descendant (graph_of dag) failed n
            → elem n blocked_list ≡ true
        from n (fresh, d) = Descendant-blocked n fresh d

  module _ (completed failed : List TaskId) (once : distinct failed ≡ true)
      (completed_known : Known dag completed) (failed_is_known : Known dag failed) where
    abbrev deps : TaskId → List TaskId
    deps = (graph_of dag).deps

    abbrev stopped : List TaskId
    stopped = blocked_list failed once failed_is_known

    deps-eq : (n : TaskId) → deps n ≡ depends_on dag.tasks n
    unfolding graph_of
    deps-eq n = refl

    -- Sets that a run can reach: none is both, and what is completed had its dependencies completed.
    abbrev pub IsClosed : Type 0
    IsClosed =
        (n d : TaskId) → elem n completed ≡ true → elem d (deps n) ≡ true → elem d completed ≡ true

    ready-parts :
        (ready : List TaskId)
        → ready_task_ids dag completed failed ≡ ok ready
        → (any (λ n. elem n failed) completed ≡ false)
          × (any (λ n. elem n stopped) completed ≡ false)
          × (ready ≡ select (is_ready dag completed failed stopped) order)
    unfolding ready_task_ids validate_runtime_ids
    ready-parts ready h =
        ground
          (arith, blocked-eq failed once failed_is_known, ordered, completed_known, failed_is_known)

    not-completed-Descendant :
        {n : TaskId}
        → any (λ k. elem k failed) completed ≡ false
        → IsClosed
        → elem n completed ≡ true
        → ¬ Descendant (graph_of dag) failed n
    not-completed-Descendant {n} apart closed m (child d f e) =
        ground (arith, any-false (λ k. elem k failed) completed d apart, closed n d m e)
    not-completed-Descendant {n} apart closed m (further d f e) =
        not-completed-Descendant apart closed (closed n d m e) f

    not-completed-stopped :
        any (λ k. elem k failed) completed ≡ false
        → IsClosed
        → any (λ n. elem n stopped) completed ≡ false
    not-completed-stopped apart closed =
        any-intro_false (λ n. elem n stopped) completed
          λ n m. elim (Bool-cases (elem n stopped)) [
            | inl y ↦ absurd (
                not-completed-Descendant apart closed m (
                  blocked_sound (graph_of dag) laws failed once
                    (failed_known failed once failed_is_known) n
                    (elem-blocked_list failed once failed_is_known n y)))
            | inr other ↦ other
          ]

    -- The call succeeds on such sets.
    pub ready_task_ids-ok :
        any (λ k. elem k failed) completed ≡ false
        → IsClosed
        → (ready : List TaskId) × (ready_task_ids dag completed failed ≡ ok ready)
    unfolding ready_task_ids validate_runtime_ids
    ready_task_ids-ok apart closed = (
      select (is_ready dag completed failed stopped) order,
      ground (
        arith,
        blocked-eq failed once failed_is_known,
        ordered,
        completed_known,
        failed_is_known,
        not-completed-stopped apart closed,
      ),
    )

    not-stopped :
        (n : TaskId)
        → any (λ k. elem k failed) completed ≡ false
        → any (λ k. elem k stopped) completed ≡ false
        → subset (deps n) completed ≡ true
        → ¬ Descendant (graph_of dag) failed n
    not-stopped n apart free placed (child d f e) = ground (
      arith,
      any-false (λ k. elem k failed) completed d apart,
      all-elim (λ k. elem k completed) (deps n) d placed e,
    )
    not-stopped n apart free placed (further d f e) =
        let m = all-elim (λ k. elem k completed) (deps n) d placed e in
        ground (
          arith,
          any-false (λ k. elem k failed) completed d apart m,
          any-false (λ k. elem k stopped) completed d free m,
          Descendant-blocked failed once failed_is_known d
              (ground (arith, any-false (λ k. elem k failed) completed d apart m)) f,
        )

    -- On a validated graph with an order, when ready_task_ids returns for known completed ids
    -- and a duplicate-free list of known failed ids, a task id is in the answer exactly if it is
    -- in the graph, neither completed nor failed, and all its dependencies are completed.
    pub ready_task_ids_iff :
        (ready : List TaskId)
        → ready_task_ids dag completed failed ≡ ok ready
        → (n : TaskId)
        → (elem n ready ≡ true) ↔ (
            (elem n (task_ids dag) ≡ true)
            × (elem n completed ≡ false)
            × (elem n failed ≡ false)
            × (subset (depends_on dag.tasks n) completed ≡ true))
    unfolding is_ready
    ready_task_ids_iff ready h n =
        let (apart, free, e) = ready-parts ready h in
        let chosen = elem-select (is_ready dag completed failed stopped) n order in
        (
          λ m. ground (arith, chosen, (top.all_tasks n).0, ap (elem n) e),
          λ (in_dag, waiting, fine, placed). elim (Bool-cases (elem n stopped)) [
            | inl y ↦ absurd (
                not-stopped n apart free (rw (deps-eq n) placed) (
                  blocked_sound (graph_of dag) laws failed once
                    (failed_known failed once failed_is_known) n
                    (elem-blocked_list failed once failed_is_known n y)))
            | inr other ↦ ground (arith, chosen, (top.all_tasks n).1, ap (elem n) e)
          ],
        )
