-- ===== src/Graph/Blocked.antt =====
-- The loop of blocked_task_ids finds exactly the descendants of the failed tasks.
use muti_agent.Prelude.{
  ℕ, zero, suc, ◌+◌, ◌≤◌, ◌≡◌, inl, inr, refl, ap, ◌∙◌, Bool, Bool-cases, true, false, not, ◌&&◌,
  ◌||◌, List, [], ◌∷◌, ◌++◌, foldl, ◌==◌, String_eq, length, elem, distinct, arith, elem-append,
  sorted, elem-sorted, length-sorted, distinct-snoc, distinct-append, length-append,
  length-le_of_subset, List-cases,
}
use text.Mathlib.TextEquality.{eq_iff}
use muti_agent.Graph.{TaskId, Graph, IsGraph, Search, offer, expand, spread, run_spread}

-- `x` depends on a failed task, directly or through others.
pub data Descendant (g : Graph) (failed : List TaskId) : TaskId → Type 0 where
  child :
      {x : TaskId} (d : TaskId)
      → elem d failed ≡ true
      → elem d (g.deps x) ≡ true
      → Descendant g failed x
  further :
      {x : TaskId} (d : TaskId)
      → Descendant g failed d
      → elem d (g.deps x) ≡ true
      → Descendant g failed x

module _ (failed : List TaskId) where
  elem-blocked-offer :
      (ds : List TaskId) (s : Search) (n : TaskId)
      → elem n (foldl (offer failed) s ds).blocked
        ≡ (elem n s.blocked || elem n ds && not (elem n failed))
  unfolding offer
  elem-blocked-offer [] s n = ground arith
  elem-blocked-offer (d ∷ ds) s n = ground (
    arith,
    elem-blocked-offer ds (offer failed s d) n,
    elem-append n s.blocked (d ∷ []),
    eq_iff n d,
  )

  elem-queue-offer :
      (ds : List TaskId) (s : Search) (n : TaskId)
      → elem n (foldl (offer failed) s ds).queue
        ≡ (elem n s.queue || elem n ds && not (elem n failed) && not (elem n s.blocked))
  unfolding offer
  elem-queue-offer [] s n = ground arith
  elem-queue-offer (d ∷ ds) s n = ground (
    arith,
    elem-queue-offer ds (offer failed s d) n,
    elem-append n s.blocked (d ∷ []),
    elem-append n s.queue (d ∷ []),
    eq_iff n d,
  )

  length-offer :
      (ds : List TaskId) (s : Search)
      → length (foldl (offer failed) s ds).queue + length s.blocked
        ≡ length s.queue + length (foldl (offer failed) s ds).blocked
  unfolding offer
  length-offer [] s = refl
  length-offer (d ∷ ds) s = ground (
    arith,
    length-offer ds (offer failed s d),
    length-append s.blocked (d ∷ []),
    length-append s.queue (d ∷ []),
  )

  distinct-offer :
      (ds : List TaskId) (s : Search)
      → distinct s.blocked ≡ true
      → distinct (foldl (offer failed) s ds).blocked ≡ true
  unfolding offer
  distinct-offer [] s h = h
  distinct-offer (d ∷ ds) s h =
      distinct-offer ds (offer failed s d) (ground (arith, distinct-snoc s.blocked d))

module _ (g : Graph) (laws : IsGraph g) (failed : List TaskId) where
  record Inv (s : Search) : Type 0 where
    queue_seen : (n : TaskId) → elem n s.queue ≡ true → (elem n failed || elem n s.blocked) ≡ true
    blocked_fresh : (n : TaskId) → elem n s.blocked ≡ true → elem n failed ≡ false
    blocked_sound : (n : TaskId) → elem n s.blocked ≡ true → Descendant g failed n
    blocked_known : (n : TaskId) → elem n s.blocked ≡ true → elem n g.ids ≡ true
    blocked_distinct : distinct s.blocked ≡ true
    closed :
        (d x : TaskId)
        → (elem d failed || elem d s.blocked) ≡ true
        → elem d s.queue ≡ false
        → elem d (g.deps x) ≡ true
        → (elem x failed || elem x s.blocked) ≡ true

  abbrev seen : Search → TaskId → Bool
  seen s n = elem n failed || elem n s.blocked

  module _ (s : Search) (v : Inv s) (x : TaskId) (rest : List TaskId)
      (popped : (n : TaskId) → elem n s.queue ≡ (n == x || elem n rest)) where
    abbrev next : List TaskId
    next = sorted (g.dependents x)

    abbrev after : Search
    after = foldl (offer failed) (record s { queue = rest }) next

    elem-next : (n : TaskId) → elem n next ≡ elem x (g.deps n)
    elem-next n = elem-sorted n (g.dependents x) ∙ laws.dependents_deps x n

    elem-after :
        (n : TaskId)
        → elem n after.blocked ≡ (elem n s.blocked || elem x (g.deps n) && not (elem n failed))
    elem-after n =
        ground (arith, elem-blocked-offer failed next (record s { queue = rest }) n, elem-next n)

    elem-after_queue :
        (n : TaskId)
        → elem n after.queue
          ≡ (elem n rest || elem x (g.deps n) && not (elem n failed) && not (elem n s.blocked))
    elem-after_queue n =
        ground (arith, elem-queue-offer failed next (record s { queue = rest }) n, elem-next n)

    x_seen : seen s x ≡ true
    x_seen = v.queue_seen x (ground (arith, popped x, eq_iff x x))

    descend : (n : TaskId) → elem x (g.deps n) ≡ true → Descendant g failed n
    descend n m = elim (Bool-cases (elem x failed)) [
      | inl y ↦ child x y m
      | inr absent ↦ further x (v.blocked_sound x (ground (arith, x_seen))) m
    ]

    after_sound : (n : TaskId) → elem n after.blocked ≡ true → Descendant g failed n
    after_sound n m = elim (Bool-cases (elem n s.blocked)) [
      | inl old ↦ v.blocked_sound n old
      | inr new ↦ descend n (ground (arith, elem-after n))
    ]

    after-Inv : Inv after
    after-Inv = record {
      queue_seen =
          λ n m. ground (arith, elem-after n, elem-after_queue n, popped n, v.queue_seen n);
      blocked_fresh = λ n m. ground (arith, elem-after n, v.blocked_fresh n);
      blocked_sound = after_sound;
      blocked_known =
          λ n m. ground (arith, elem-after n, v.blocked_known n, laws.deps_of_known n x);
      blocked_distinct = distinct-offer failed next (record s { queue = rest }) v.blocked_distinct;
      closed = λ d n h q m. ground (
        arith,
        elem-after d,
        elem-after_queue d,
        elem-after n,
        popped d,
        v.closed d n,
        eq_iff d x,
      );
    }

  expand-Inv :
      (s : Search) (x : TaskId) (rest : List TaskId)
      → s.queue ≡ x ∷ rest
      → Inv s
      → Inv (expand g failed s x rest)
  unfolding expand
  expand-Inv s x rest e v = after-Inv s v x rest (λ n. rw e refl)

  length-expand :
      (s : Search) (x : TaskId) (rest : List TaskId)
      → length (expand g failed s x rest).queue + length s.blocked
        ≡ length rest + length (expand g failed s x rest).blocked
  unfolding expand
  length-expand s x rest = length-offer failed (sorted (g.dependents x)) (record s { queue = rest })

  module _ (failed_distinct : distinct failed ≡ true)
      (failed_known : (n : TaskId) → elem n failed ≡ true → elem n g.ids ≡ true) where
    Inv-length : (s : Search) → Inv s → length failed + length s.blocked ≤ length g.ids
    Inv-length s v = omega (
      arith,
      length-append failed s.blocked,
      length-le_of_subset (failed ++ s.blocked) g.ids
          (distinct-append failed s.blocked failed_distinct v.blocked_distinct v.blocked_fresh)
          laws.ids_distinct
          (λ n m.
            ground (arith, elem-append n failed s.blocked, failed_known n, v.blocked_known n)),
    )

    spread-Inv :
        (fuel : ℕ) (s : Search)
        → Inv s
        → length s.queue + length g.ids ≤ length failed + length s.blocked + fuel
        → Inv (spread g failed fuel s) × ((spread g failed fuel s).queue ≡ [])
    unfolding spread
    spread-Inv zero s v h = elim (List-cases s.queue) [
      | inl e ↦ (v, e)
      | inr (x, xs, e) ↦ absurd (omega (arith, Inv-length s v, ap length e))
    ]
    spread-Inv (suc fuel) s v h = elim (List-cases s.queue) [
      | inl e ↦ rw (e, spread) (v, e)
      | inr (x, xs, e) ↦
          rw (e, spread)
            (spread-Inv fuel (expand g failed s x xs) (expand-Inv s x xs e v)
              (omega (arith, length-expand s x xs, ap length e)))
    ]

    run-Inv : Inv (run_spread g failed) × ((run_spread g failed).queue ≡ [])
    unfolding run_spread
    run-Inv =
        spread-Inv (length g.ids) (record { blocked = []; queue = sorted failed })
          (record {
            queue_seen = λ n m. ground (arith, elem-sorted n failed);
            blocked_fresh = λ n m. ground arith;
            blocked_sound = λ n m. absurd (ground arith);
            blocked_known = λ n m. ground arith;
            blocked_distinct = refl;
            closed = λ d x h q m. ground (arith, elem-sorted d failed);
          })
          (omega (arith, length-sorted failed))

    -- The ids that the loop collects are the descendants that did not fail themselves.
    pub blocked_fresh :
        (n : TaskId) → elem n (run_spread g failed).blocked ≡ true → elem n failed ≡ false
    blocked_fresh = run-Inv.0.blocked_fresh

    pub blocked_known :
        (n : TaskId) → elem n (run_spread g failed).blocked ≡ true → elem n g.ids ≡ true
    blocked_known = run-Inv.0.blocked_known

    pub blocked_sound :
        (n : TaskId) → elem n (run_spread g failed).blocked ≡ true → Descendant g failed n
    blocked_sound = run-Inv.0.blocked_sound

    closed_end :
        (d x : TaskId)
        → seen (run_spread g failed) d ≡ true
        → elem d (g.deps x) ≡ true
        → seen (run_spread g failed) x ≡ true
    closed_end d x h m = run-Inv.0.closed d x h (ap (elem d) run-Inv.1) m

    pub blocked_complete :
        {n : TaskId}
        → Descendant g failed n
        → (elem n failed || elem n (run_spread g failed).blocked) ≡ true
    blocked_complete {n} (child d h m) = closed_end d n (ground arith) m
    blocked_complete {n} (further d h m) = closed_end d n (blocked_complete h) m
