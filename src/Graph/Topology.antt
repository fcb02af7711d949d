-- ===== src/Graph/Topology.antt =====
-- The loop of topological_order: what holds between its rounds, and at its end.
use muti_agent.Prelude.{
  ℕ, zero, suc, ◌+◌, ◌-◌, ◌≤◌, ◌<◌, ◌≡◌, inl, inr, refl, sym, ap, List-cases, ◌∙◌, Bool, true,
  false, not, ◌&&◌, ◌||◌, List, [], ◌∷◌, ◌++◌, foldl, ◌==◌, if◌then◌else◌, String_eq, Nat_eq,
  length, elem, distinct, arith, elem-append, sorted, elem-sorted, distinct-sorted, heappop,
  elem-heappop, distinct-heappop, distinct-snoc, length-append, length-le_of_subset, elem_of_length,
  Bool-cases,
}
use text.Mathlib.TextEquality.{eq_iff}
use muti_agent.Graph.{
  TaskId, Graph, IsGraph, Kahn, relax, visit, drain, zero_degree, start, run_kahn,
}
use muti_agent.Graph.Relax.{
  unmet, unmet-pos, unmet-zero, unmet-snoc, indegree-relax, elem-ready-relax, distinct-ready-relax,
  ordered-relax,
}

-- The place of an id in a list, the length if it is not there.
abbrev pub position : TaskId → List TaskId → ℕ
position x [] = 0
position x (y ∷ ys) = if x == y then 0 else suc (position x ys)

module _ (g : Graph) where
  -- Each id stands behind its dependencies, or these are in `seen`.
  abbrev pub DepsFirst : List TaskId → List TaskId → Type 0
  DepsFirst seen [] = Unit {0}
  DepsFirst seen (x ∷ xs) =
      ((d : TaskId) → elem d (g.deps x) ≡ true → elem d seen ≡ true) × DepsFirst (x ∷ seen) xs

  -- Numbers that rise along each dependency: a graph has them just if it has no cycle.
  abbrev pub IsRank : (TaskId → ℕ) → Type 0
  IsRank rank = (x d : TaskId) → elem d (g.deps x) ≡ true → rank d < rank x

  -- An id is in the heap just if it waits and all that it depends on is placed.
  abbrev is_free : List TaskId → TaskId → Bool
  is_free ordered n = elem n g.ids && not (elem n ordered) && unmet (g.deps n) ordered == 0

  record Inv (s : Kahn) : Type 0 where
    degrees : (n : TaskId) → s.indegree n ≡ unmet (g.deps n) s.ordered
    heap : (n : TaskId) → elem n s.ready ≡ is_free s.ordered n
    heap_distinct : distinct s.ready ≡ true
    ordered_distinct : distinct s.ordered ≡ true
    ordered_known : (n : TaskId) → elem n s.ordered ≡ true → elem n g.ids ≡ true
    ordered_closed : (n : TaskId) → elem n s.ordered ≡ true → unmet (g.deps n) s.ordered ≡ 0
    ordered_sorted : DepsFirst [] s.ordered

  DepsFirst-snoc :
      (seen xs : List TaskId) (y : TaskId)
      → DepsFirst seen xs
      → ((d : TaskId) → elem d (g.deps y) ≡ true → (elem d seen || elem d xs) ≡ true)
      → DepsFirst seen (xs ++ y ∷ [])
  DepsFirst-snoc seen [] y h last = (λ d m. ground (arith, last d m), tt)
  DepsFirst-snoc seen (x ∷ xs) y h last =
      (h.0, DepsFirst-snoc (x ∷ seen) xs y h.1 (λ d m. ground (arith, last d m)))

  unmet-elem :
      (ds done : List TaskId) (d : TaskId)
      → unmet ds done ≡ 0
      → elem d ds ≡ true
      → elem d done ≡ true
  unmet-elem ds done d z m = elim (Bool-cases (elem d done)) [
    | inl y ↦ y
    | inr n ↦ absurd (omega (arith, unmet-pos ds done d m n))
  ]

  module _ (laws : IsGraph g) where
    abbrev next : TaskId → List TaskId
    next x = sorted (g.dependents x)

    elem-next : (x n : TaskId) → elem n (next x) ≡ elem x (g.deps n)
    elem-next x n = elem-sorted n (g.dependents x) ∙ laws.dependents_deps x n

    distinct-next : (x : TaskId) → distinct (next x) ≡ true
    distinct-next x = distinct-sorted (g.dependents x) (laws.dependents_distinct x)

    -- The round, with what `heappop` gave.
    module _ (s : Kahn) (v : Inv s) (x : TaskId) (rest : List TaskId)
        (popped : (n : TaskId) → elem n s.ready ≡ (n == x || elem n rest))
        (rest_distinct : distinct (x ∷ rest) ≡ true) where
      abbrev popped_state : Kahn
      popped_state = record s { ready = rest; ordered = s.ordered ++ x ∷ [] }

      abbrev after : Kahn
      after = foldl relax popped_state (next x)

      x_free : is_free s.ordered x ≡ true
      x_free = ground (arith, popped x, v.heap x, eq_iff x x)

      x_unmet : unmet (g.deps x) s.ordered ≡ 0
      x_unmet = ground (arith, x_free)

      x_fresh : elem x s.ordered ≡ false
      x_fresh = ground (arith, x_free)

      after_ordered : after.ordered ≡ s.ordered ++ x ∷ []
      after_ordered = ordered-relax (next x) popped_state

      unmet-after :
          (n : TaskId)
          → unmet (g.deps n) (s.ordered ++ x ∷ []) ≡ (
              if elem x (g.deps n)
              then unmet (g.deps n) s.ordered - 1
              else unmet (g.deps n) s.ordered)
      unmet-after n = unmet-snoc (g.deps n) s.ordered x (laws.deps_distinct n) x_fresh

      after-degrees : (n : TaskId) → after.indegree n ≡ unmet (g.deps n) (s.ordered ++ x ∷ [])
      after-degrees n = ground (
        arith,
        indegree-relax (next x) popped_state n (distinct-next x),
        elem-next x n,
        unmet-after n,
        v.degrees n,
      )

      after-heap : (n : TaskId) → elem n after.ready ≡ is_free (s.ordered ++ x ∷ []) n
      after-heap n = ground (
        arith,
        elem-ready-relax (next x) popped_state n (distinct-next x),
        elem-next x n,
        unmet-after n,
        unmet-pos (g.deps n) s.ordered x,
        v.degrees n,
        v.heap n,
        popped n,
        eq_iff n x,
        x_fresh,
        x_unmet,
        elem-append n s.ordered (x ∷ []),
        laws.deps_of_known n x,
        rest_distinct,
        v.ordered_closed n,
      )

      after-known : (n : TaskId) → elem n (s.ordered ++ x ∷ []) ≡ true → elem n g.ids ≡ true
      after-known n m =
          ground (arith, elem-append n s.ordered (x ∷ []), v.ordered_known n, x_free, eq_iff n x)

      after-closed :
          (n : TaskId)
          → elem n (s.ordered ++ x ∷ []) ≡ true
          → unmet (g.deps n) (s.ordered ++ x ∷ []) ≡ 0
      after-closed n m = ground (
        arith,
        elem-append n s.ordered (x ∷ []),
        v.ordered_closed n,
        unmet-after n,
        x_unmet,
        eq_iff n x,
      )

      fresh-next : (n : TaskId) → elem n (next x) ≡ true → elem n rest ≡ false
      fresh-next n m =
          ground
            (arith, elem-next x n, popped n, v.heap n, unmet-pos (g.deps n) s.ordered x, x_fresh)

      after-Inv : Inv after
      after-Inv = record {
        degrees = λ n. rw after_ordered (after-degrees n);
        heap = λ n. rw after_ordered (after-heap n);
        heap_distinct =
            distinct-ready-relax (next x) popped_state (distinct-next x) (ground arith) fresh-next;
        ordered_distinct = rw after_ordered (distinct-snoc s.ordered x v.ordered_distinct x_fresh);
        ordered_known = rw after_ordered after-known;
        ordered_closed = rw after_ordered after-closed;
        ordered_sorted = rw after_ordered (
            DepsFirst-snoc [] s.ordered x v.ordered_sorted
              (λ d m. unmet-elem (g.deps x) s.ordered d x_unmet m));
      }

    visit-Inv :
        (s : Kahn) (x : TaskId) (xs : List TaskId) → s.ready ≡ x ∷ xs → Inv s → Inv (visit g s x xs)
    unfolding visit
    visit-Inv s x xs e v =
        after-Inv s v (heappop x xs).0 (heappop x xs).1 (λ n. rw e (elem-heappop n x xs))
          (distinct-heappop x xs (rw e at v.heap_distinct))

    length-visit :
        (s : Kahn) (x : TaskId) (xs : List TaskId)
        → length (visit g s x xs).ordered ≡ suc (length s.ordered)
    unfolding visit
    length-visit s x xs =
        let (least, rest) = heappop x xs in
        rw
          (ordered-relax (next least)
            (record s { ready = rest; ordered = s.ordered ++ least ∷ [] }))
          (omega (arith, length-append s.ordered (least ∷ [])))

    Inv-length : (s : Kahn) → Inv s → length s.ordered ≤ length g.ids
    Inv-length s v =
        length-le_of_subset s.ordered g.ids v.ordered_distinct laws.ids_distinct v.ordered_known

    -- Enough rounds empty the heap.
    drain-Inv :
        (fuel : ℕ) (s : Kahn)
        → Inv s
        → length g.ids ≤ length s.ordered + fuel
        → Inv (drain g fuel s) × ((drain g fuel s).ready ≡ [])
    unfolding drain
    drain-Inv zero s v h = elim (List-cases s.ready) [
      | inl e ↦ (v, e)
      | inr (x, xs, e) ↦
          absurd
            (omega (arith, length-visit s x xs, Inv-length (visit g s x xs) (visit-Inv s x xs e v)))
    ]
    drain-Inv (suc fuel) s v h = elim (List-cases s.ready) [
      | inl e ↦ rw (e, drain) (v, e)
      | inr (x, xs, e) ↦
          rw (e, drain)
            (drain-Inv fuel (visit g s x xs) (visit-Inv s x xs e v)
              (omega (arith, length-visit s x xs)))
    ]

    unmet-nil : (ds : List TaskId) → unmet ds [] ≡ length ds
    unmet-nil [] = refl
    unmet-nil (d ∷ ds) = ap suc (unmet-nil ds)

    elem-zero_degree :
        (n : TaskId) (xs : List TaskId)
        → elem n (zero_degree g xs) ≡ (elem n xs && length (g.deps n) == 0)
    unfolding zero_degree
    elem-zero_degree n [] = refl
    elem-zero_degree n (x ∷ xs) = ground (arith, elem-zero_degree n xs, eq_iff n x)

    distinct-zero_degree :
        (xs : List TaskId) → distinct xs ≡ true → distinct (zero_degree g xs) ≡ true
    unfolding zero_degree
    distinct-zero_degree [] d = refl
    distinct-zero_degree (x ∷ xs) d = ground (arith, distinct-zero_degree xs, elem-zero_degree x xs)

    start-Inv : Inv (start g)
    unfolding start
    start-Inv = record {
      degrees = λ n. sym (unmet-nil (g.deps n));
      heap = λ n. ground (arith, elem-zero_degree n g.ids, unmet-nil (g.deps n));
      heap_distinct = distinct-zero_degree g.ids laws.ids_distinct;
      ordered_distinct = refl;
      ordered_known = λ n m. ground arith;
      ordered_closed = λ n m. ground arith;
      ordered_sorted = tt;
    }

    run-Inv : Inv (run_kahn g) × ((run_kahn g).ready ≡ [])
    unfolding run_kahn
    run-Inv = drain-Inv (length g.ids) (start g) start-Inv (omega arith)

    pub run_kahn-distinct : distinct (run_kahn g).ordered ≡ true
    run_kahn-distinct = run-Inv.0.ordered_distinct

    pub run_kahn-known : (n : TaskId) → elem n (run_kahn g).ordered ≡ true → elem n g.ids ≡ true
    run_kahn-known = run-Inv.0.ordered_known

    pub run_kahn-DepsFirst : DepsFirst [] (run_kahn g).ordered
    run_kahn-DepsFirst = run-Inv.0.ordered_sorted

    -- When the loop ends, no id waits whose dependencies are all placed.
    pub run_kahn-stuck :
        (n : TaskId)
        → elem n g.ids ≡ true
        → ((d : TaskId) → elem d (g.deps n) ≡ true → elem d (run_kahn g).ordered ≡ true)
        → elem n (run_kahn g).ordered ≡ true
    run_kahn-stuck n m h = ground (
      arith,
      run-Inv.0.heap n,
      unmet-zero (g.deps n) (run_kahn g).ordered h,
      ap (elem n) run-Inv.1,
    )

    module _ (rank : TaskId → ℕ) (up : IsRank rank) where
      ranked_below :
          (k : ℕ) (n : TaskId)
          → rank n < k
          → elem n g.ids ≡ true
          → elem n (run_kahn g).ordered ≡ true
      ranked_below zero n h m = elim h [ ]
      ranked_below (suc k) n h m =
          run_kahn-stuck n m
            (λ d e. ranked_below k d (omega (arith, up n d e)) (laws.deps_known n d e))

      -- Without a cycle every id is placed.
      pub run_kahn_all : length (run_kahn g).ordered ≡ length g.ids
      run_kahn_all = omega (
        arith,
        Inv-length (run_kahn g) run-Inv.0,
        length-le_of_subset g.ids (run_kahn g).ordered laws.ids_distinct run_kahn-distinct
            (λ n m. ranked_below (suc (rank n)) n (omega arith) m),
      )

    pub run_kahn_complete :
        length (run_kahn g).ordered ≡ length g.ids
        → (n : TaskId) → elem n g.ids ≡ true
        → elem n (run_kahn g).ordered ≡ true
    run_kahn_complete e n m =
        elem_of_length (run_kahn g).ordered g.ids run_kahn-distinct laws.ids_distinct run_kahn-known
          (omega arith) n m

  pub DepsFirst-position :
      (seen xs : List TaskId) (x d : TaskId)
      → DepsFirst seen xs
      → elem x xs ≡ true
      → elem d (g.deps x) ≡ true
      → elem d seen ≡ false
      → position d xs < position x xs
  DepsFirst-position seen [] x d h m e n = ground arith
  DepsFirst-position seen (y ∷ ys) x d h m e n = elim (Bool-cases (x == y)) [
    | inl here ↦ absurd (ground (arith, eq_iff x y, h.0 d, ap g.deps))
    | inr there ↦ ground (arith, DepsFirst-position (y ∷ seen) ys x d h.1, eq_iff x y)
  ]
