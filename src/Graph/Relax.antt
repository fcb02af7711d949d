-- ===== src/Graph/Relax.antt =====
-- One round of the loop of topological_order: what it does to the degrees and to the heap.
use muti_agent.Prelude.{
  ℕ, ◌-◌, ◌<◌, ◌≡◌, refl, true, false, not, ◌&&◌, ◌||◌, List, [], ◌∷◌, ◌++◌, foldl, ◌==◌,
  if◌then◌else◌, String_eq, Nat_eq, length, elem, distinct, select, arith, elem-append,
}
use text.Mathlib.TextEquality.{eq_iff}
use muti_agent.Graph.{TaskId, Kahn, relax}

-- How many of `ds` are not in `done`.
abbrev pub unmet : List TaskId → List TaskId → ℕ
unmet ds done = length (select (λ d. not (elem d done)) ds)

unmet-snoc_absent :
    (ds done : List TaskId) (k : TaskId)
    → elem k ds ≡ false
    → unmet ds (done ++ k ∷ []) ≡ unmet ds done
unmet-snoc_absent [] done k n = refl
unmet-snoc_absent (d ∷ ds) done k n =
    ground (arith, unmet-snoc_absent ds done k, elem-append d done (k ∷ []), eq_iff d k, eq_iff k d)

pub unmet-pos :
    (ds done : List TaskId) (k : TaskId)
    → elem k ds ≡ true
    → elem k done ≡ false
    → 0 < unmet ds done
unmet-pos [] done k p q = ground arith
unmet-pos (d ∷ ds) done k p q = ground (arith, unmet-pos ds done k, eq_iff k d)

pub unmet-zero :
    (ds done : List TaskId)
    → ((d : TaskId) → elem d ds ≡ true → elem d done ≡ true)
    → unmet ds done ≡ 0
unmet-zero [] done h = refl
unmet-zero (d ∷ ds) done h =
    ground (arith, h d, eq_iff d d, unmet-zero ds done (λ e m. h e (ground arith)))

pub unmet-snoc :
    (ds done : List TaskId) (k : TaskId)
    → distinct ds ≡ true
    → elem k done ≡ false
    → unmet ds (done ++ k ∷ []) ≡ (if elem k ds then unmet ds done - 1 else unmet ds done)
unmet-snoc [] done k dist n = refl
unmet-snoc (d ∷ ds) done k dist n = ground (
  arith,
  unmet-snoc ds done k,
  unmet-snoc_absent ds done k,
  elem-append d done (k ∷ []),
  eq_iff d k,
  eq_iff k d,
  unmet-pos ds done k,
)

pub indegree-relax :
    (ds : List TaskId) (s : Kahn) (n : TaskId)
    → distinct ds ≡ true
    → (foldl relax s ds).indegree n ≡ (if elem n ds then s.indegree n - 1 else s.indegree n)
unfolding relax
indegree-relax [] s n d = refl
indegree-relax (x ∷ ds) s n d = ground (arith, indegree-relax ds (relax s x) n, eq_iff n x)

pub elem-ready-relax :
    (ds : List TaskId) (s : Kahn) (n : TaskId)
    → distinct ds ≡ true
    → elem n (foldl relax s ds).ready ≡ (elem n s.ready || elem n ds && s.indegree n == 1)
unfolding relax
elem-ready-relax [] s n d = ground arith
elem-ready-relax (x ∷ ds) s n d = ground (arith, elem-ready-relax ds (relax s x) n, eq_iff n x)

pub distinct-ready-relax :
    (ds : List TaskId) (s : Kahn)
    → distinct ds ≡ true
    → distinct s.ready ≡ true
    → ((n : TaskId) → elem n ds ≡ true → elem n s.ready ≡ false)
    → distinct (foldl relax s ds).ready ≡ true
unfolding relax
distinct-ready-relax [] s d r fresh = r
distinct-ready-relax (x ∷ ds) s d r fresh =
    distinct-ready-relax ds (relax s x) (ground arith) (ground (arith, fresh x, eq_iff x x)) inner
  where
    inner : (n : TaskId) → elem n ds ≡ true → elem n (relax s x).ready ≡ false
    inner n m = ground (arith, fresh n, eq_iff n x)

pub ordered-relax : (ds : List TaskId) (s : Kahn) → (foldl relax s ds).ordered ≡ s.ordered
unfolding relax
ordered-relax [] s = refl
ordered-relax (x ∷ ds) s = ordered-relax ds (relax s x)
