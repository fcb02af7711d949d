-- ===== src/Scope/Checks.antt =====
-- ScopeEnforcer.check of backend/app/workspace/scope.py: which changes it lets through.
use muti_agent.Prelude.{
  beq_refl, all-intro, all-elim, all, distinct-snoc, elem-append, String, String_eq, ◌==◌, Bool,
  true, false, not, ◌&&◌, Option, none, some, List, [], ◌∷◌, any, elem, distinct, sorted,
  elem-sorted, distinct-sorted, ◌≡◌, ◌↔◌, refl, arith, Bool-cases, inl, inr,
}
use text.Mathlib.TextEquality.{eq_iff}
use muti_agent.Result.{ok, traverse, >>=-eq-ok}
use muti_agent.Contract.{TaskContract}
use muti_agent.Run.{is_nil}
use muti_agent.Scope.{
  matches, first_match, normalize_changed_path, ScopeCheckResult, check_paths, set_of, check,
  passed,
}

-- Some pattern matches the path.
abbrev pub covered : String → List String → Bool
covered path globs = any (matches path) globs

abbrev is_some : {A : Type 0} → Option A → Bool
is_some none = false
is_some (some _) = true

first_match-covered :
    (path : String) (globs : List String) → is_some (first_match path globs) ≡ covered path globs
unfolding first_match
first_match-covered path [] = refl
first_match-covered path (g ∷ gs) = ground (arith, first_match-covered path gs)

abbrev pub may_change : TaskContract → String → Bool
may_change task path = covered path task.writable_files && not (covered path task.readonly_files)

elem-set_of : (a : String) (xs : List String) → elem a (set_of xs) ≡ elem a xs
unfolding set_of
elem-set_of a [] = refl
elem-set_of a (x ∷ xs) =
    ground
      (arith, elem-set_of a xs, elem-set_of x xs, elem-append a (set_of xs) (x ∷ []), eq_iff a x)

distinct-set_of : (xs : List String) → distinct (set_of xs) ≡ true
unfolding set_of
distinct-set_of [] = refl
distinct-set_of (x ∷ xs) = ground (arith, distinct-set_of xs, distinct-snoc (set_of xs) x)

module _ (task : TaskContract) where
  allowed_iff :
      (path : String) (paths : List String)
      → elem path (check_paths task paths).0 ≡ (elem path paths && may_change task path)
  unfolding check_paths
  allowed_iff path [] = refl
  allowed_iff path (p ∷ ps) = ground (
    arith,
    allowed_iff path ps,
    first_match-covered p task.readonly_files,
    first_match-covered p task.writable_files,
    eq_iff path p,
  )

  violations_iff :
      (paths : List String) → is_nil (check_paths task paths).1 ≡ all (may_change task) paths
  unfolding check_paths
  violations_iff [] = refl
  violations_iff (p ∷ ps) = ground (
    arith,
    violations_iff ps,
    first_match-covered p task.readonly_files,
    first_match-covered p task.writable_files,
  )

-- check
pub check_correct :
    (task : TaskContract) (changed : List String) (r : ScopeCheckResult)
    → check task changed ≡ ok r
    → (distinct r.changed_files ≡ true)
      × ((path : String)
          → elem path r.allowed_files ≡ (elem path r.changed_files && may_change task path))
      × ((passed r ≡ true)
          ↔ ((path : String) → elem path r.changed_files ≡ true → may_change task path ≡ true))
unfolding check
check_correct task changed r h =
    let (normalized, done, rest) = >>=-eq-ok (traverse normalize_changed_path changed) _ h in
    let paths = sorted (set_of normalized) in
    let same : r ≡ record {
      changed_files = paths;
      allowed_files = (check_paths task paths).0;
      violations = (check_paths task paths).1;
    } =
      ground arith in
    (
      ground (arith, distinct-sorted (set_of normalized) (distinct-set_of normalized)),
      λ path. ground (arith, allowed_iff task path paths),
      (
        λ p path m.
            all-elim (may_change task) paths path (ground (arith, violations_iff task paths))
              (ground arith),
        λ each. ground (
          arith,
          violations_iff task paths,
          all-intro (may_change task) paths (λ path m. each path (ground arith)),
        ),
      ),
    )

changed-elem :
    (changed normalized : List String)
    → traverse normalize_changed_path changed ≡ ok normalized
    → (path : String) → elem path changed ≡ true
    → (p : String) × (normalize_changed_path path ≡ ok p) × (elem p normalized ≡ true)
unfolding traverse
changed-elem [] ns h path m = cc
changed-elem (c ∷ cs) ns h path m =
    let (n, first, h1) = >>=-eq-ok (normalize_changed_path c) _ h in
    let (rest, done, h2) = >>=-eq-ok (traverse normalize_changed_path cs) _ h1 in
    elim (Bool-cases (path == c)) [
      | inl same ↦ (n, ground (arith, eq_iff path c), ground (arith, beq_refl n))
      | inr differ ↦
          let (p, norm, there) = changed-elem cs rest done path (ground arith) in
          (p, norm, ground arith)
    ]

-- When check returns a result that passed for a task and a list of changed paths, each changed
-- path normalizes to a path that some writable pattern of the task matches and no read-only
-- pattern matches.
pub check-passed :
    (task : TaskContract) (changed : List String) (r : ScopeCheckResult)
    → check task changed ≡ ok r
    → passed r ≡ true
    → (path : String) → elem path changed ≡ true
    → (p : String) × (normalize_changed_path path ≡ ok p)
      × (covered p task.writable_files ≡ true)
      × (covered p task.readonly_files ≡ false)
unfolding check
check-passed task changed r h good path m =
    let (normalized, done, rest) = >>=-eq-ok (traverse normalize_changed_path changed) _ h in
    let (p, norm, there) = changed-elem changed normalized done path m in
    let may =
      (check_correct task changed r h).2.0 good p
        (ground (arith, elem-sorted p (set_of normalized), elem-set_of p normalized)) in
    (p, norm, ground arith, ground arith)
