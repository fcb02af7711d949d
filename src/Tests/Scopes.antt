-- ===== src/Tests/Scopes.antt =====
-- backend/app/workspace/scope.py and backend/app/runtime/integration_policy.py at small inputs.
use muti_agent.Prelude.{
  ℕ, String, String_eq, Nat_eq, ◌≡◌, ◌↔◌, ◌&&◌, refl, true, false, some, [], ◌∷◌, sorted, elem,
  distinct,
}
use muti_agent.Result.{ok, traverse}
use muti_agent.Text.{
  is_space, lstrip, rstrip, strip, text_length, has_char, starts_with_char, drop_char, split,
}
use muti_agent.Contract.{TaskContract}
use muti_agent.Scope.{
  codes, glob_regex, accepts, matches, first_match, normalize_changed_path, ScopeCheckResult,
  check_paths, set_of, check, to_failure_report, passed,
}
use muti_agent.Scope.Patterns.{Glob, matches_iff}
use muti_agent.Scope.Flat.{slashes, has_double_star, matches-slashes}
use muti_agent.Scope.Checks.{covered, check-passed, check_correct, may_change}
use muti_agent.Scope.Policy.{
  MergeConflictStage, MergeConflictEvidence, IntegrationConflictPolicy, IntegrationPolicyDecision,
  base, evaluate,
}
use muti_agent.Scope.Policy.Routes.{IsRouted, evaluate-IsRouted}
use muti_agent.Tests.Samples.{contract}

scopes : Unit {0}
unfolding is_space lstrip rstrip strip text_length has_char starts_with_char drop_char split codes
    glob_regex accepts matches first_match normalize_changed_path check_paths set_of check
    to_failure_report sorted traverse slashes has_double_star
scopes = tt

matches_iff_example :
    (matches "src/api/a.py" "src/**/*.py" ≡ true)
    ↔ Glob (codes "src/**/*.py") (codes "src/api/a.py")
matches_iff_example = matches_iff "src/api/a.py" "src/**/*.py"

matches-directories : matches "src/a.py" "**/*.py" ≡ true
unfolding scopes
matches-directories = refl

matches-no_directories : matches "a.py" "**/*.py" ≡ true
unfolding scopes
matches-no_directories = refl

matches-other_directory : matches "src/x/a.py" "src/*.py" ≡ false
unfolding scopes
matches-other_directory = refl

flat : has_double_star (codes "src/*.py") ≡ false
unfolding scopes
flat = refl

matches-flat : matches "src/a.py" "src/*.py" ≡ true
unfolding scopes
matches-flat = refl

matches-slashes_example : slashes (codes "src/a.py") ≡ slashes (codes "src/*.py")
matches-slashes_example = matches-slashes "src/a.py" "src/*.py" flat matches-flat

abbrev task : TaskContract
task = record (contract "a") { writable_files = "src/*.py" ∷ []; readonly_files = "src/b.py" ∷ [] }

abbrev accepted : ScopeCheckResult
accepted = record {
  changed_files = "src/a.py" ∷ [];
  allowed_files = "src/a.py" ∷ [];
  violations = [];
}

check-accepted : check task (" src/a.py" ∷ []) ≡ ok accepted
unfolding scopes
check-accepted = refl

check-passed_example :
    (p : String) × (normalize_changed_path " src/a.py" ≡ ok p)
    × (covered p ("src/*.py" ∷ []) ≡ true)
    × (covered p ("src/b.py" ∷ []) ≡ false)
check-passed_example =
    check-passed task (" src/a.py" ∷ []) accepted check-accepted refl " src/a.py" refl

check_correct_example :
    (distinct accepted.changed_files ≡ true)
    × ((path : String)
        → elem path accepted.changed_files
          ≡ (elem path accepted.changed_files && may_change task path))
    × ((passed accepted ≡ true)
        ↔ ((path : String) → elem path accepted.changed_files ≡ true → may_change task path ≡ true))
check_correct_example = check_correct task (" src/a.py" ∷ []) accepted check-accepted

abbrev conflict_stage : ℕ → MergeConflictStage
conflict_stage number = record { stage = number; side = base; mode = "100644"; object_id = "ab" }

abbrev evidence : MergeConflictEvidence
evidence = record {
  integration_head = "1";
  task_commit = "2";
  conflict_ref = "r";
  marker_commit = "3";
  conflicted_tree = "4";
  conflicting_paths = "src/a.py" ∷ [];
  conflict_types = "CONFLICT (contents)" ∷ [];
  files =
      record {
        path = "src/a.py";
        stages = conflict_stage 1 ∷ conflict_stage 2 ∷ conflict_stage 3 ∷ [];
      }
      ∷ [];
}

abbrev policy : IntegrationConflictPolicy
policy = record {
  automatic_repair_enabled = true;
  auto_repair_suffixes = ".py" ∷ [];
  protected_prefixes = ".github/" ∷ [];
  protected_basenames = "conftest.py" ∷ [];
}

check-evidence : check task ("src/a.py" ∷ []) ≡ ok accepted
unfolding scopes
check-evidence = refl

evaluate-IsRouted_example :
    (d : IntegrationPolicyDecision) × (evaluate
        (λ s. s)
        policy
        (λ facts. "0")
        evidence
        task
        (some (λ blob. true))
      ≡ ok d)
    × IsRouted (λ s. s) policy (some (λ blob. true)) accepted evidence d
evaluate-IsRouted_example =
    evaluate-IsRouted (λ s. s) policy (λ facts. "0") evidence task (some (λ blob. true)) accepted
      refl refl check-evidence
