-- ===== src/Scope.antt =====
-- backend/app/workspace/scope.py: the write boundary of a task. A pattern is translated into the
-- parts of a regular expression, and `accepts` is re.fullmatch for these: `.` is any character but
-- a line feed, `[^/]` any character but a slash.
pub mod Globs
pub mod Flat
pub mod Patterns
pub mod Checks
pub mod Policy
use Prim.Native.Char.{code}
use Prim.Native.String.{◌++◌ as str_append}
use muti_agent.Prelude.{
  ℕ, String, String_eq, Nat_eq, ◌==◌, Bool, true, false, not, ◌&&◌, ◌||◌, Option, none, some, List,
  [], ◌∷◌, map, elem, set_add, sorted,
}
use muti_agent.Result.{Result, ok, err, ◌>>=◌, ◌>>◌, raise_if, traverse}
use muti_agent.Text.{is_empty, strip, has_char, starts_with_char, split}
use muti_agent.Contract.{TaskContract}
use muti_agent.Run.{FailureReport, other_failure, is_nil}

-- (?:.*/)?  .*  [^/]*  [^/]  and a character itself
pub data GlobPart : Type 0 where
  directories any_path segment one_char : GlobPart
  exactly : ℕ → GlobPart

unfoldable pub codes : String → List ℕ
codes String.[] = []
codes (String.◌∷◌ c s) = code c ∷ codes s

abbrev pub part_of : ℕ → GlobPart
part_of c = elim (c == b'*') [
  | true ↦ segment
  | false ↦ elim (c == b'?') [ true ↦ one_char | false ↦ exactly c ]
]

unfoldable pub glob_regex : List ℕ → List GlobPart
glob_regex [] = []
glob_regex (a ∷ []) = part_of a ∷ []
glob_regex (a ∷ b ∷ []) = elim (a == b'*' && b == b'*') [
  | true ↦ any_path ∷ []
  | false ↦ part_of a ∷ glob_regex (b ∷ [])
]
glob_regex (a ∷ b ∷ c ∷ rest) = elim (a == b'*' && b == b'*') [
  | true ↦ elim (c == b'/') [
    | true ↦ directories ∷ glob_regex rest
    | false ↦ any_path ∷ glob_regex (c ∷ rest)
  ]
  | false ↦ part_of a ∷ glob_regex (b ∷ c ∷ rest)
]

-- Some characters that pass the test, and then what `after` accepts.
abbrev pub star : (ℕ → Bool) → (List ℕ → Bool) → List ℕ → Bool
star test after [] = after []
star test after (x ∷ xs) = after (x ∷ xs) || test x && star test after xs

-- Characters but line feeds, a slash, and then what `after` accepts.
abbrev pub below : (List ℕ → Bool) → List ℕ → Bool
below after [] = false
below after (x ∷ xs) = x == b'/' && after xs || not (x == b'\n') && below after xs

unfoldable pub accepts : List GlobPart → List ℕ → Bool
accepts [] [] = true
accepts [] (x ∷ xs) = false
accepts (exactly c ∷ parts) [] = false
accepts (exactly c ∷ parts) (x ∷ xs) = x == c && accepts parts xs
accepts (one_char ∷ parts) [] = false
accepts (one_char ∷ parts) (x ∷ xs) = not (x == b'/') && accepts parts xs
accepts (segment ∷ parts) xs = star (λ x. not (x == b'/')) (accepts parts) xs
accepts (any_path ∷ parts) xs = star (λ x. not (x == b'\n')) (accepts parts) xs
accepts (directories ∷ parts) xs = accepts parts xs || below (accepts parts) xs

unfoldable pub matches : String → String → Bool
matches path glob = accepts (glob_regex (codes glob)) (codes path)

unfoldable pub first_match : String → List String → Option String
first_match path [] = none
first_match path (glob ∷ globs) = elim (matches path glob) [
  | true ↦ some glob
  | false ↦ first_match path globs
]

pub data PathError : Type 0 where
  empty_path not_relative traversal : PathError

unfoldable pub normalize_changed_path : String → Result PathError String
normalize_changed_path path = do
  let normalized = strip path
  raise_if (is_empty normalized) empty_path
  raise_if
      (starts_with_char b'/' normalized
        || starts_with_char b'\\' normalized
        || has_char b'\\' normalized)
      not_relative
  raise_if (elem ".." (split b'/' normalized)) traversal
  ok normalized

pub data ScopeViolationKind : Type 0 where
  read_only out_of_scope : ScopeViolationKind

pub record ScopeViolation : Type 0 where
  pub path : String
  pub kind : ScopeViolationKind
  pub matched_pattern : Option String

pub record ScopeCheckResult : Type 0 where
  pub changed_files : List String
  pub allowed_files : List String
  pub violations : List ScopeViolation

abbrev pub passed : ScopeCheckResult → Bool
passed result = is_nil result.violations

abbrev pub kind_value : ScopeViolationKind → String
kind_value read_only = "READ_ONLY"
kind_value out_of_scope = "OUT_OF_SCOPE"

abbrev pub matched_value : Option String → String
matched_value none = ""
matched_value (some glob) = str_append ":matched=" glob

unfoldable pub to_failure_report : ScopeCheckResult → Option FailureReport
to_failure_report result = elim (passed result) [
  | true ↦ none
  | false ↦ some (record {
    failure_type = other_failure "SCOPE_VIOLATION";
    message = "Repository changes violated the task write-scope contract.";
    retryable = false;
    evidence =
        map
          (λ v.
            str_append (kind_value v.kind)
              (str_append ":" (str_append v.path (matched_value v.matched_pattern))))
          result.violations;
  })
]

-- The loop of check: the allowed files and the violations.
unfoldable pub check_paths : TaskContract → List String → List String × List ScopeViolation
check_paths task [] = ([], [])
check_paths task (path ∷ paths) =
    let (allowed, violations) = check_paths task paths in
    elim (first_match path task.readonly_files) [
      | some glob ↦ (
        allowed,
        record { path = path; kind = read_only; matched_pattern = some glob } ∷ violations,
      )
      | none ↦ elim (first_match path task.writable_files) [
        | none ↦ (
          allowed,
          record { path = path; kind = out_of_scope; matched_pattern = none } ∷ violations,
        )
        | some glob ↦ (path ∷ allowed, violations)
      ]
    ]

unfoldable pub set_of : List String → List String
set_of [] = []
set_of (x ∷ xs) = set_add x (set_of xs)

unfoldable pub check : TaskContract → List String → Result PathError ScopeCheckResult
check task changed_files = do
  normalized ← traverse normalize_changed_path changed_files
  let changed = sorted (set_of normalized)
  let (allowed, violations) = check_paths task changed
  ok (record { changed_files = changed; allowed_files = allowed; violations = violations })
