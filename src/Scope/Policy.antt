-- ===== src/Scope/Policy.antt =====
-- backend/app/runtime/integration_policy.py with backend/app/models/conflict.py and the decision of
-- backend/app/models/integration_gate.py: who may repair a merge conflict. `digest` is the hash of
-- the JSON text of its argument, `lower` is str.lower, and PurePosixPath is modelled on relative
-- paths.
pub mod Conflict
pub mod Paths
pub mod Routes
unfoldable pub use Conflict.*
unfoldable pub use Paths.*
use Prim.Native.String.{◌++◌ as str_append}
use muti_agent.Prelude.{
  ℕ, String, String_eq, Nat_eq, Eq, ◌==◌, Bool, true, false, not, ◌&&◌, ◌||◌, Option, none, some,
  List, [], ◌∷◌, ◌++◌, map, any, elem, select, length, distinct, if◌then◌else◌, ltb,
}
use muti_agent.Result.{Result, ok, err, ◌>>=◌, ◌>>◌, raise_if}
use muti_agent.Text.{is_empty, text_length, has_char, starts_with_char, split}
use muti_agent.Contract.{TaskContract}
use muti_agent.Run.{is_nil}
use muti_agent.Scope.{PathError, ScopeCheckResult, passed, kind_value, check}

pub data IntegrationPolicyRoute : Type 0 where
  auto_repair_candidate human_required : IntegrationPolicyRoute

pub record IntegrationPolicyDecision : Type 0 where
  pub route : IntegrationPolicyRoute
  pub evidence_fingerprint : String
  pub automatic_repair_enabled : Bool
  pub human_repair_authorizable : Bool
  pub conflicting_paths : List String
  pub reasons : List String

pub data PolicyError : Type 0 where
  bad_path : PathError → PolicyError
  invalid_decision : PolicyError

pub record IntegrationConflictPolicy : Type 0 where
  pub automatic_repair_enabled : Bool
  pub auto_repair_suffixes : List String
  pub protected_prefixes : List String
  pub protected_basenames : List String

abbrev pub protected_directory_names : List String
protected_directory_names = ".devflow" ∷ ".github" ∷ ".gitlab" ∷ "tests" ∷ []

unfoldable pub is_protected_path : IntegrationConflictPolicy → String → Bool
is_protected_path policy path =
    let normalized = if starts_with "./" path then drop_two path else path in
    let parts = path_parts normalized in
    let name = name_of parts in
    any (λ prefix. starts_with prefix normalized) policy.protected_prefixes
    || any (λ part. elem part protected_directory_names) (parents parts)
    || elem name policy.protected_basenames
    || starts_with "test_" name
    || ends_with "_test.py" name

abbrev pub comma_joined : List String → String
comma_joined [] = ""
comma_joined (x ∷ []) = x
comma_joined (x ∷ y ∷ xs) = str_append x (str_append ", " (comma_joined (y ∷ xs)))

abbrev pub when : Bool → String → List String
when true reason = reason ∷ []
when false reason = []

-- `IntegrationPolicyDecision(...)`
unfoldable pub validate_route :
    IntegrationPolicyDecision → Result PolicyError IntegrationPolicyDecision
validate_route d = do
  raise_if (is_nil d.conflicting_paths || is_nil d.reasons) invalid_decision
  raise_if (not (distinct d.conflicting_paths)) invalid_decision
  elim d.route [
    | human_required ↦ ok d
    | auto_repair_candidate ↦ do
      raise_if (not d.automatic_repair_enabled) invalid_decision
      raise_if (not d.human_repair_authorizable) invalid_decision
      ok d
  ]

abbrev pub regular_mode : MergeConflictStage → Bool
regular_mode s = s.mode == "100644"

-- `blob_is_safe_text is not None and any(not blob_is_safe_text(...) for ...)`
abbrev pub unsafe_text : Option (String → Bool) → MergeConflictFile → Bool
unsafe_text none file = false
unsafe_text (some blob_is_safe_text) file =
    any (λ s. not (blob_is_safe_text s.object_id)) file.stages

abbrev pub no_inspection : Option (String → Bool) → Bool
no_inspection none = true
no_inspection (some _) = false

module _ (lower : String → String) (policy : IntegrationConflictPolicy) where
  unfoldable pub is_supported_text_path : String → Bool
  is_supported_text_path path =
      elem (lower (suffix_of (name_of (path_parts path)))) policy.auto_repair_suffixes

  unfoldable pub file_blockers : Option (String → Bool) → List MergeConflictFile → List String
  file_blockers inspect [] = []
  file_blockers inspect (file ∷ files) =
      when (any (λ s. not (regular_mode s)) file.stages)
        (str_append file.path ": repair requires regular non-executable file stages")
      ++ (when (is_protected_path policy file.path)
            (str_append file.path ": protected path cannot be delegated to Agent Repair")
          ++ (when (unsafe_text inspect file)
                (str_append file.path ": conflicted Git blobs are not safe bounded UTF-8 text")
              ++ file_blockers inspect files))

  unfoldable pub hard_blockers :
      Option (String → Bool) → ScopeCheckResult → List MergeConflictFile → List String
  hard_blockers inspect scope files =
      when (not (passed scope)) (
        str_append "conflict path is outside the task repair scope: " (
          comma_joined
            (map (λ v. str_append (kind_value v.kind) (str_append ":" v.path)) scope.violations)))
      ++ (when (no_inspection inspect)
            "repair authorization requires bounded Git blob text inspection"
          ++ file_blockers inspect files)

  abbrev pub single_file_blockers : List MergeConflictFile → List String
  single_file_blockers (file ∷ []) =
      when (not (is_three_way (stage_shape file))) (
        str_append "automatic repair requires a THREE_WAY stage shape; observed "
          (shape_value (stage_shape file)))
      ++ when (not (is_supported_text_path file.path))
          "conflicted path is not in the narrow automatic text-file allowlist"
  single_file_blockers _ = "automatic repair is limited to exactly one conflicted path" ∷ []

  abbrev pub observed_types : List String → String
  observed_types [] = "<none>"
  observed_types (x ∷ xs) = comma_joined (x ∷ xs)

  unfoldable pub automatic_blockers : MergeConflictEvidence → List String
  automatic_blockers evidence =
      when (not policy.automatic_repair_enabled)
        "automatic merge-conflict repair policy is disabled"
      ++ (single_file_blockers evidence.files
          ++ when (not (same_list evidence.conflict_types ("CONFLICT (contents)" ∷ []))) (
              str_append "automatic repair requires only native CONFLICT (contents); observed "
                (observed_types evidence.conflict_types)))

  -- The decision, from the result of the scope check.
  unfoldable pub decide :
      String
      → Option (String → Bool)
      → ScopeCheckResult
      → MergeConflictEvidence
      → Result PolicyError IntegrationPolicyDecision
  decide fingerprint inspect scope evidence =
      let hard = hard_blockers inspect scope evidence.files in
      let blockers = hard ++ automatic_blockers evidence in
      elim (is_nil blockers) [
        | false ↦ validate_route (record {
          route = human_required;
          evidence_fingerprint = fingerprint;
          automatic_repair_enabled = policy.automatic_repair_enabled;
          human_repair_authorizable = is_nil hard;
          conflicting_paths = evidence.conflicting_paths;
          reasons = blockers;
        })
        | true ↦ validate_route (record {
          route = auto_repair_candidate;
          evidence_fingerprint = fingerprint;
          automatic_repair_enabled = true;
          human_repair_authorizable = true;
          conflicting_paths = evidence.conflicting_paths;
          reasons =
              "policy permits only a later bounded repair attempt; integration remains stopped"
              ∷ [];
        })
      ]

  unfoldable pub evaluate :
      (FingerprintPayload → String)
      → MergeConflictEvidence
      → TaskContract
      → Option (String → Bool)
      → Result PolicyError IntegrationPolicyDecision
  evaluate digest evidence task inspect =
      let fingerprint = conflict_evidence_fingerprint digest evidence in
      elim (check task evidence.conflicting_paths) [
        | err e ↦ err (bad_path e)
        | ok scope ↦ decide fingerprint inspect scope evidence
      ]
