-- ===== src/Scope/Policy/Routes.antt =====
-- The routes of backend/app/runtime/integration_policy.py: which conflicts an agent may repair.
use muti_agent.Prelude.{
  String, String_eq, Bool, true, false, not, ◌&&◌, Option, List, [], ◌∷◌, ◌++◌, all, any, distinct,
  ◌≡◌, ◌↔◌, refl, arith, Bool-cases, inl, inr,
}
use muti_agent.Result.{ok}
use muti_agent.Contract.{TaskContract}
use muti_agent.Run.{is_nil}
use muti_agent.Scope.{ScopeCheckResult, passed, check}
use muti_agent.Scope.Policy.{
  conflict_evidence_fingerprint, MergeConflictFile, MergeConflictEvidence,
  IntegrationConflictPolicy, IntegrationPolicyDecision, auto_repair_candidate, human_required,
  FingerprintPayload, same_list, stage_shape, is_three_way, is_protected_path, when, validate_route,
  regular_mode, unsafe_text, no_inspection, is_supported_text_path, file_blockers, hard_blockers,
  single_file_blockers, automatic_blockers, decide, evaluate,
}

is_nil-append : {A : Type 0} → (xs ys : List A) → is_nil (xs ++ ys) ≡ (is_nil xs && is_nil ys)
is_nil-append [] ys = refl
is_nil-append (x ∷ xs) ys = refl

is_nil-when :
    (b : Bool) (reason : String) (rest : List String)
    → is_nil (when b reason ++ rest) ≡ (not b && is_nil rest)
is_nil-when true reason rest = refl
is_nil-when false reason rest = refl

is_nil-when_last : (b : Bool) (reason : String) → is_nil (when b reason) ≡ not b
is_nil-when_last true reason = refl
is_nil-when_last false reason = refl

module _ (policy : IntegrationConflictPolicy) (inspect : Option (String → Bool)) where
  -- The stages of the file are regular, safe text on a path that is not protected.
  abbrev pub is_repairable_file : MergeConflictFile → Bool
  is_repairable_file file =
      not (any (λ s. not (regular_mode s)) file.stages)
      && not (is_protected_path policy file.path)
      && not (unsafe_text inspect file)

-- A person may let an agent repair it.
abbrev pub is_repairable_conflict :
    IntegrationConflictPolicy
    → Option (String → Bool)
    → ScopeCheckResult
    → MergeConflictEvidence
    → Bool
is_repairable_conflict policy inspect scope evidence =
    passed scope
    && not (no_inspection inspect)
    && all (is_repairable_file policy inspect) evidence.files

module _ (lower : String → String) (policy : IntegrationConflictPolicy) where
  abbrev is_simple : List MergeConflictFile → Bool
  is_simple (file ∷ []) =
      is_three_way (stage_shape file) && is_supported_text_path lower policy file.path
  is_simple _ = false

  -- The policy lets an agent try without asking.
  abbrev pub is_automatic : MergeConflictEvidence → Bool
  is_automatic evidence =
      policy.automatic_repair_enabled
      && is_simple evidence.files
      && same_list evidence.conflict_types ("CONFLICT (contents)" ∷ [])

  files-is_nil :
      (inspect : Option (String → Bool)) (files : List MergeConflictFile)
      → is_nil (file_blockers lower policy inspect files)
        ≡ all (is_repairable_file policy inspect) files
  unfolding file_blockers
  files-is_nil inspect [] = refl
  files-is_nil inspect (f ∷ fs) = ground (
    arith,
    is_nil-when (any (λ s. not (regular_mode s)) f.stages) _ (
        when (is_protected_path policy f.path) _
        ++ (when (unsafe_text inspect f) _ ++ file_blockers lower policy inspect fs)),
    is_nil-when (is_protected_path policy f.path) _
        (when (unsafe_text inspect f) _ ++ file_blockers lower policy inspect fs),
    is_nil-when (unsafe_text inspect f) _ (file_blockers lower policy inspect fs),
    files-is_nil inspect fs,
  )

  hard-is_nil :
      (inspect : Option (String → Bool)) (scope : ScopeCheckResult)
      (evidence : MergeConflictEvidence)
      → is_nil (hard_blockers lower policy inspect scope evidence.files)
        ≡ is_repairable_conflict policy inspect scope evidence
  unfolding hard_blockers
  hard-is_nil inspect scope evidence = ground (
    arith,
    is_nil-when (not (passed scope)) _
        (when (no_inspection inspect) _ ++ file_blockers lower policy inspect evidence.files),
    is_nil-when (no_inspection inspect) _ (file_blockers lower policy inspect evidence.files),
    files-is_nil inspect evidence.files,
  )

  single-is_nil :
      (files : List MergeConflictFile)
      → is_nil (single_file_blockers lower policy files) ≡ is_simple files
  single-is_nil [] = refl
  single-is_nil (f ∷ []) = ground (
    arith,
    is_nil-when (not (is_three_way (stage_shape f))) _
        (when (not (is_supported_text_path lower policy f.path)) _),
    is_nil-when_last (not (is_supported_text_path lower policy f.path)) _,
  )
  single-is_nil (f ∷ g ∷ fs) = refl

  automatic-is_nil :
      (evidence : MergeConflictEvidence)
      → is_nil (automatic_blockers lower policy evidence) ≡ is_automatic evidence
  unfolding automatic_blockers
  automatic-is_nil evidence =
      let contents = same_list evidence.conflict_types ("CONFLICT (contents)" ∷ []) in
      ground (
        arith,
        is_nil-when (not policy.automatic_repair_enabled) _
            (single_file_blockers lower policy evidence.files ++ when (not contents) _),
        is_nil-append (single_file_blockers lower policy evidence.files) (when (not contents) _),
        is_nil-when_last (not contents) _,
        single-is_nil evidence.files,
      )

  -- The decision on a conflict.
  abbrev pub IsRouted :
      Option (String → Bool)
      → ScopeCheckResult
      → MergeConflictEvidence
      → IntegrationPolicyDecision
      → Type 0
  IsRouted inspect scope evidence d =
      (d.human_repair_authorizable ≡ is_repairable_conflict policy inspect scope evidence)
      × ((d.route ≡ auto_repair_candidate) ↔ (
          (is_repairable_conflict policy inspect scope evidence && is_automatic evidence) ≡ true))
      × (d.conflicting_paths ≡ evidence.conflicting_paths)

  decide-IsRouted :
      (fingerprint : String) (inspect : Option (String → Bool)) (scope : ScopeCheckResult)
      (evidence : MergeConflictEvidence)
      → is_nil evidence.conflicting_paths ≡ false
      → distinct evidence.conflicting_paths ≡ true
      → (d : IntegrationPolicyDecision) × (decide lower policy fingerprint inspect scope evidence
          ≡ ok d)
        × IsRouted inspect scope evidence d
  unfolding decide validate_route
  decide-IsRouted fingerprint inspect scope evidence some_path different =
      let hard = hard_blockers lower policy inspect scope evidence.files in
      let blockers = hard ++ automatic_blockers lower policy evidence in
      let clear = is_nil-append hard (automatic_blockers lower policy evidence) in
      elim (Bool-cases (is_nil blockers)) [
        | inl free ↦ (
          record {
            route = auto_repair_candidate;
            evidence_fingerprint = fingerprint;
            automatic_repair_enabled = true;
            human_repair_authorizable = true;
            conflicting_paths = evidence.conflicting_paths;
            reasons =
                "policy permits only a later bounded repair attempt; integration remains stopped"
                ∷ [];
          },
          ground (arith, free, some_path, different),
          (
            ground (arith, clear, hard-is_nil inspect scope evidence),
            (
              λ e.
                  ground
                    (arith, clear, hard-is_nil inspect scope evidence, automatic-is_nil evidence),
              λ e. refl,
            ),
            refl,
          ),
        )
        | inr stopped ↦ (
          record {
            route = human_required;
            evidence_fingerprint = fingerprint;
            automatic_repair_enabled = policy.automatic_repair_enabled;
            human_repair_authorizable = is_nil hard;
            conflicting_paths = evidence.conflicting_paths;
            reasons = blockers;
          },
          ground (arith, stopped, some_path, different),
          (
            hard-is_nil inspect scope evidence,
            (
              λ e. cc,
              λ e. absurd (
                  ground (
                    arith,
                    clear,
                    stopped,
                    hard-is_nil inspect scope evidence,
                    automatic-is_nil evidence,
                  )),
            ),
            refl,
          ),
        )
      ]

  -- For conflict evidence with distinct paths, at least one, whose scope check returns: evaluate
  -- returns a decision that its validator accepts. A person may authorize the repair exactly if
  -- the scope check passed, a text inspection is given, and every file has regular stages, safe
  -- texts and a path that is not protected; the route is AUTO_REPAIR_CANDIDATE exactly if
  -- moreover the policy is enabled, there is one file, with all three stages and a supported
  -- suffix, and the conflict is of contents only.
  pub evaluate-IsRouted :
      (digest : FingerprintPayload → String) (evidence : MergeConflictEvidence)
      (task : TaskContract) (inspect : Option (String → Bool)) (scope : ScopeCheckResult)
      → is_nil evidence.conflicting_paths ≡ false
      → distinct evidence.conflicting_paths ≡ true
      → check task evidence.conflicting_paths ≡ ok scope
      → (d : IntegrationPolicyDecision) × (evaluate lower policy digest evidence task inspect
          ≡ ok d)
        × IsRouted inspect scope evidence d
  unfolding evaluate
  evaluate-IsRouted digest evidence task inspect scope some_path different checked =
      let fingerprint = conflict_evidence_fingerprint digest evidence in
      let (d, e, routed) = decide-IsRouted fingerprint inspect scope evidence some_path different in
      (d, ground (arith, checked, e), routed)
