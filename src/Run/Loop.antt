-- ===== src/Run/Loop.antt =====
-- backend/app/runtime/orchestrator.py: SingleTaskOrchestrator.run.
use muti_agent.Prelude.{
  ℕ, zero, suc, String, String_eq, Nat_eq, ◌==◌, Bool, true, false, Option, none, some, List, [],
  ◌∷◌, ◌++◌, if◌then◌else◌,
}
use muti_agent.Result.{Result, ok, err, ◌>>=◌}
use muti_agent.Run.{
  running, verifying, reviewing, succeeded, failed, new_machine, RunError, out_of_fuel,
  FailureReport, VerificationResult, ReviewDecision, pass, changes_requested, patch_produced,
  RepairProgressStatus, progress_made, repair_ineffective, repaired, RepairProgressEvidence,
  RepairRunResult, SingleTaskRunResult, is_nil, last, repairable, from_review,
}
use muti_agent.Run.Failures.{
  runtime_failure, DeveloperRunResult, is_model_stop, developer_stop_failure,
}
use muti_agent.Run.Repair.{
  DeveloperError, developer_provider, developer_value, ReviewError, invalid_output, review_provider,
  review_value, Attempt, gives, raises, Agents, Run, Phase, finished, goes_on, finish, finish_with,
  advance, repair_until_patch, repair_verification_detail,
}

-- What a verification says of a repair that produced a patch.
unfoldable pub judged : Bool → Option String → RepairProgressEvidence → RepairProgressEvidence
judged passed signature progress = record progress {
  status = if passed then repaired else by_signature signature;
  failure_signature_after = signature;
  validation_executed = true;
}
  where
    by_signature : Option String → RepairProgressStatus
    by_signature none = progress_made
    by_signature (some after) =
        if progress.failure_signature_before == after then repair_ineffective else progress_made

unfoldable pub judge_repair : Bool → Option String → RepairRunResult → RepairRunResult
judge_repair passed signature repair = elim repair.progress [
  | none ↦ repair
  | some progress ↦ elim progress.status [
    | patch_produced ↦ record repair { progress = some (judged passed signature progress) }
    | _ ↦ repair
  ]
]

-- _record_repair_verification: only the last repair changes.
unfoldable pub record_verification :
    Bool → Option String → List RepairRunResult → List RepairRunResult
record_verification passed signature [] = []
record_verification passed signature (repair ∷ []) = judge_repair passed signature repair ∷ []
record_verification passed signature (repair ∷ next ∷ rest) =
    repair ∷ record_verification passed signature (next ∷ rest)

module _ {W : Type 0} (agents : Agents W) (repair_budget : ℕ) where
  -- The detail of the event behind the last repair.
  abbrev pub repair_detail : List RepairRunResult → String
  repair_detail repairs = elim (last repairs) [
    | none ↦ ""
    | some repair ↦ repair_verification_detail agents repair_budget repair
  ]

  -- A repair, and the transition behind its patch.
  unfoldable pub repair_and_verify : Run W → List FailureReport → String → Result RunError (Phase W)
  repair_and_verify s failures signature = do
    step ← repair_until_patch agents repair_budget (suc repair_budget) s failures signature
    elim step [
      | finished result ↦ ok (finished result)
      | goes_on next ↦ do
        verifying_next ← advance next verifying (repair_detail next.repairs)
        ok (goes_on verifying_next)
    ]

  -- The branch of a verification that failed.
  unfoldable pub hard_gate_failed : Run W → VerificationResult → Result RunError (Phase W)
  hard_gate_failed s verification =
      let failures = verification.failure_reports in
      let marked : Run W = record s {
        repairs = record_verification false (some (agents.failure_signature failures)) s.repairs;
      } in
      if is_nil (repairable failures)
      then if is_nil failures
        then finish_with agents marked "Hard gate produced a non-repairable failure."
            (runtime_failure "Verification failed without structured failure evidence." [])
        else finish agents marked failed "Hard gate produced a non-repairable failure." failures
      else repair_and_verify marked (repairable failures) (agents.failure_signature failures)

  -- The handlers of the exceptions of a review.
  unfoldable pub review_raised : Run W → ReviewError → Result RunError (Phase W)
  review_raised s (invalid_output failure) =
      finish agents s failed "Reviewer output failed its structured-output gate." (failure ∷ [])
  review_raised s (review_provider failure) =
      finish agents s failed "Reviewer model provider failed." (failure ∷ [])
  review_raised s (review_value message) =
      finish_with agents s "Reviewer evidence gate failed." (runtime_failure message [])

  unfoldable pub decided : Run W → ReviewDecision → Result RunError (Phase W)
  decided s decision =
      let reviewed : Run W = record s { reviews = s.reviews ++ decision ∷ [] } in
      elim decision.decision [
        | pass ↦
            finish agents reviewed succeeded
              "Hard evidence and independent semantic review both passed." []
        | changes_requested ↦
            repair_and_verify reviewed (from_review decision)
              (agents.failure_signature (from_review decision))
      ]

  unfoldable pub reviewed_by :
      Run W → W × Attempt ReviewError ReviewDecision → Result RunError (Phase W)
  reviewed_by s (after, raises e) = review_raised (record s { world = after }) e
  reviewed_by s (after, gives decision) = decided (record s { world = after }) decision

  -- The branch of a verification that passed.
  unfoldable pub hard_gate_passed : Run W → VerificationResult → Result RunError (Phase W)
  hard_gate_passed s verification = do
    next ←
        advance (record s { repairs = record_verification true none s.repairs }) reviewing
          "Hard gate passed; independent semantic review started."
    elim (agents.reviewer_context next.world) [
      | raises failure ↦
          finish agents next failed "Reviewer ContextPacket construction failed." (failure ∷ [])
      | gives packet ↦
          reviewed_by (record next { packet = some packet }) (agents.review next.world verification)
    ]

  -- The body of the `while` loop.
  unfoldable pub round : Run W → Result RunError (Phase W)
  round s =
      let (after, verification) = agents.verify s.world in
      let verified : Run W = record s {
        world = after;
        verifications = s.verifications ++ verification ∷ [];
      } in
      if verification.passed
      then hard_gate_passed verified verification
      else hard_gate_failed verified verification

  unfoldable pub rounds : ℕ → Run W → Result RunError SingleTaskRunResult
  rounds zero s = err out_of_fuel
  rounds (suc fuel) s = do
    step ← round s
    elim step [ finished result ↦ ok result | goes_on next ↦ rounds fuel next ]

  -- The developer's part of `run`, behind the transition to RUNNING.
  unfoldable pub developed :
      Run W → W × Attempt DeveloperError DeveloperRunResult → Result RunError (Phase W)
  developed s (after, raises (developer_provider failure)) =
      finish agents (record s { world = after }) failed "Developer model provider failed."
        (failure ∷ [])
  developed s (after, raises (developer_value message)) =
      finish_with agents (record s { world = after }) "Developer context gate failed."
        (runtime_failure message [])
  developed s (after, gives result) =
      let next : Run W = record s { world = after } in
      if is_nil (agents.changed_files after)
      then if is_model_stop result.stop_reason
        then finish_with agents next "Developer produced no Git changes." (
            runtime_failure "Developer Agent completed without producing repository changes."
              ("changed_files=0" ∷ []))
        else finish_with agents next "Developer Agent stopped before a normal model completion."
            (developer_stop_failure result.stop_reason result.stop_evidence)
      else do
        verifying_next ← advance next verifying (
            if is_model_stop result.stop_reason
            then "Developer 正常完成；确定性验证开始。"
            else "Developer 受控 Slice 已结束且存在改动；跳过额外模型调用并进入确定性验证。")
        ok (goes_on verifying_next)

  unfoldable pub first_part : Bool → W → Result RunError (Phase W)
  first_part resume_verification_first world = do
    started ←
        advance
          (record {
            world = world;
            machine = new_machine;
            packet = none;
            verifications = [];
            reviews = [];
            repairs = [];
          })
          running
          (if resume_verification_first
            then "从验证失败检查点恢复；先执行确定性验证。"
            else "Developer Agent started initial work.")
    if resume_verification_first
        then (do
          next ← advance started verifying "Checkpoint Commit 已装载；确定性验证开始。"
          ok (goes_on next))
        else elim (agents.developer_context started.world) [
          | raises failure ↦
              finish agents started failed "Developer ContextPacket construction failed."
                (failure ∷ [])
          | gives packet ↦
              developed (record started { packet = some packet }) (agents.develop started.world)
        ]

  -- Each round but the last makes a repair, so the fuel is the budget and one more.
  unfoldable pub run : Bool → W → Result RunError SingleTaskRunResult
  run resume_verification_first world = do
    step ← first_part resume_verification_first world
    elim step [ finished result ↦ ok result | goes_on next ↦ rounds (suc repair_budget) next ]
