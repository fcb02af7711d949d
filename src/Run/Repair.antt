-- ===== src/Run/Repair.antt =====
-- backend/app/runtime/orchestrator.py: the loop that repairs until a patch is there. What the
-- agents, the verifier and Git do to the workspace is a parameter.
use Prim.Native.String.{◌++◌ as str_append}
use muti_agent.Prelude.{
  ℕ, zero, suc, String, String_eq, Nat_eq, ◌==◌, Bool, true, false, not, ◌||◌, Option, none, some,
  List, [], ◌∷◌, ◌++◌, map, length, leb, ltb, if◌then◌else◌,
}
use muti_agent.Result.{Result, ok, err, ◌>>=◌, ◌>>◌, raise_if}
use muti_agent.Contract.{TaskContract}
use muti_agent.Run.Failures.{runtime_failure, DeveloperRunResult}
use muti_agent.Run.Handoff.{RepairHandoff, handoff_of, make_handoff}
use muti_agent.Run.{
  TaskRunState, repairing, failed, TaskStateMachine, change_state, RunError, missing_progress,
  invalid_context_state, out_of_fuel, FailureReport, VerificationResult, ReviewDecision,
  RepairStopReason, explicit_blocker, iteration_limit, time_limit, tool_call_limit, patch_produced,
  no_patch_produced, RepairProgressEvidence, RepairRunResult, SingleTaskRunResult,
  validate_terminal_consistency, terminalize, last,
}

-- The exceptions that `run` handles, by the call that raises them. A ValueError is its text.
pub data DeveloperError : Type 0 where
  developer_provider : FailureReport → DeveloperError
  developer_value : String → DeveloperError

pub data ReviewError : Type 0 where
  invalid_output review_provider : FailureReport → ReviewError
  review_value : String → ReviewError

pub data RepairError : Type 0 where
  budget_exhausted : List FailureReport → RepairError
  budget_blocked repair_provider : FailureReport → RepairError
  repair_value : String → RepairError

pub data Attempt (E A : Type 0) : Type 0 where
  gives : A → Attempt E A
  raises : E → Attempt E A

-- What the state for a continuation takes from a packet.
pub record ContextPacket : Type 0 where
  pub repository_summary_version : String
  pub repository_head : String
  pub selected_files : List (String × String)

-- The task and the collaborators of the orchestrator, over a workspace `W`. A context that cannot
-- be built is the failure that _context_failure reports.
pub record Agents (W : Type 0) : Type 0 where
  pub task : TaskContract
  pub developer_context : W → Attempt FailureReport ContextPacket
  pub reviewer_context : W → Attempt FailureReport ContextPacket
  pub develop : W → W × Attempt DeveloperError DeveloperRunResult
  pub verify : W → W × VerificationResult
  pub review : W → VerificationResult → W × Attempt ReviewError ReviewDecision
  pub repair : ℕ → List FailureReport → RepairHandoff → W → W × Attempt RepairError RepairRunResult
  pub changed_files : W → List String
  pub head_commit : W → String
  pub patch_hash : W → String
  pub failure_signature : List FailureReport → String
  -- _repair_failure_hint: a search of a regular expression for a path and a symbol.
  pub failure_hint : List FailureReport → Option (String × String)
  -- The validators of ContextContinuationState on what _current_context_state takes from the
  -- packet and the workspace; its summaries are cut to their limits.
  pub context_state_is_valid : ContextPacket → W → Bool
  -- The lines of evidence that the last repair adds, by its outcome.
  pub repair_evidence : RepairRunResult → List String
  pub no_patch_evidence : RepairRunResult → List String
  -- Python's str of a number.
  pub str : ℕ → String

-- The local variables of `run`.
pub record Run (W : Type 0) : Type 0 where
  pub world : W
  pub machine : TaskStateMachine
  -- self._latest_context_packet
  pub packet : Option ContextPacket
  pub verifications : List VerificationResult
  pub reviews : List ReviewDecision
  pub repairs : List RepairRunResult

-- A step either returns from `run` or goes on.
pub data Phase (W : Type 0) : Type 0 where
  finished : SingleTaskRunResult → Phase W
  goes_on : Run W → Phase W

abbrev pub is_blocker : RepairStopReason → Bool
is_blocker explicit_blocker = true
is_blocker _ = false

-- How the loop of _repair_until_patch goes on behind a repair, the attempts made counted.
pub data Verdict : Type 0 where
  has_patch stuck again : Verdict

unfoldable pub verdict : ℕ → ℕ → RepairRunResult → Verdict
verdict repair_budget attempts repair = elim repair.progress [
  | none ↦ has_patch
  | some progress ↦
      if progress.has_patch
      then has_patch
      else if is_blocker repair.stop_reason || leb repair_budget attempts
      then stuck
      else again
]

-- _current_context_state: no state without a packet.
abbrev pub refuses_state : {W : Type 0} → Agents W → Option ContextPacket → W → Bool
refuses_state agents none world = false
refuses_state agents (some packet) world = not (agents.context_state_is_valid packet world)

abbrev pub repair_handoff : {W : Type 0} → Agents W → List FailureReport → W → RepairHandoff
repair_handoff agents failures world =
    handoff_of agents.task (agents.head_commit world) (agents.changed_files world)
      (agents.failure_hint failures) failures

module _ {W : Type 0} (agents : Agents W) where
  -- _result
  unfoldable pub make_result : Run W → List FailureReport → Result RunError SingleTaskRunResult
  make_result s failures = do
    raise_if (refuses_state agents s.packet s.world) invalid_context_state
    validate_terminal_consistency (record {
      status = s.machine.state;
      events = s.machine.events;
      verifications = s.verifications;
      reviews = s.reviews;
      repairs = s.repairs;
      failures = failures;
      repair_attempts = length s.repairs;
    })

  -- A transition, and the result that `run` returns after it.
  unfoldable pub finish :
      Run W → TaskRunState → String → List FailureReport → Result RunError (Phase W)
  finish s state detail failures = do
    machine ← change_state s.machine state detail
    result ← make_result (record s { machine = machine }) failures
    ok (finished result)

  -- The same with a failure that is built behind the transition.
  unfoldable pub finish_with :
      Run W → String → Result RunError FailureReport → Result RunError (Phase W)
  finish_with s detail report = do
    machine ← change_state s.machine failed detail
    failure ← report
    result ← make_result (record s { machine = machine }) (failure ∷ [])
    ok (finished result)

module _ {W : Type 0} where
  -- A transition, after which `run` goes on.
  unfoldable pub advance : Run W → TaskRunState → String → Result RunError (Run W)
  advance s state detail = do
    machine ← change_state s.machine state detail
    ok (record s { machine = machine })

  module _ (agents : Agents W) (repair_budget : ℕ) where
    -- _repair_evidence_for_next_attempt
    unfoldable pub next_evidence : List FailureReport → List RepairRunResult → List FailureReport
    next_evidence failures repairs = elim (last repairs) [
      | none ↦ failures
      | some repair ↦ elim repair.progress [
        | none ↦ failures
        | some _ ↦
            map {A = FailureReport}
              (λ failure. record failure {
                evidence = failure.evidence ++ agents.repair_evidence repair;
              })
              failures
      ]
    ]

    -- _finish_no_progress
    unfoldable pub finish_no_progress :
        Run W → List FailureReport → RepairRunResult → Result RunError (Phase W)
    finish_no_progress s failures repair =
        finish agents s failed
          "Repair Agent produced no workspace patch; downstream verification was skipped."
          (map {A = FailureReport}
            (λ failure. record failure {
              retryable = false;
              message =
                  str_append failure.message
                    " Repair Agent produced no candidate patch; downstream verification was not rerun.";
              evidence = failure.evidence ++ agents.no_patch_evidence repair;
            })
            failures)

    -- The handlers of the exceptions of a repair.
    unfoldable pub repair_raised : Run W → RepairError → Result RunError (Phase W)
    repair_raised s (budget_exhausted failures) =
        finish agents s failed "Repair Agent rejected exhausted budget." failures
    repair_raised s (budget_blocked failure) =
        finish agents s failed
          "Repair work-package budget allocation was blocked; recovery can reuse the persisted DAG."
          (failure ∷ [])
    repair_raised s (repair_provider failure) =
        finish agents s failed "Repair model provider failed." (failure ∷ [])
    repair_raised s (repair_value message) =
        finish_with agents s "Repair evidence gate failed." (runtime_failure message [])

    abbrev pub progress_of : W → W → String → RepairProgressEvidence
    progress_of before after signature =
        let has_patch = not (agents.patch_hash before == agents.patch_hash after) in
        record {
          status = if has_patch then patch_produced else no_patch_produced;
          has_patch = has_patch;
          patch_hash_before = agents.patch_hash before;
          patch_hash_after = agents.patch_hash after;
          failure_signature_before = signature;
          failure_signature_after = none;
          validation_executed = false;
        }

    -- What _repair_once does with the answer of the repair agent, and `repairs.append`.
    unfoldable pub record_repair :
        Run W → W → String → W × Attempt RepairError RepairRunResult → Result RunError (Phase W)
    record_repair s before signature (after, raises e) =
        repair_raised (record s { world = after }) e
    record_repair s before signature (after, gives repair) = ok (
        goes_on (record s {
          world = after;
          repairs =
              s.repairs
              ++ record repair { progress = some (progress_of before after signature) } ∷ [];
        }))

    unfoldable pub repair_once : Run W → List FailureReport → String → ℕ → Result RunError (Phase W)
    repair_once s failures signature attempt =
        if ltb repair_budget attempt
        then finish agents s failed "Repair retry budget was exhausted." (
            terminalize (str_append "repair_attempts_exhausted=" (agents.str repair_budget))
              failures)
        else do
          next ← advance s repairing (
              str_append "Fresh targeted repair attempt "
                (str_append (agents.str attempt) " started."))
          handoff ← make_handoff (repair_handoff agents failures next.world)
          record_repair next next.world signature
              (agents.repair attempt failures handoff next.world)

    -- _repair_until_patch. Each round but the last leaves an attempt of the budget.
    unfoldable pub repair_until_patch :
        ℕ → Run W → List FailureReport → String → Result RunError (Phase W)
    repair_until_patch zero s failures signature = err out_of_fuel
    repair_until_patch (suc fuel) s failures signature = do
      step ← repair_once s (next_evidence failures s.repairs) signature (suc (length s.repairs))
      elim step [
        | finished result ↦ ok (finished result)
        | goes_on next ↦ elim (last next.repairs) [
          | none ↦ err missing_progress
          | some repair ↦ elim (verdict repair_budget (length next.repairs) repair) [
            | has_patch ↦ ok (goes_on next)
            | stuck ↦ finish_no_progress next failures repair
            | again ↦ repair_until_patch fuel next failures signature
          ]
        ]
      ]

    -- _repair_verification_detail
    unfoldable pub repair_verification_detail : RepairRunResult → String
    repair_verification_detail repair =
        str_append "Repair attempt "
          (str_append (agents.str repair.attempt) (by_reason repair.stop_reason))
      where
        by_reason : RepairStopReason → String
        by_reason time_limit =
            " reached its time limit; hard gate reruns before a bounded continuation."
        by_reason iteration_limit =
            " reached its iteration limit; hard gate reruns before deciding whether another repair is needed."
        by_reason tool_call_limit =
            " reached its tool-call limit; hard gate reruns before deciding whether another repair is needed."
        by_reason _ = " completed; hard gate reruns."
