-- ===== src/Run.antt =====
-- backend/app/runtime/orchestrator.py, with backend/app/runtime/state_machine.py,
-- backend/app/runtime/failure_classifier.py and the result of backend/app/models/run.py: the loop
-- that develops, verifies, reviews and repairs one task. Here: the data and the state machine.

pub mod Failures
pub mod Handoff
pub mod Repair
pub mod Loop
pub mod Limits
pub mod Outcome
pub mod Patches
pub mod Gates
pub mod Reviews
pub mod Ends
pub mod Escapes
use Prim.Native.String.{◌++◌ as str_append}
use muti_agent.Prelude.{
  ℕ, zero, suc, String, String_eq, Nat_eq, ◌==◌, Bool, true, false, not, ◌&&◌, ◌||◌, Option, none,
  some, List, [], ◌∷◌, ◌++◌, map, any, length, leb, if◌then◌else◌, Eq, ◌≡◌, ◌↔◌, refl, arith,
}
use muti_agent.Result.{Result, ok, err, ◌>>=◌, ◌>>◌, raise_if}

pub data TaskRunState : Type 0 where
  pending running verifying reviewing repairing succeeded failed : TaskRunState

-- _ALLOWED_TRANSITIONS
abbrev pub can_follow : TaskRunState → TaskRunState → Bool
can_follow pending running = true
can_follow running verifying = true
can_follow verifying reviewing = true
can_follow verifying repairing = true
can_follow reviewing succeeded = true
can_follow reviewing repairing = true
can_follow repairing repairing = true
can_follow repairing verifying = true
can_follow succeeded _ = false
can_follow failed _ = false
can_follow _ failed = true
can_follow _ _ = false

abbrev pub same_run_state : TaskRunState → TaskRunState → Bool
same_run_state pending pending = true
same_run_state running running = true
same_run_state verifying verifying = true
same_run_state reviewing reviewing = true
same_run_state repairing repairing = true
same_run_state succeeded succeeded = true
same_run_state failed failed = true
same_run_state _ _ = false

pub record RunEvent : Type 0 where
  pub sequence : ℕ
  pub state : TaskRunState
  pub detail : String

pub record TaskStateMachine : Type 0 where
  pub state : TaskRunState
  pub events : List RunEvent

-- `TaskStateMachine()`
abbrev pub new_machine : TaskStateMachine
new_machine = record {
  state = pending;
  events = record { sequence = 0; state = pending; detail = "Task run created." } ∷ [];
}

pub data RunError : Type 0 where
  invalid_transition : TaskRunState → TaskRunState → RunError
  not_terminal wrong_last_event failures_of_success no_failures wrong_attempts : RunError
  missing_progress out_of_fuel : RunError
  -- A ValidationError of FailureReport, RepairHandoff or ContextContinuationState.
  invalid_failure invalid_handoff invalid_context_state : RunError

abbrev pub moved : TaskStateMachine → TaskRunState → String → TaskStateMachine
moved m next_state detail = record {
  state = next_state;
  events =
      m.events ++ record { sequence = length m.events; state = next_state; detail = detail } ∷ [];
}

unfoldable pub change_state :
    TaskStateMachine → TaskRunState → String → Result RunError TaskStateMachine
change_state m next_state detail = do
  raise_if (not (can_follow m.state next_state)) (invalid_transition m.state next_state)
  ok (moved m next_state detail)

-- The failure types that a repair can address, and the rest.
pub data FailureType : Type 0 where
  test_failure lint_failure review_rejected : FailureType
  other_failure : String → FailureType

pub record FailureReport : Type 0 where
  pub failure_type : FailureType
  pub message : String
  pub retryable : Bool
  pub evidence : List String

-- `failure_type in _REPAIRABLE_FAILURES`
abbrev pub is_repairable : FailureType → Bool
is_repairable (other_failure _) = false
is_repairable _ = true

abbrev pub is_nil {ℓ} : {A : Type ℓ} → List A → Bool
is_nil [] = true
is_nil (_ ∷ _) = false

-- FailureClassifier.repairable
unfoldable pub repairable : List FailureReport → List FailureReport
repairable reports =
    if any (λ report. not report.retryable || not (is_repairable report.failure_type)) reports
    then []
    else reports

-- FailureClassifier.terminalize, where `exhausted` is the last line of evidence.
unfoldable pub terminalize : String → List FailureReport → List FailureReport
terminalize exhausted reports =
    map {A = FailureReport}
      (λ report. record report {
        retryable = false;
        message = str_append report.message " Repair retry budget was exhausted.";
        evidence = report.evidence ++ exhausted ∷ [];
      })
      reports

pub record VerificationResult : Type 0 where
  pub passed : Bool
  pub failure_reports : List FailureReport

pub data ReviewOutcome : Type 0 where
  pass changes_requested : ReviewOutcome

pub record ReviewDecision : Type 0 where
  pub decision : ReviewOutcome
  pub evidence : List String

-- FailureClassifier.from_review, on a decision that holds its evidence lines.
unfoldable pub from_review : ReviewDecision → List FailureReport
from_review d = by_outcome d.decision
  where
    by_outcome : ReviewOutcome → List FailureReport
    by_outcome pass = []
    by_outcome changes_requested =
        record {
          failure_type = review_rejected;
          message = "Independent semantic review requested targeted changes.";
          retryable = true;
          evidence = d.evidence;
        }
        ∷ []

-- Of the records below, and of FailureReport, the fields that neither the loop reads nor the result
-- is validated by are left out: sources, counts of calls, usage, latencies, lists of files and of
-- commands.
pub data RepairStopReason : Type 0 where
  model_stop no_progress explicit_blocker iteration_limit time_limit tool_call_limit :
      RepairStopReason

pub data RepairProgressStatus : Type 0 where
  patch_produced no_patch_produced progress_made repair_ineffective repaired : RepairProgressStatus

pub record RepairProgressEvidence : Type 0 where
  pub status : RepairProgressStatus
  pub has_patch : Bool
  pub patch_hash_before : String
  pub patch_hash_after : String
  pub failure_signature_before : String
  pub failure_signature_after : Option String
  pub validation_executed : Bool

pub record RepairRunResult : Type 0 where
  pub attempt : ℕ
  pub stop_reason : RepairStopReason
  pub final_message : String
  pub progress : Option RepairProgressEvidence

pub record SingleTaskRunResult : Type 0 where
  pub status : TaskRunState
  pub events : List RunEvent
  pub verifications : List VerificationResult
  pub reviews : List ReviewDecision
  pub repairs : List RepairRunResult
  pub failures : List FailureReport
  pub repair_attempts : ℕ

abbrev pub last {ℓ} : {A : Type ℓ} → List A → Option A
last [] = none
last (x ∷ []) = some x
last (_ ∷ y ∷ xs) = last (y ∷ xs)

-- `self.events[-1].state is self.status`
abbrev pub ends_in : List RunEvent → TaskRunState → Bool
ends_in [] state = false
ends_in (e ∷ []) state = same_run_state e.state state
ends_in (_ ∷ e ∷ es) state = ends_in (e ∷ es) state

abbrev pub is_success : TaskRunState → Bool
is_success succeeded = true
is_success _ = false

abbrev pub is_failure : TaskRunState → Bool
is_failure failed = true
is_failure _ = false

unfoldable pub validate_terminal_consistency :
    SingleTaskRunResult → Result RunError SingleTaskRunResult
validate_terminal_consistency r = do
  raise_if (not (is_success r.status || is_failure r.status)) not_terminal
  raise_if (not (ends_in r.events r.status)) wrong_last_event
  raise_if (is_success r.status && not (is_nil r.failures)) failures_of_success
  raise_if (is_failure r.status && is_nil r.failures) no_failures
  raise_if (not (r.repair_attempts == length r.repairs)) wrong_attempts
  ok r
