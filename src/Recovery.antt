-- ===== src/Recovery.antt =====
-- backend/app/runtime/recovery.py, backend/app/models/recovery.py, the worker evidence of
-- backend/app/models/dispatch.py and the persisted evidence of backend/app/persistence/types.py: the
-- diagnosis of a run whose workers may have died. The lengths of texts are checked where they enter.
pub mod Evidence
pub mod Classify
pub mod Leases
pub mod Sides
pub mod Diagnoses
pub mod Plans
pub mod Corruption
use muti_agent.Prelude.{
  ℕ, String, String_eq, Nat_eq, ◌==◌, Bool, true, false, not, ◌&&◌, ◌||◌, Option, none, some, List,
  [], ◌∷◌, map, if◌then◌else◌, ltb, distinct, ◌≡◌, ◌↔◌, refl, arith,
}
use muti_agent.Result.{Result, ok, err, ◌>>=◌, ◌>>◌, raise_if}
use muti_agent.Lease.{Time, Uuid, TaskLeaseState, unowned, active, expired, released, is_none}
use muti_agent.Lease.Events.{PersistedRunStatus}

pub data WorkerExecutionStatus : Type 0 where
  succeeded failed : WorkerExecutionStatus

pub data RecoveryDisposition : Type 0 where
  no_action_run_terminal wait_active_owner resume_from_terminal_evidence
        redispatch_candidate_expired_generation blocked_unowned_dispatch_ambiguity
        blocked_released_evidence_gap :
      RecoveryDisposition

pub data RecoveryError : Type 0 where
  lease_of_other_run duplicate_lease other_observation lease_task_mismatch : RecoveryError
  evidence_of_other_run unknown_task payload_run_mismatch payload_task_mismatch : RecoveryError
  duplicate_execution duplicate_phase completed_without_execution unowned_evidence : RecoveryError
  invalid_payload invalid_shape invalid_plan no_lease no_dispatch : RecoveryError

pub record TaskRecoveryAssessment : Type 0 where
  pub run_id : Uuid
  pub task_id : String
  pub disposition : RecoveryDisposition
  pub lease_state : TaskLeaseState
  pub lease_generation : ℕ
  pub lease_dispatch_id : Option Uuid
  pub observed_at : Time
  pub worker_execution_status : Option WorkerExecutionStatus
  pub worker_execution_evidence_id : Option ℕ

pub record RunRecoveryPlan : Type 0 where
  pub run_id : Uuid
  pub run_status : PersistedRunStatus
  pub observed_at : Time
  pub tasks : List TaskRecoveryAssessment

abbrev pub same_presence : {A B : Type 0} → Option A → Option B → Bool
same_presence none none = true
same_presence (some a) (some b) = true
same_presence _ _ = false

-- `Field(default=None, ge=1)`
abbrev pub is_id : Option ℕ → Bool
is_id none = true
is_id (some n) = not (n == 0)

-- The test of validate_recovery_shape on the lease.
abbrev pub lease_fits : TaskLeaseState → ℕ → Option Uuid → Bool
lease_fits unowned generation dispatch = generation == 0 && is_none dispatch
lease_fits _ generation dispatch = not (ltb generation 1 || is_none dispatch)

-- The test of validate_recovery_shape on the disposition.
abbrev pub disposition_fits :
    RecoveryDisposition → TaskLeaseState → Option WorkerExecutionStatus → Bool
disposition_fits no_action_run_terminal state status = true
disposition_fits wait_active_owner active status = true
disposition_fits wait_active_owner _ status = false
disposition_fits resume_from_terminal_evidence state status = not (is_none status)
disposition_fits redispatch_candidate_expired_generation expired status = is_none status
disposition_fits redispatch_candidate_expired_generation _ status = false
disposition_fits blocked_unowned_dispatch_ambiguity unowned status = true
disposition_fits blocked_unowned_dispatch_ambiguity _ status = false
disposition_fits blocked_released_evidence_gap released status = is_none status
disposition_fits blocked_released_evidence_gap _ status = false

-- `TaskRecoveryAssessment(...)`
unfoldable pub validate_recovery_shape :
    TaskRecoveryAssessment → Result RecoveryError TaskRecoveryAssessment
validate_recovery_shape a = do
  raise_if (not (is_id a.worker_execution_evidence_id)) invalid_shape
  raise_if (not (same_presence a.worker_execution_status a.worker_execution_evidence_id))
      invalid_shape
  raise_if (not (lease_fits a.lease_state a.lease_generation a.lease_dispatch_id)) invalid_shape
  raise_if (not (disposition_fits a.disposition a.lease_state a.worker_execution_status))
      invalid_shape
  ok a

-- The loop of validate_plan_shape.
unfoldable pub validate_tasks :
    Uuid → Time → List TaskRecoveryAssessment → Result RecoveryError (Unit {0})
validate_tasks run_id observed_at [] = ok tt
validate_tasks run_id observed_at (task ∷ tasks) = do
  raise_if (not (task.run_id == run_id)) invalid_plan
  raise_if (not (task.observed_at == observed_at)) invalid_plan
  validate_tasks run_id observed_at tasks

unfoldable pub assessed_ids : List TaskRecoveryAssessment → List String
assessed_ids tasks = map (λ a. a.task_id) tasks

abbrev pub is_empty_plan : List TaskRecoveryAssessment → Bool
is_empty_plan [] = true
is_empty_plan (_ ∷ _) = false

-- `RunRecoveryPlan(...)`
unfoldable pub validate_plan_shape : RunRecoveryPlan → Result RecoveryError RunRecoveryPlan
validate_plan_shape plan = do
  raise_if (is_empty_plan plan.tasks) invalid_plan
  validate_tasks plan.run_id plan.observed_at plan.tasks
  raise_if (not (distinct (assessed_ids plan.tasks))) invalid_plan
  ok plan
