-- ===== src/Recovery/Classify.antt =====
-- RecoveryStateClassifier of backend/app/runtime/recovery.py.
use muti_agent.Prelude.{
  ℕ, String, String_eq, Nat_eq, ◌==◌, true, false, not, ◌&&◌, ◌||◌, Option, none, some, List, [],
  ◌∷◌, ◌++◌, map, elem, subset, if◌then◌else◌,
}
use muti_agent.Result.{Result, ok, err, ◌>>=◌, ◌>>◌, raise_if, traverse}
use muti_agent.Lease.{
  Time, Uuid, TaskLeaseState, unowned, active, expired, released, TaskLeaseSnapshot, is_none, holds,
}
use muti_agent.Lease.Events.{PersistedRunStatus}
use muti_agent.Lease.Store.{is_running}
use muti_agent.Recovery.{
  WorkerExecutionStatus, RecoveryDisposition, no_action_run_terminal, wait_active_owner,
  resume_from_terminal_evidence, redispatch_candidate_expired_generation,
  blocked_unowned_dispatch_ambiguity, blocked_released_evidence_gap, RecoveryError,
  lease_of_other_run, duplicate_lease, other_observation, lease_task_mismatch, unowned_evidence,
  no_lease, no_dispatch, TaskRecoveryAssessment, RunRecoveryPlan, validate_recovery_shape,
  validate_plan_shape,
}
use muti_agent.Recovery.Evidence.{
  PersistedEvidence, WorkerEntry, WorkerSide, find_worker, has_worker_side,
  decode_worker_side_evidence, validate_unowned_worker_evidence,
}

-- The fields of PersistedRunSnapshot that the classifier reads; tasks are the ids of its contracts.
pub record PersistedRunSnapshot : Type 0 where
  pub run_id : Uuid
  pub status : PersistedRunStatus
  pub tasks : List String
  pub evidence : List PersistedEvidence

unfoldable pub lease_tasks : List TaskLeaseSnapshot → List String
lease_tasks leases = map (λ l. l.task_id) leases

-- The loop of _validate_leases: the run, the leases seen before, their time, the leases to come.
unfoldable pub collect_leases :
    Uuid
    → List TaskLeaseSnapshot
    → Option Time
    → List TaskLeaseSnapshot
    → Result RecoveryError (List TaskLeaseSnapshot)
collect_leases run_id seen observed_at [] = ok seen
collect_leases run_id seen observed_at (lease ∷ leases) = do
  raise_if (not (lease.run_id == run_id)) lease_of_other_run
  raise_if (elem lease.task_id (lease_tasks seen)) duplicate_lease
  raise_if (not (is_none observed_at || holds observed_at lease.observed_at)) other_observation
  collect_leases run_id (seen ++ lease ∷ []) (some lease.observed_at) leases

unfoldable pub validate_leases :
    PersistedRunSnapshot → List TaskLeaseSnapshot → Result RecoveryError (List TaskLeaseSnapshot)
validate_leases snapshot leases = do
  by_task ← collect_leases snapshot.run_id [] none leases
  raise_if
      (not (
        subset (lease_tasks by_task) snapshot.tasks && subset snapshot.tasks (lease_tasks by_task)))
      lease_task_mismatch
  ok by_task

-- `lease_by_task[task_id]`
unfoldable pub find_lease : String → List TaskLeaseSnapshot → Result RecoveryError TaskLeaseSnapshot
find_lease task_id [] = err no_lease
find_lease task_id (lease ∷ leases) =
    if lease.task_id == task_id then ok lease else find_lease task_id leases

abbrev pub first_observed : List TaskLeaseSnapshot → Result RecoveryError Time
first_observed [] = err no_lease
first_observed (lease ∷ leases) = ok lease.observed_at

abbrev pub worker_status : Option WorkerEntry → Option WorkerExecutionStatus
worker_status none = none
worker_status (some w) = some w.execution.status

abbrev pub worker_evidence_id : Option WorkerEntry → Option ℕ
worker_evidence_id none = none
worker_evidence_id (some w) = some w.evidence_id

abbrev pub assessment_of :
    PersistedRunSnapshot
    → TaskLeaseSnapshot
    → RecoveryDisposition
    → Option WorkerEntry
    → TaskRecoveryAssessment
assessment_of snapshot lease disposition worker = record {
  run_id = snapshot.run_id;
  task_id = lease.task_id;
  disposition = disposition;
  lease_state = lease.state;
  lease_generation = lease.generation;
  lease_dispatch_id = lease.dispatch_id;
  observed_at = lease.observed_at;
  worker_execution_status = worker_status worker;
  worker_execution_evidence_id = worker_evidence_id worker;
}

unfoldable pub assessment :
    PersistedRunSnapshot
    → TaskLeaseSnapshot
    → RecoveryDisposition
    → Option WorkerEntry
    → Result RecoveryError TaskRecoveryAssessment
assessment snapshot lease disposition worker =
    validate_recovery_shape (assessment_of snapshot lease disposition worker)

-- The disposition of a task that a worker has owned, in a run that has not ended.
abbrev pub owned_disposition :
    TaskLeaseState → Option WorkerEntry → Result RecoveryError RecoveryDisposition
owned_disposition unowned worker = err unowned_evidence
owned_disposition active worker = ok wait_active_owner
owned_disposition expired (some w) = ok resume_from_terminal_evidence
owned_disposition expired none = ok redispatch_candidate_expired_generation
owned_disposition released (some w) = ok resume_from_terminal_evidence
owned_disposition released none = ok blocked_released_evidence_gap

unfoldable pub classify_owned :
    PersistedRunSnapshot
    → TaskLeaseSnapshot
    → WorkerSide
    → Option Uuid
    → Result RecoveryError TaskRecoveryAssessment
classify_owned snapshot lease side none = err no_dispatch
classify_owned snapshot lease side (some dispatch_id) = do
  let worker = find_worker lease.task_id dispatch_id side.workers
  disposition ← owned_disposition lease.state worker
  assessment snapshot lease disposition worker

abbrev pub classify_open :
    PersistedRunSnapshot
    → TaskLeaseSnapshot
    → WorkerSide
    → TaskLeaseState
    → Result RecoveryError TaskRecoveryAssessment
classify_open snapshot lease side unowned = do
  raise_if (has_worker_side lease.task_id side) unowned_evidence
  assessment snapshot lease blocked_unowned_dispatch_ambiguity none
classify_open snapshot lease side _ = classify_owned snapshot lease side lease.dispatch_id

unfoldable pub classify_task :
    PersistedRunSnapshot
    → List TaskLeaseSnapshot
    → WorkerSide
    → String
    → Result RecoveryError TaskRecoveryAssessment
classify_task snapshot leases side task_id = do
  lease ← find_lease task_id leases
  elim (is_running snapshot.status) [
    | true ↦ classify_open snapshot lease side lease.state
    | false ↦ assessment snapshot lease no_action_run_terminal none
  ]

unfoldable pub classify :
    PersistedRunSnapshot → List TaskLeaseSnapshot → Result RecoveryError RunRecoveryPlan
classify snapshot leases = do
  by_task ← validate_leases snapshot leases
  observed_at ← first_observed by_task
  side ← decode_worker_side_evidence snapshot.run_id snapshot.tasks snapshot.evidence
  validate_unowned_worker_evidence by_task side
  assessments ← traverse (classify_task snapshot by_task side) snapshot.tasks
  validate_plan_shape (record {
    run_id = snapshot.run_id;
    run_status = snapshot.status;
    observed_at = observed_at;
    tasks = assessments;
  })
