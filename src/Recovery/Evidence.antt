-- ===== src/Recovery/Evidence.antt =====
-- The reading of persisted evidence in backend/app/runtime/recovery.py, with the validators of
-- backend/app/models/dispatch.py. A payload is the value that it decodes to, which holds the fields
-- that a validator or the classifier reads. A dictionary of dictionaries is the list of its entries, in the
-- order of their insertion.
use muti_agent.Prelude.{
  ℕ, String, String_eq, Nat_eq, ◌==◌, Bool, true, false, not, ◌&&◌, ◌||◌, Option, none, some, List,
  [], ◌∷◌, ◌++◌, any, elem, if◌then◌else◌,
}
use muti_agent.Result.{Result, ok, err, ◌>>=◌, ◌>>◌, raise_if}
use muti_agent.Lease.{Uuid, TaskLeaseSnapshot, is_unowned, is_none, holds}
use muti_agent.Run.{TaskRunState, same_run_state}
use muti_agent.Recovery.{
  WorkerExecutionStatus, succeeded, failed, RecoveryError, evidence_of_other_run, unknown_task,
  payload_run_mismatch, payload_task_mismatch, duplicate_execution, duplicate_phase,
  completed_without_execution, unowned_evidence, invalid_payload,
}

pub data WorkerDispatchPhase : Type 0 where
  received completed : WorkerDispatchPhase

pub record WorkerDispatchEvent : Type 0 where
  pub dispatch_id : Uuid
  pub run_id : Uuid
  pub task_id : String
  pub phase : WorkerDispatchPhase
  pub outcome : Option WorkerExecutionStatus

-- run_result shows its task_id and status, checkpoint its task_id, failures whether there are any.
pub record WorkerExecutionEvidence : Type 0 where
  pub dispatch_id : Uuid
  pub run_id : Uuid
  pub task_id : String
  pub status : WorkerExecutionStatus
  pub commit_sha : Option String
  pub checkpoint_task : Option String
  pub run_result : Option (String × TaskRunState)
  pub has_failures : Bool

unfoldable pub validate_phase_shape : WorkerDispatchEvent → Result RecoveryError WorkerDispatchEvent
validate_phase_shape event = elim event.phase [
  | received ↦ do raise_if (not (is_none event.outcome)) invalid_payload; ok event
  | completed ↦ do raise_if (is_none event.outcome) invalid_payload; ok event
]

abbrev pub result_has : TaskRunState → Option (String × TaskRunState) → Bool
result_has state none = false
result_has state (some (task_id, status)) = same_run_state status state

-- `x is not None and x.task_id != task_id`
abbrev pub other_checkpoint : String → Option String → Bool
other_checkpoint task_id none = false
other_checkpoint task_id (some other) = not (other == task_id)

abbrev pub other_result : String → Option (String × TaskRunState) → Bool
other_result task_id none = false
other_result task_id (some (other, status)) = not (other == task_id)

unfoldable pub validate_terminal_shape :
    WorkerExecutionEvidence → Result RecoveryError WorkerExecutionEvidence
validate_terminal_shape e = do
  raise_if (other_result e.task_id e.run_result) invalid_payload
  elim e.status [
    | succeeded ↦ do
      raise_if (not (result_has TaskRunState.succeeded e.run_result)) invalid_payload
      raise_if e.has_failures invalid_payload
      raise_if (is_none e.commit_sha) invalid_payload
      raise_if (not (is_none e.checkpoint_task)) invalid_payload
      ok e
    | failed ↦ do
      raise_if (not (is_none e.commit_sha)) invalid_payload
      raise_if (other_checkpoint e.task_id e.checkpoint_task) invalid_payload
      raise_if (not e.has_failures && not (result_has TaskRunState.failed e.run_result))
          invalid_payload
      ok e
  ]

pub data PersistenceEvidenceKind : Type 0 where
  state_transition developer_run verification_result review_decision repair_run failure_report
        merge_queue_snapshot merge_conflict integration_gate human_decision integration_repair
        context_reference dispatch_event worker_execution trace_batch operator_action
        task_checkpoint workflow_match workflow_execution :
      PersistenceEvidenceKind

pub data Payload : Type 0 where
  execution_payload : WorkerExecutionEvidence → Payload
  dispatch_payload : WorkerDispatchEvent → Payload
  other_payload : Payload

pub record PersistedEvidence : Type 0 where
  pub id : ℕ
  pub run_id : Uuid
  pub task_id : Option String
  pub kind : PersistenceEvidenceKind
  pub payload : Payload

unfoldable pub decode_execution : Payload → Result RecoveryError WorkerExecutionEvidence
decode_execution (execution_payload e) = validate_terminal_shape e
decode_execution _ = err invalid_payload

unfoldable pub decode_dispatch : Payload → Result RecoveryError WorkerDispatchEvent
decode_dispatch (dispatch_payload event) = validate_phase_shape event
decode_dispatch _ = err invalid_payload

pub record WorkerEntry : Type 0 where
  pub task_id : String
  pub dispatch_id : Uuid
  pub evidence_id : ℕ
  pub execution : WorkerExecutionEvidence

pub record PhaseEntry : Type 0 where
  pub task_id : String
  pub dispatch_id : Uuid
  pub phase : WorkerDispatchPhase
  pub evidence_id : ℕ

pub record WorkerSide : Type 0 where
  pub workers : List WorkerEntry
  pub dispatches : List PhaseEntry

abbrev pub same_phase : WorkerDispatchPhase → WorkerDispatchPhase → Bool
same_phase received received = true
same_phase completed completed = true
same_phase _ _ = false

abbrev pub is_entry : String → Uuid → WorkerEntry → Bool
is_entry task_id dispatch_id w = w.task_id == task_id && w.dispatch_id == dispatch_id

-- `workers.get(task_id, {}).get(dispatch_id)`
unfoldable pub find_worker : String → Uuid → List WorkerEntry → Option WorkerEntry
find_worker task_id dispatch_id [] = none
find_worker task_id dispatch_id (w ∷ ws) =
    if is_entry task_id dispatch_id w then some w else find_worker task_id dispatch_id ws

unfoldable pub has_phase : String → Uuid → WorkerDispatchPhase → List PhaseEntry → Bool
has_phase task_id dispatch_id phase entries =
    any (λ d. d.task_id == task_id && d.dispatch_id == dispatch_id && same_phase d.phase phase)
      entries

unfoldable pub validated_task_scope :
    Uuid → List String → PersistedEvidence → Option String → Result RecoveryError String
validated_task_scope run_id known evidence task_id = do
  raise_if (not (evidence.run_id == run_id)) evidence_of_other_run
  elim task_id [
    | none ↦ err unknown_task
    | some name ↦ do raise_if (not (elem name known)) unknown_task; ok name
  ]

unfoldable pub validate_payload_identity :
    Uuid → PersistedEvidence → Uuid → String → Result RecoveryError (Unit {0})
validate_payload_identity run_id evidence payload_run payload_task = do
  raise_if (not (payload_run == run_id) || not (payload_run == evidence.run_id))
      payload_run_mismatch
  raise_if (not (holds evidence.task_id payload_task)) payload_task_mismatch

-- One row of WORKER_EXECUTION evidence.
unfoldable pub add_execution :
    Uuid → List String → PersistedEvidence → WorkerSide → Result RecoveryError WorkerSide
add_execution run_id known evidence side = do
  task_id ← validated_task_scope run_id known evidence evidence.task_id
  execution ← decode_execution evidence.payload
  validate_payload_identity run_id evidence execution.run_id execution.task_id
  raise_if (not (is_none (find_worker task_id execution.dispatch_id side.workers)))
      duplicate_execution
  ok (record side {
    workers =
        side.workers
        ++ record {
          task_id = task_id;
          dispatch_id = execution.dispatch_id;
          evidence_id = evidence.id;
          execution = execution;
        }
          ∷ [];
  })

-- One row of DISPATCH_EVENT evidence.
unfoldable pub add_dispatch :
    Uuid → List String → PersistedEvidence → WorkerSide → Result RecoveryError WorkerSide
add_dispatch run_id known evidence side = do
  task_id ← validated_task_scope run_id known evidence evidence.task_id
  dispatch ← decode_dispatch evidence.payload
  validate_payload_identity run_id evidence dispatch.run_id dispatch.task_id
  raise_if (has_phase task_id dispatch.dispatch_id dispatch.phase side.dispatches) duplicate_phase
  ok (record side {
    dispatches =
        side.dispatches
        ++ record {
          task_id = task_id;
          dispatch_id = dispatch.dispatch_id;
          phase = dispatch.phase;
          evidence_id = evidence.id;
        }
          ∷ [];
  })

unfoldable pub add_evidence :
    Uuid → List String → PersistedEvidence → WorkerSide → Result RecoveryError WorkerSide
add_evidence run_id known evidence side = elim evidence.kind [
  | worker_execution ↦ add_execution run_id known evidence side
  | dispatch_event ↦ add_dispatch run_id known evidence side
  | _ ↦ ok side
]

unfoldable pub add_all :
    Uuid → List String → List PersistedEvidence → WorkerSide → Result RecoveryError WorkerSide
add_all run_id known [] side = ok side
add_all run_id known (evidence ∷ rest) side = do
  next ← add_evidence run_id known evidence side
  add_all run_id known rest next

abbrev pub lacks_execution : List WorkerEntry → PhaseEntry → Bool
lacks_execution workers d =
    same_phase d.phase completed && is_none (find_worker d.task_id d.dispatch_id workers)

unfoldable pub decode_worker_side_evidence :
    Uuid → List String → List PersistedEvidence → Result RecoveryError WorkerSide
decode_worker_side_evidence run_id known evidence = do
  side ← add_all run_id known evidence (record { workers = []; dispatches = [] })
  raise_if (any (lacks_execution side.workers) side.dispatches) completed_without_execution
  ok side

-- `workers.get(task_id) or dispatches.get(task_id)`
unfoldable pub has_worker_side : String → WorkerSide → Bool
has_worker_side task_id side =
    any (λ w. w.task_id == task_id) side.workers || any (λ d. d.task_id == task_id) side.dispatches

unfoldable pub validate_unowned_worker_evidence :
    List TaskLeaseSnapshot → WorkerSide → Result RecoveryError (Unit {0})
validate_unowned_worker_evidence leases side =
    raise_if (any (λ l. is_unowned l.state && has_worker_side l.task_id side) leases)
      unowned_evidence
