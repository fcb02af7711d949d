-- ===== src/Tests/Recoveries.antt =====
-- backend/app/runtime/recovery.py: a run of two tasks, one with a dead worker.
use muti_agent.Prelude.{
  Nat_eq, String, String_eq, ◌≡◌, refl, true, false, none, some, List, [], ◌∷◌, Member, here,
}
use muti_agent.Result.{ok, err, traverse}
use muti_agent.Lease.{
  Time, Uuid, TaskLeaseState, active, expired, TaskLeaseSnapshot, holds, validate_shape,
  validate_times, validate_release,
}
use muti_agent.Lease.Events.{running}
use muti_agent.Lease.Store.{is_running}
use muti_agent.Recovery.{
  failed, TaskRecoveryAssessment, RunRecoveryPlan, RecoveryError,
  redispatch_candidate_expired_generation, wait_active_owner, validate_recovery_shape,
  validate_tasks, assessed_ids, validate_plan_shape,
}
use muti_agent.Recovery.Evidence.{
  PersistedEvidence, WorkerExecutionEvidence, WorkerSide, received, execution_payload,
  dispatch_payload, worker_execution, dispatch_event, validate_phase_shape, validate_terminal_shape,
  decode_execution, decode_dispatch, find_worker, has_phase, validated_task_scope,
  validate_payload_identity, add_execution, add_dispatch, add_evidence, add_all,
  decode_worker_side_evidence, has_worker_side, validate_unowned_worker_evidence,
}
use muti_agent.Recovery.Classify.{
  PersistedRunSnapshot, lease_tasks, collect_leases, validate_leases, find_lease, assessment,
  assessment_of, classify_owned, classify_task, classify,
}
use muti_agent.Recovery.Sides.{is_execution}
use muti_agent.Recovery.Diagnoses.{is_shaped}
use muti_agent.Recovery.Plans.{Passes, Read, Explained, classify-Explained, classify-redispatch}
use muti_agent.Recovery.Corruption.{is_sound, claimed, classify-corrupt}

classifier : Unit {0}
unfolding validate_shape validate_times validate_release validate_recovery_shape validate_tasks
    assessed_ids validate_plan_shape validate_phase_shape validate_terminal_shape decode_execution
    decode_dispatch find_worker has_phase validated_task_scope validate_payload_identity
    add_execution add_dispatch add_evidence add_all decode_worker_side_evidence has_worker_side
    validate_unowned_worker_evidence lease_tasks collect_leases validate_leases find_lease
    assessment classify_owned classify_task classify is_shaped traverse is_sound claimed
classifier = tt

abbrev lease : String → TaskLeaseState → Uuid → Time → TaskLeaseSnapshot
lease task_id state dispatch until = record {
  run_id = 1;
  task_id = task_id;
  state = state;
  generation = 2;
  owner_id = some "worker";
  dispatch_id = some dispatch;
  acquired_at = some 10;
  heartbeat_at = some 20;
  lease_until = some until;
  released_at = none;
  observed_at = 50;
}

abbrev leases : List TaskLeaseSnapshot
leases = lease "a" expired 8 40 ∷ lease "b" active 9 90 ∷ []

-- The dispatch of task a was received. An earlier dispatch of it had failed.
abbrev received_a : PersistedEvidence
received_a = record {
  id = 3;
  run_id = 1;
  task_id = some "a";
  kind = dispatch_event;
  payload =
      dispatch_payload
        (record { dispatch_id = 8; run_id = 1; task_id = "a"; phase = received; outcome = none });
}

abbrev failed_execution : Uuid → WorkerExecutionEvidence
failed_execution run_id = record {
  dispatch_id = 7;
  run_id = run_id;
  task_id = "a";
  status = failed;
  commit_sha = none;
  checkpoint_task = none;
  run_result = none;
  has_failures = true;
}

abbrev failed_a : Uuid → PersistedEvidence
failed_a run_id = record {
  id = 2;
  run_id = 1;
  task_id = some "a";
  kind = worker_execution;
  payload = execution_payload (failed_execution run_id);
}

abbrev run_of : List PersistedEvidence → PersistedRunSnapshot
run_of evidence = record {
  run_id = 1;
  status = running;
  tasks = "a" ∷ "b" ∷ [];
  evidence = evidence;
}

abbrev snapshot : PersistedRunSnapshot
snapshot = run_of (failed_a 1 ∷ received_a ∷ [])

abbrev side : WorkerSide
side = record {
  workers =
      record { task_id = "a"; dispatch_id = 7; evidence_id = 2; execution = failed_execution 1 }
      ∷ [];
  dispatches = record { task_id = "a"; dispatch_id = 8; phase = received; evidence_id = 3 } ∷ [];
}

abbrev plan : RunRecoveryPlan
plan = record {
  run_id = 1;
  run_status = running;
  observed_at = 50;
  tasks =
      assessment_of snapshot (lease "a" expired 8 40) redispatch_candidate_expired_generation none
      ∷ assessment_of snapshot (lease "b" active 9 90) wait_active_owner none
      ∷ [];
}

read : Read snapshot leases
unfolding classifier
read = record { some_tasks = λ e. cc; unique_tasks = refl; ids = refl; shaped = refl }

passes : Passes snapshot leases leases side
unfolding classifier
passes = record { of_tasks = refl; decoded = refl; owned = refl }

classify-snapshot : classify snapshot leases ≡ ok plan
unfolding classifier
classify-snapshot = refl

classify-Explained_example :
    (made : RunRecoveryPlan) × (classify snapshot leases ≡ ok made)
    × (assessed_ids made.tasks ≡ "a" ∷ "b" ∷ [])
    × ((a : TaskRecoveryAssessment) → Member a made.tasks → Explained snapshot leases side a)
classify-Explained_example = classify-Explained snapshot leases read leases side passes

classify-redispatch_example :
    (is_running snapshot.status ≡ true)
    × (expired ≡ expired)
    × ((e : PersistedEvidence) (x : WorkerExecutionEvidence)
        → Member e snapshot.evidence
        → is_execution e.kind ≡ true
        → decode_execution e.payload ≡ ok x
        → x.task_id ≡ "a"
        → holds (some 8) x.dispatch_id ≡ false)
classify-redispatch_example =
    classify-redispatch snapshot leases read plan
      (assessment_of snapshot (lease "a" expired 8 40) redispatch_candidate_expired_generation none)
      classify-snapshot here refl

failed_a-unsound : is_sound 1 ("a" ∷ "b" ∷ []) (failed_a 5) ≡ false
unfolding classifier
failed_a-unsound = refl

classify-corrupt_example :
    (raised : RecoveryError) × (classify (run_of (failed_a 5 ∷ [])) leases ≡ err raised)
classify-corrupt_example =
    classify-corrupt (run_of (failed_a 5 ∷ [])) leases (failed_a 5) here refl failed_a-unsound
