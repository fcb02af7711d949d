-- ===== src/Recovery/Diagnoses.antt =====
-- RecoveryStateClassifier of backend/app/runtime/recovery.py: the diagnosis of one task, and why it is that one.
use muti_agent.Prelude.{
  String, String_eq, Nat_eq, Bool, true, false, ◌&&◌, Option, none, some, List, all, ◌≡◌, refl,
  arith, Bool-cases, Option-cases, inl, inr,
}
use muti_agent.Result.{Result, ok, err}
use muti_agent.Lease.{
  is_active, Uuid, TaskLeaseSnapshot, TaskLeaseState, unowned, active, expired, released,
  validate_shape, is_unowned, is_none,
}
use muti_agent.Lease.Store.{is_running}
use muti_agent.Recovery.{
  wait_active_owner, resume_from_terminal_evidence, blocked_unowned_dispatch_ambiguity,
  blocked_released_evidence_gap, TaskRecoveryAssessment, RecoveryError, RecoveryDisposition,
  redispatch_candidate_expired_generation, no_action_run_terminal, validate_recovery_shape,
  lease_fits, disposition_fits,
}
use muti_agent.Recovery.Evidence.{WorkerEntry, WorkerSide, find_worker, has_worker_side}
use muti_agent.Recovery.Classify.{
  PersistedRunSnapshot, assessment_of, worker_status, owned_disposition, find_lease, assessment,
  classify_owned, classify_open, classify_task,
}
use muti_agent.Recovery.Sides.{has_id, find_worker-has_id}

-- The lease passes the validator of its model.
unfoldable pub is_shaped : TaskLeaseSnapshot → Bool
is_shaped l = elim (validate_shape l) [ ok _ ↦ true | err _ ↦ false ]

is_shaped-lease_fits :
    (l : TaskLeaseSnapshot)
    → is_shaped l ≡ true
    → lease_fits l.state l.generation l.dispatch_id ≡ true
unfolding is_shaped validate_shape
is_shaped-lease_fits l h = ground arith

abbrev worker_fits : Option WorkerEntry → Bool
worker_fits none = true
worker_fits (some w) = has_id w

-- Why a task of the run has a disposition, by its lease and the worker evidence.
abbrev pub Justified :
    PersistedRunSnapshot → WorkerSide → TaskLeaseSnapshot → RecoveryDisposition → Type 0
Justified snapshot side l no_action_run_terminal = is_running snapshot.status ≡ false
Justified snapshot side l wait_active_owner =
    (is_running snapshot.status ≡ true) × (l.state ≡ active)
Justified snapshot side l resume_from_terminal_evidence =
    (is_running snapshot.status ≡ true)
    × (is_active l.state ≡ false)
    × ((dispatch : Uuid) × (l.dispatch_id ≡ some dispatch)
        × (is_none (find_worker l.task_id dispatch side.workers) ≡ false))
Justified snapshot side l redispatch_candidate_expired_generation =
    (is_running snapshot.status ≡ true)
    × (l.state ≡ expired)
    × ((dispatch : Uuid) × (l.dispatch_id ≡ some dispatch)
        × (is_none (find_worker l.task_id dispatch side.workers) ≡ true))
Justified snapshot side l blocked_unowned_dispatch_ambiguity =
    (is_running snapshot.status ≡ true)
    × (l.state ≡ unowned)
    × (has_worker_side l.task_id side ≡ false)
Justified snapshot side l blocked_released_evidence_gap =
    (is_running snapshot.status ≡ true)
    × (l.state ≡ released)
    × ((dispatch : Uuid) × (l.dispatch_id ≡ some dispatch)
        × (is_none (find_worker l.task_id dispatch side.workers) ≡ true))

-- The assessment of a lease, and why it is that one.
abbrev pub Diagnosed :
    PersistedRunSnapshot
    → WorkerSide
    → TaskLeaseSnapshot
    → Result RecoveryError TaskRecoveryAssessment
    → Type 0
Diagnosed snapshot side l answer =
    (d : RecoveryDisposition) × (w : Option WorkerEntry) × (answer
      ≡ ok (assessment_of snapshot l d w))
    × Justified snapshot side l d

module _ (snapshot : PersistedRunSnapshot) where
  assessment-ok :
      (l : TaskLeaseSnapshot) (d : RecoveryDisposition) (w : Option WorkerEntry)
      → is_shaped l ≡ true
      → disposition_fits d l.state (worker_status w) ≡ true
      → worker_fits w ≡ true
      → assessment snapshot l d w ≡ ok (assessment_of snapshot l d w)
  unfolding assessment validate_recovery_shape
  assessment-ok l d w shaped fits worker = ground (arith, is_shaped-lease_fits l shaped)

  module _ (side : WorkerSide) (ids : all has_id side.workers ≡ true)
      (running : is_running snapshot.status ≡ true) (l : TaskLeaseSnapshot)
      (shaped : is_shaped l ≡ true) where
    module _ (dispatch : Uuid) (at : l.dispatch_id ≡ some dispatch) where
      found_fits : worker_fits (find_worker l.task_id dispatch side.workers) ≡ true
      found_fits = elim (Option-cases (find_worker l.task_id dispatch side.workers)) [
        | inl missing ↦ rw missing refl
        | inr (w, found) ↦ rw found (find_worker-has_id l.task_id dispatch side.workers w ids found)
      ]

      owned_by :
          (d : RecoveryDisposition)
          → owned_disposition l.state (find_worker l.task_id dispatch side.workers) ≡ ok d
          → disposition_fits d l.state (worker_status (find_worker l.task_id dispatch side.workers))
            ≡ true
          → classify_owned snapshot l side (some dispatch)
            ≡ ok (assessment_of snapshot l d (find_worker l.task_id dispatch side.workers))
      unfolding classify_owned
      owned_by d e fits = ground (
        arith,
        assessment-ok l d (find_worker l.task_id dispatch side.workers) shaped fits found_fits,
      )

      resumed :
          (w : WorkerEntry)
          → find_worker l.task_id dispatch side.workers ≡ some w
          → is_active l.state ≡ false
          → owned_disposition l.state (find_worker l.task_id dispatch side.workers)
            ≡ ok resume_from_terminal_evidence
          → Diagnosed snapshot side l (classify_owned snapshot l side (some dispatch))
      resumed w found idle e = (
        resume_from_terminal_evidence,
        find_worker l.task_id dispatch side.workers,
        owned_by resume_from_terminal_evidence e (rw found refl),
        (running, idle, (dispatch, at, rw found refl)),
      )

      owned-Diagnosed :
          (state : TaskLeaseState)
          → l.state ≡ state
          → is_unowned state ≡ false
          → Diagnosed snapshot side l (classify_owned snapshot l side (some dispatch))
      owned-Diagnosed unowned e owned = cc
      owned-Diagnosed active e owned = (
        wait_active_owner,
        find_worker l.task_id dispatch side.workers,
        owned_by wait_active_owner (rw e refl) (rw e refl),
        (running, e),
      )
      owned-Diagnosed expired e owned =
          elim (Option-cases (find_worker l.task_id dispatch side.workers)) [
            | inl missing ↦ (
              redispatch_candidate_expired_generation,
              find_worker l.task_id dispatch side.workers,
              owned_by redispatch_candidate_expired_generation (rw (e, missing) refl)
                  (rw (e, missing) refl),
              (running, e, (dispatch, at, rw missing refl)),
            )
            | inr (w, found) ↦ resumed w found (rw e refl) (rw (e, found) refl)
          ]
      owned-Diagnosed released e owned =
          elim (Option-cases (find_worker l.task_id dispatch side.workers)) [
            | inl missing ↦ (
              blocked_released_evidence_gap,
              find_worker l.task_id dispatch side.workers,
              owned_by blocked_released_evidence_gap (rw (e, missing) refl) (rw (e, missing) refl),
              (running, e, (dispatch, at, rw missing refl)),
            )
            | inr (w, found) ↦ resumed w found (rw e refl) (rw (e, found) refl)
          ]

    unowned-Diagnosed :
        l.state ≡ unowned
        → has_worker_side l.task_id side ≡ false
        → Diagnosed snapshot side l (classify_open snapshot l side l.state)
    unowned-Diagnosed e clean = (
      blocked_unowned_dispatch_ambiguity,
      none,
      ground
          (arith, assessment-ok l blocked_unowned_dispatch_ambiguity none shaped (rw e refl) refl),
      (running, e, clean),
    )

    open-Diagnosed :
        (is_unowned l.state && has_worker_side l.task_id side) ≡ false
        → Diagnosed snapshot side l (classify_open snapshot l side l.state)
    open-Diagnosed clean = elim (Bool-cases (is_unowned l.state)) [
      | inl free ↦ unowned-Diagnosed (ground arith) (ground arith)
      | inr owned ↦ elim (Option-cases l.dispatch_id) [
        | inl missing ↦ absurd (ground (arith, is_shaped-lease_fits l shaped))
        | inr (dispatch, at) ↦
            let e : classify_open snapshot l side l.state
                ≡ classify_owned snapshot l side (some dispatch) =
              ground arith in
            rw e (owned-Diagnosed dispatch at l.state refl owned)
      ]
    ]

  pub classify_task-Diagnosed :
      (side : WorkerSide) (leases : List TaskLeaseSnapshot) (task_id : String)
      (l : TaskLeaseSnapshot)
      → all has_id side.workers ≡ true
      → is_shaped l ≡ true
      → (is_unowned l.state && has_worker_side l.task_id side) ≡ false
      → find_lease task_id leases ≡ ok l
      → Diagnosed snapshot side l (classify_task snapshot leases side task_id)
  unfolding classify_task
  classify_task-Diagnosed side leases task_id l ids shaped clean found =
      elim (Bool-cases (is_running snapshot.status)) [
        | inl running ↦ rw (found, running) (open-Diagnosed side ids running l shaped clean)
        | inr ended ↦ (
          no_action_run_terminal,
          none,
          ground (arith, assessment-ok l no_action_run_terminal none shaped refl refl),
          ended,
        )
      ]
