-- ===== src/Recovery/Corruption.antt =====
-- The corruption checks of backend/app/runtime/recovery.py on worker-side evidence.
use muti_agent.Prelude.{
  String, String_eq, Nat_eq, ◌==◌, Bool, true, false, ◌&&◌, Option, none, some, List, [], ◌∷◌, elem,
  ◌≡◌, ◌⊎◌, arith, Option-cases, inl, inr, Member, here, there,
}
use muti_agent.Result.{ok, err, >>=-eq-ok, Result-cases}
use muti_agent.Lease.{Uuid, TaskLeaseSnapshot, holds}
use muti_agent.Recovery.{RecoveryError}
use muti_agent.Recovery.Evidence.{
  PersistedEvidence, PersistenceEvidenceKind, worker_execution, dispatch_event, WorkerSide,
  decode_execution, decode_dispatch, validated_task_scope, validate_payload_identity, add_execution,
  add_dispatch, add_evidence, add_all, decode_worker_side_evidence,
}
use text.Mathlib.TextEquality.{eq_iff}
use muti_agent.Recovery.Classify.{PersistedRunSnapshot, validate_leases, first_observed, classify}

-- The identity that the payload of a row claims: nothing if it does not decode.
unfoldable pub claimed : PersistedEvidence → Option (Uuid × String)
claimed e = elim e.kind [
  | worker_execution ↦ elim (decode_execution e.payload) [
    | ok x ↦ some (x.run_id, x.task_id)
    | err _ ↦ none
  ]
  | dispatch_event ↦ elim (decode_dispatch e.payload) [
    | ok x ↦ some (x.run_id, x.task_id)
    | err _ ↦ none
  ]
  | _ ↦ none
]

abbrev pub is_worker_side : PersistenceEvidenceKind → Bool
is_worker_side worker_execution = true
is_worker_side dispatch_event = true
is_worker_side _ = false

abbrev pub names : Option (Uuid × String) → Uuid → Option String → List String → Bool
names none run_id task_id known = false
names (some (run, task)) run_id task_id known =
    run == run_id && holds task_id task && elem task known

-- The row is of the run and of a known task, and its payload decodes to the same two.
unfoldable pub is_sound : Uuid → List String → PersistedEvidence → Bool
is_sound run_id known e = e.run_id == run_id && names (claimed e) run_id e.task_id known

worker_side-kind :
    (k : PersistenceEvidenceKind)
    → is_worker_side k ≡ true
    → (k ≡ worker_execution) ⊎ (k ≡ dispatch_event)
worker_side-kind k h = ground arith

module _ (run_id : Uuid) (known : List String) where
  module _ (e : PersistedEvidence) (side next : WorkerSide)
      (h : add_evidence run_id known e side ≡ ok next) where
    execution-is_sound : e.kind ≡ worker_execution → is_sound run_id known e ≡ true
    unfolding add_evidence add_execution validated_task_scope validate_payload_identity is_sound
        claimed
    execution-is_sound kind = elim (Option-cases e.task_id) [
      | inl missing ↦ absurd (ground arith)
      | inr (name, scope) ↦ elim (Result-cases (decode_execution e.payload)) [
        | inr (raised, bad) ↦ absurd (ground arith)
        | inl (x, good) ↦ ground (arith, eq_iff name x.task_id)
      ]
    ]

    dispatch-is_sound : e.kind ≡ dispatch_event → is_sound run_id known e ≡ true
    unfolding add_evidence add_dispatch validated_task_scope validate_payload_identity is_sound
        claimed
    dispatch-is_sound kind = elim (Option-cases e.task_id) [
      | inl missing ↦ absurd (ground arith)
      | inr (name, scope) ↦ elim (Result-cases (decode_dispatch e.payload)) [
        | inr (raised, bad) ↦ absurd (ground arith)
        | inl (x, good) ↦ ground (arith, eq_iff name x.task_id)
      ]
    ]

    added-is_sound : is_worker_side e.kind ≡ true → is_sound run_id known e ≡ true
    added-is_sound kind = elim (worker_side-kind e.kind kind) [
      | inl execution ↦ execution-is_sound execution
      | inr dispatch ↦ dispatch-is_sound dispatch
    ]

  all-is_sound :
      (es : List PersistedEvidence) (side last : WorkerSide)
      → add_all run_id known es side ≡ ok last
      → (e : PersistedEvidence) → Member e es
      → is_worker_side e.kind ≡ true
      → is_sound run_id known e ≡ true
  unfolding add_all
  all-is_sound [] side last h e m kind = elim m [ ]
  all-is_sound (f ∷ es) side last h _ here kind =
      let (next, added, rest) = >>=-eq-ok (add_evidence run_id known f side) _ h in
      added-is_sound f side next added kind
  all-is_sound (f ∷ es) side last h e (there m) kind =
      let (next, added, rest) = >>=-eq-ok (add_evidence run_id known f side) _ h in
      all-is_sound es next last rest e m kind

-- If some WORKER_EXECUTION or DISPATCH_EVENT row of the snapshot is not of the run, not of a
-- known task, does not decode, or decodes to another run or task, classify raises.
pub classify-corrupt :
    (snapshot : PersistedRunSnapshot) (leases : List TaskLeaseSnapshot) (e : PersistedEvidence)
    → Member e snapshot.evidence
    → is_worker_side e.kind ≡ true
    → is_sound snapshot.run_id snapshot.tasks e ≡ false
    → (raised : RecoveryError) × (classify snapshot leases ≡ err raised)
unfolding classify decode_worker_side_evidence
classify-corrupt snapshot leases e m kind bad = elim (Result-cases (classify snapshot leases)) [
  | inr refused ↦ refused
  | inl (plan, h) ↦
      let (by_task, of_tasks, h1) = >>=-eq-ok (validate_leases snapshot leases) _ h in
      let (at, first, h2) = >>=-eq-ok (first_observed by_task) _ h1 in
      let (side, decoded, h3) =
        >>=-eq-ok (decode_worker_side_evidence snapshot.run_id snapshot.tasks snapshot.evidence) _
          h2 in
      let (last, added, h4) =
        >>=-eq-ok (add_all snapshot.run_id snapshot.tasks snapshot.evidence _) _ decoded in
      let sound =
        all-is_sound snapshot.run_id snapshot.tasks snapshot.evidence _ last added e m kind in
      absurd (ground (arith, sound, bad))
]
