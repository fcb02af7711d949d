-- ===== src/Recovery/Sides.antt =====
-- _decode_worker_side_evidence of backend/app/runtime/recovery.py: what the decoded evidence holds.
use muti_agent.Prelude.{
  String, String_eq, Nat_eq, nat_eq_iff, ◌==◌, Bool, true, false, not, ◌&&◌, some, List, [], ◌∷◌,
  ◌++◌, all, ◌≡◌, refl, arith, Bool-cases, inl, inr, Member, here, there, Option-cases,
}
use text.Mathlib.TextEquality.{eq_iff}
use muti_agent.Result.{ok, >>=-eq-ok, Result-cases}
use muti_agent.Lease.{Uuid, is_none}
use muti_agent.Recovery.Evidence.{
  PersistedEvidence, PersistenceEvidenceKind, WorkerExecutionEvidence, WorkerEntry, WorkerSide,
  worker_execution, decode_execution, find_worker, validated_task_scope, validate_payload_identity,
  add_execution, add_dispatch, add_evidence, add_all, decode_worker_side_evidence,
}

abbrev pub has_id : WorkerEntry → Bool
has_id w = not (w.evidence_id == 0)

abbrev pub is_execution : PersistenceEvidenceKind → Bool
is_execution worker_execution = true
is_execution _ = false

abbrev pub is_stored : PersistedEvidence → Bool
is_stored e = not (e.id == 0)

all-snoc :
    {A : Type 0}
    → (test : A → Bool) (xs : List A) (x : A) → all test xs ≡ true
    → test x ≡ true
    → all test (xs ++ x ∷ []) ≡ true
all-snoc test [] x h t = ground arith
all-snoc test (y ∷ ys) x h t = ground (arith, all-snoc test ys x)

pub find_worker-has_id :
    (task_id : String) (dispatch_id : Uuid) (ws : List WorkerEntry) (w : WorkerEntry)
    → all has_id ws ≡ true
    → find_worker task_id dispatch_id ws ≡ some w
    → has_id w ≡ true
unfolding find_worker
find_worker-has_id task_id dispatch_id [] w h found = cc
find_worker-has_id task_id dispatch_id (first ∷ rest) w h found =
    ground (arith, find_worker-has_id task_id dispatch_id rest w)

find_worker-snoc :
    (task_id : String) (dispatch_id : Uuid) (ws : List WorkerEntry) (w : WorkerEntry)
    → is_none (find_worker task_id dispatch_id (ws ++ w ∷ [])) ≡ (
        is_none (find_worker task_id dispatch_id ws)
        && not (w.task_id == task_id && w.dispatch_id == dispatch_id))
unfolding find_worker
find_worker-snoc task_id dispatch_id [] w = ground arith
find_worker-snoc task_id dispatch_id (first ∷ rest) w =
    ground (arith, find_worker-snoc task_id dispatch_id rest w)

-- What a row of evidence adds.
abbrev Adds : PersistedEvidence → WorkerSide → WorkerSide → WorkerEntry → Type 0
Adds e side next w =
    (next.workers ≡ side.workers ++ w ∷ [])
    × (w.evidence_id ≡ e.id)
    × ((x : WorkerExecutionEvidence)
        → decode_execution e.payload ≡ ok x
        → (w.task_id ≡ x.task_id) × (w.dispatch_id ≡ x.dispatch_id))

module _ (run_id : Uuid) (known : List String) (e : PersistedEvidence)
    (side next : WorkerSide) where
  execution-Adds :
      add_execution run_id known e side ≡ ok next → (w : WorkerEntry) × Adds e side next w
  unfolding add_execution validated_task_scope validate_payload_identity
  execution-Adds h = elim (Option-cases e.task_id) [
    | inl missing ↦ absurd (ground arith)
    | inr (name, scope) ↦ elim (Result-cases (decode_execution e.payload)) [
      | inr (raised, bad) ↦ absurd (ground arith)
      | inl (x, good) ↦ (
        record { task_id = name; dispatch_id = x.dispatch_id; evidence_id = e.id; execution = x },
        (ground arith, refl, λ y d. (ground (arith, eq_iff name x.task_id), ground arith)),
      )
    ]
  ]

  dispatch-keeps : add_dispatch run_id known e side ≡ ok next → next.workers ≡ side.workers
  unfolding add_dispatch validated_task_scope validate_payload_identity
  dispatch-keeps h = ground arith

  added-keeps :
      is_execution e.kind ≡ false
      → add_evidence run_id known e side ≡ ok next
      → next.workers ≡ side.workers
  unfolding add_evidence
  added-keeps other h = ground (arith, dispatch-keeps)

  added-Adds :
      is_execution e.kind ≡ true
      → add_evidence run_id known e side ≡ ok next
      → (w : WorkerEntry) × Adds e side next w
  unfolding add_evidence
  added-Adds this h = execution-Adds (ground arith)

module _ (run_id : Uuid) (known : List String) where
  add_evidence-has_id :
      (e : PersistedEvidence) (side next : WorkerSide)
      → add_evidence run_id known e side ≡ ok next
      → is_stored e ≡ true
      → all has_id side.workers ≡ true
      → all has_id next.workers ≡ true
  add_evidence-has_id e side next h s v = elim (Bool-cases (is_execution e.kind)) [
    | inr other ↦ ground (arith, added-keeps run_id known e side next other h)
    | inl this ↦
        let (w, (more, id, found)) = added-Adds run_id known e side next this h in
        ground (arith, all-snoc has_id side.workers w)
  ]

  add_evidence-keeps :
      (e : PersistedEvidence) (side next : WorkerSide) (task_id : String) (dispatch_id : Uuid)
      → add_evidence run_id known e side ≡ ok next
      → is_none (find_worker task_id dispatch_id next.workers) ≡ true
      → is_none (find_worker task_id dispatch_id side.workers) ≡ true
  add_evidence-keeps e side next task_id dispatch_id h n = elim (Bool-cases (is_execution e.kind)) [
    | inr other ↦ ground (arith, added-keeps run_id known e side next other h)
    | inl this ↦
        let (w, (more, id, found)) = added-Adds run_id known e side next this h in
        ground (arith, find_worker-snoc task_id dispatch_id side.workers w)
  ]

  add_evidence-finds :
      (e : PersistedEvidence) (side next : WorkerSide) (x : WorkerExecutionEvidence)
      → add_evidence run_id known e side ≡ ok next
      → is_execution e.kind ≡ true
      → decode_execution e.payload ≡ ok x
      → is_none (find_worker x.task_id x.dispatch_id next.workers) ≡ false
  add_evidence-finds e side next x h this d =
      let (w, (more, id, found)) = added-Adds run_id known e side next this h in
      let (task, dispatch) = found x d in
      ground (
        arith,
        find_worker-snoc x.task_id x.dispatch_id side.workers w,
        eq_iff w.task_id x.task_id,
        nat_eq_iff w.dispatch_id x.dispatch_id,
      )

  add_all-has_id :
      (es : List PersistedEvidence) (side last : WorkerSide)
      → add_all run_id known es side ≡ ok last
      → all is_stored es ≡ true
      → all has_id side.workers ≡ true
      → all has_id last.workers ≡ true
  unfolding add_all
  add_all-has_id [] side last h s v = ground arith
  add_all-has_id (e ∷ es) side last h s v =
      let (next, added, rest) = >>=-eq-ok (add_evidence run_id known e side) _ h in
      add_all-has_id es next last rest (ground arith)
        (add_evidence-has_id e side next added (ground arith) v)

  add_all-keeps :
      (es : List PersistedEvidence) (side last : WorkerSide) (task_id : String) (dispatch_id : Uuid)
      → add_all run_id known es side ≡ ok last
      → is_none (find_worker task_id dispatch_id last.workers) ≡ true
      → is_none (find_worker task_id dispatch_id side.workers) ≡ true
  unfolding add_all
  add_all-keeps [] side last task_id dispatch_id h n = ground arith
  add_all-keeps (e ∷ es) side last task_id dispatch_id h n =
      let (next, added, rest) = >>=-eq-ok (add_evidence run_id known e side) _ h in
      add_evidence-keeps e side next task_id dispatch_id added
        (add_all-keeps es next last task_id dispatch_id rest n)

  -- Every row of terminal evidence is found under its task and dispatch.
  pub add_all-finds :
      (es : List PersistedEvidence) (side last : WorkerSide) (e : PersistedEvidence)
      (x : WorkerExecutionEvidence)
      → add_all run_id known es side ≡ ok last
      → Member e es
      → is_execution e.kind ≡ true
      → decode_execution e.payload ≡ ok x
      → is_none (find_worker x.task_id x.dispatch_id last.workers) ≡ false
  unfolding add_all
  add_all-finds [] side last e x h m this d = elim m [ ]
  add_all-finds (e ∷ es) side last _ x h here this d =
      let (next, added, rest) = >>=-eq-ok (add_evidence run_id known e side) _ h in
      ground (
        arith,
        add_all-keeps es next last x.task_id x.dispatch_id rest,
        add_evidence-finds e side next x added this d,
      )
  add_all-finds (e ∷ es) side last _ x h (there m) this d =
      let (next, added, rest) = >>=-eq-ok (add_evidence run_id known e side) _ h in
      add_all-finds es next last _ x rest m this d

  decoded-add_all :
      (es : List PersistedEvidence) (side : WorkerSide)
      → decode_worker_side_evidence run_id known es ≡ ok side
      → add_all run_id known es (record { workers = []; dispatches = [] }) ≡ ok side
  unfolding decode_worker_side_evidence
  decoded-add_all es side h =
      let (first, added, rest) =
        >>=-eq-ok (add_all run_id known es (record { workers = []; dispatches = [] })) _ h in
      ground (arith, added)

  pub decoded-has_id :
      (es : List PersistedEvidence) (side : WorkerSide)
      → decode_worker_side_evidence run_id known es ≡ ok side
      → all is_stored es ≡ true
      → all has_id side.workers ≡ true
  decoded-has_id es side h s = add_all-has_id es _ side (decoded-add_all es side h) s refl

  pub decoded-finds :
      (es : List PersistedEvidence) (side : WorkerSide) (e : PersistedEvidence)
      (x : WorkerExecutionEvidence)
      → decode_worker_side_evidence run_id known es ≡ ok side
      → Member e es
      → is_execution e.kind ≡ true
      → decode_execution e.payload ≡ ok x
      → is_none (find_worker x.task_id x.dispatch_id side.workers) ≡ false
  decoded-finds es side e x h m this d =
      add_all-finds es _ side e x (decoded-add_all es side h) m this d
