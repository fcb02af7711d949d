-- ===== src/Lease/Events.antt =====
-- backend/app/persistence/events.py: the timeline of a run, and append_runtime_event under the lock
-- of the run. The row that it returns is read by no operation on leases. `payload_sha256` is the
-- hash of backend/app/persistence/serialization.py.
use muti_agent.Prelude.{
  ℕ, suc, String, String_eq, Nat_eq, ◌==◌, ◌≡◌, refl, Bool, true, false, ◌&&◌, Option, none, some,
  List, [], ◌∷◌, ◌++◌, ◌⊎◌, length, arith, if◌then◌else◌, ◌+◌, length-append, Option-cases,
  Bool-cases, inl, inr,
}
use text.Mathlib.TextEquality.{eq_iff}
use muti_agent.Result.{Result, ok, err}
use muti_agent.Lease.{Time, Uuid, LeaseError, event_conflict}

pub data PersistedRunStatus : Type 0 where
  running succeeded failed : PersistedRunStatus

pub data RuntimeEventKind : Type 0 where
  run_started run_finalized lease_acquired lease_taken_over lease_heartbeat lease_released
        evidence_recorded :
      RuntimeEventKind

abbrev pub same_kind : RuntimeEventKind → RuntimeEventKind → Bool
same_kind run_started run_started = true
same_kind run_finalized run_finalized = true
same_kind lease_acquired lease_acquired = true
same_kind lease_taken_over lease_taken_over = true
same_kind lease_heartbeat lease_heartbeat = true
same_kind lease_released lease_released = true
same_kind evidence_recorded evidence_recorded = true
same_kind _ _ = false

-- The attributes that the operations on leases write.
pub data Attributes : Type 0 where
  acquired_attributes : String → Option ℕ → Time → Attributes
  heartbeat_attributes : String → Time → Attributes
  released_attributes : String → Time → Attributes

-- A draft with the source LEASE, the level INFO and a correlation to a task.
pub record RuntimeEventDraft : Type 0 where
  pub event_key : String
  pub kind : RuntimeEventKind
  pub task_id : String
  pub dispatch_id : Uuid
  pub generation : ℕ
  pub message : String
  pub attributes : Attributes

pub record RuntimeEventRow : Type 0 where
  pub sequence : ℕ
  pub event_key : String
  pub kind : RuntimeEventKind
  pub task_id : String
  pub dispatch_id : Uuid
  pub generation : ℕ
  pub message : String
  pub attributes : Attributes
  pub attributes_sha256 : String

pub record RunRow : Type 0 where
  pub id : Uuid
  pub status : PersistedRunStatus
  pub event_sequence : ℕ
  pub events : List RuntimeEventRow

unfoldable pub find_event : String → List RuntimeEventRow → Option RuntimeEventRow
find_event key [] = none
find_event key (row ∷ rows) =
    let rest = find_event key rows in if row.event_key == key then some row else rest

module _ (payload_sha256 : Attributes → String) where
  unfoldable pub same_event : RuntimeEventRow → RuntimeEventDraft → Bool
  same_event row draft =
      same_kind row.kind draft.kind
      && row.task_id == draft.task_id
      && row.dispatch_id == draft.dispatch_id
      && row.generation == draft.generation
      && row.message == draft.message
      && row.attributes_sha256 == payload_sha256 draft.attributes

  abbrev pub event_row : RunRow → RuntimeEventDraft → RuntimeEventRow
  event_row run draft = record {
    sequence = suc run.event_sequence;
    event_key = draft.event_key;
    kind = draft.kind;
    task_id = draft.task_id;
    dispatch_id = draft.dispatch_id;
    generation = draft.generation;
    message = draft.message;
    attributes = draft.attributes;
    attributes_sha256 = payload_sha256 draft.attributes;
  }

  abbrev pub appended : RunRow → RuntimeEventDraft → RunRow
  appended run draft = record run {
    event_sequence = suc run.event_sequence;
    events = run.events ++ event_row run draft ∷ [];
  }

  unfoldable pub append_runtime_event : RunRow → RuntimeEventDraft → Result LeaseError RunRow
  append_runtime_event run draft = elim (find_event draft.event_key run.events) [
    | some existing ↦ if same_event existing draft then ok run else err event_conflict
    | none ↦ ok (appended run draft)
  ]

-- The sequence numbers of a timeline run on from `k`.
abbrev pub Contiguous : ℕ → List RuntimeEventRow → Type 0
Contiguous k [] = Unit {0}
Contiguous k (row ∷ rows) = (row.sequence ≡ suc k) × Contiguous (suc k) rows

-- A timeline numbered from one without a gap, whose last number the run holds.
abbrev pub IsTimeline : RunRow → Type 0
IsTimeline run = Contiguous 0 run.events × (run.event_sequence ≡ length run.events)

Contiguous-snoc :
    (k : ℕ) (rows : List RuntimeEventRow) (row : RuntimeEventRow)
    → Contiguous k rows
    → row.sequence ≡ suc (k + length rows)
    → Contiguous k (rows ++ row ∷ [])
Contiguous-snoc k [] row c e = (ground arith, tt)
Contiguous-snoc k (r ∷ rows) row (first, c) e =
    (first, Contiguous-snoc (suc k) rows row c (omega (arith, e)))

same_kind_refl : (k : RuntimeEventKind) → same_kind k k ≡ true
same_kind_refl run_started = refl
same_kind_refl run_finalized = refl
same_kind_refl lease_acquired = refl
same_kind_refl lease_taken_over = refl
same_kind_refl lease_heartbeat = refl
same_kind_refl lease_released = refl
same_kind_refl evidence_recorded = refl

find_event-snoc :
    (key : String) (rows : List RuntimeEventRow) (row : RuntimeEventRow)
    → find_event key rows ≡ none
    → row.event_key ≡ key
    → find_event key (rows ++ row ∷ []) ≡ some row
unfolding find_event
find_event-snoc key [] row h e = ground (arith, eq_iff row.event_key key)
find_event-snoc key (r ∷ rows) row h e =
    ground (arith, find_event-snoc key rows row (ground arith) e)

same_event_refl :
    (payload_sha256 : Attributes → String) (run : RunRow) (draft : RuntimeEventDraft)
    → same_event payload_sha256 (event_row payload_sha256 run draft) draft ≡ true
unfolding same_event
same_event_refl payload_sha256 run draft = ground (
  arith,
  same_kind_refl draft.kind,
  eq_iff draft.task_id draft.task_id,
  eq_iff draft.message draft.message,
  eq_iff (payload_sha256 draft.attributes) (payload_sha256 draft.attributes),
)

pub append-fresh :
    (payload_sha256 : Attributes → String) (run : RunRow) (draft : RuntimeEventDraft)
    → find_event draft.event_key run.events ≡ none
    → append_runtime_event payload_sha256 run draft ≡ ok (appended payload_sha256 run draft)
unfolding append_runtime_event
append-fresh payload_sha256 run draft e = ground arith

module _ (payload_sha256 : Attributes → String) (run after : RunRow) (draft : RuntimeEventDraft)
    (h : append_runtime_event payload_sha256 run draft ≡ ok after) where
  appends :
      ((after ≡ run)
        × ((row : RuntimeEventRow) × (find_event draft.event_key run.events ≡ some row)
            × (same_event payload_sha256 row draft ≡ true)))
      ⊎ ((find_event draft.event_key run.events ≡ none)
          × (after ≡ appended payload_sha256 run draft))
  unfolding append_runtime_event
  appends = elim (Option-cases (find_event draft.event_key run.events)) [
    | inl e ↦ inr (e, ground arith)
    | inr (row, e) ↦ elim (Bool-cases (same_event payload_sha256 row draft)) [
      | inl same ↦ inl (ground arith, (row, e, same))
      | inr other ↦ ground arith
    ]
  ]

  -- When append_runtime_event returns on a run whose events are numbered from one without a gap
  -- and whose event_sequence is the last number, the new run has the same property, and it is
  -- the old run or the old run with the event at its end.
  pub append_runtime_event-IsTimeline :
      IsTimeline run
      → IsTimeline after × ((after ≡ run) ⊎ (after ≡ appended payload_sha256 run draft))
  append_runtime_event-IsTimeline (c, n) = elim appends [
    | inl (same, _) ↦ (rw same (c, n), inl same)
    | inr (_, same) ↦ (rw same grown, inr same)
  ]
    where
      grown : IsTimeline (appended payload_sha256 run draft)
      grown = (
        Contiguous-snoc 0 run.events _ c (omega (arith, n)),
        ground (arith, length-append run.events (event_row payload_sha256 run draft ∷ []), n),
      )

  -- When append_runtime_event returned, appending the same draft to the new run returns and
  -- changes nothing.
  pub append_runtime_event-twice : append_runtime_event payload_sha256 after draft ≡ ok after
  unfolding append_runtime_event
  append_runtime_event-twice = elim appends [
    | inl (same, (row, found, equal)) ↦ ground arith
    | inr (fresh, same) ↦
        let row = event_row payload_sha256 run draft in
        let found = find_event-snoc draft.event_key run.events row fresh refl in
        ground (arith, same, found, same_event_refl payload_sha256 run draft)
  ]
