-- ===== src/Lease.antt =====
-- backend/app/models/lease.py, the lease columns of TaskRow in backend/app/persistence/models.py,
-- backend/app/persistence/fencing.py, and the parts of backend/app/persistence/leases.py that read
-- and change one locked row. A time or a duration is a number of microseconds, a UUID a number.
-- The lengths of texts that a column bounds are checked where they enter, by required_text.

pub mod Rows
pub mod Changes
pub mod Events
pub mod Store
pub mod Fencing
pub mod Grants
pub mod Authority
use muti_agent.Prelude.{
  ℕ, suc, ◌+◌, ◌*◌, String, String_eq, Nat_eq, ◌==◌, Bool, true, false, not, ◌&&◌, ◌||◌, Option,
  none, some, List, [], ◌∷◌, if◌then◌else◌, leb, ltb, Eq, ◌≡◌, ◌↔◌, refl, arith,
}
use muti_agent.Result.{Result, ok, err, ◌>>=◌, ◌>>◌, raise_if}
use muti_agent.Text.{is_empty, strip, text_length}

abbrev pub Time : Type 0
Time = ℕ

abbrev pub Uuid : Type 0
Uuid = ℕ

pub data TaskLeaseState : Type 0 where
  unowned active expired released : TaskLeaseState

pub record TaskRow : Type 0 where
  pub run_id : Uuid
  pub task_id : String
  pub lease_owner : Option String
  pub lease_dispatch_id : Option Uuid
  pub lease_generation : ℕ
  pub run_token : Option Uuid
  pub lease_acquired_at : Option Time
  pub heartbeat_at : Option Time
  pub lease_until : Option Time
  pub lease_released_at : Option Time

pub record TaskLeaseSnapshot : Type 0 where
  pub run_id : Uuid
  pub task_id : String
  pub state : TaskLeaseState
  pub generation : ℕ
  pub owner_id : Option String
  pub dispatch_id : Option Uuid
  pub acquired_at : Option Time
  pub heartbeat_at : Option Time
  pub lease_until : Option Time
  pub released_at : Option Time
  pub observed_at : Time

pub record TaskLeaseGrant : Type 0 where
  pub snapshot : TaskLeaseSnapshot
  pub run_token : Uuid

pub data LeaseError : Type 0 where
  empty_text text_too_long bad_duration : LeaseError
  unknown_run unknown_task run_not_running : LeaseError
  still_active already_released unsafe_state same_dispatch : LeaseError
  not_acquired other_owner lease_released lease_expired : LeaseError
  stale_token : LeaseError
  assertion_error integrity_error bad_shape bad_grant event_conflict : LeaseError

abbrev pub is_none {ℓ} : {A : Type ℓ} → Option A → Bool
is_none none = true
is_none (some _) = false

-- `column == value`, for a column that can be null.
abbrev pub holds : {A : Type 0} → ⦃e : Eq A⦄ → Option A → A → Bool
holds none v = false
holds (some w) v = w == v

unfoldable pub required_text : String → ℕ → Result LeaseError String
required_text value max_length = do
  let normalized = strip value
  raise_if (is_empty normalized) empty_text
  raise_if (ltb max_length (text_length normalized)) text_too_long
  ok normalized

unfoldable pub lease_duration : ℕ → Result LeaseError ℕ
lease_duration value = do
  raise_if (value == 0 || ltb (86400 * 1000000) value) bad_duration
  ok value

-- The tests of validate_shape on the release time of an owned lease.
unfoldable pub validate_release :
    TaskLeaseState → Option Time → Time → Time → Time → Result LeaseError (Unit {0})
validate_release released none acquired until observed_at = err bad_shape
validate_release released (some at) acquired until observed_at =
    raise_if (ltb at acquired) bad_shape
validate_release active (some at) acquired until observed_at = err bad_shape
validate_release active none acquired until observed_at = raise_if (leb until observed_at) bad_shape
validate_release expired (some at) acquired until observed_at = err bad_shape
validate_release expired none acquired until observed_at =
    raise_if (ltb observed_at until) bad_shape
validate_release unowned (some at) acquired until observed_at = err bad_shape
validate_release unowned none acquired until observed_at = ok tt

-- The tests of validate_shape on the times of an owned lease.
unfoldable pub validate_times :
    TaskLeaseSnapshot → Option Time → Option Time → Option Time → Result LeaseError (Unit {0})
validate_times s (some acquired) (some heartbeat) (some until) = do
  raise_if (ltb heartbeat acquired) bad_shape
  raise_if (leb until heartbeat) bad_shape
  validate_release s.state s.released_at acquired until s.observed_at
validate_times s _ _ _ = err bad_shape

abbrev pub is_unowned : TaskLeaseState → Bool
is_unowned unowned = true
is_unowned _ = false

unfoldable pub validate_shape : TaskLeaseSnapshot → Result LeaseError TaskLeaseSnapshot
validate_shape s = elim (is_unowned s.state) [
  | true ↦ do
    raise_if (not (s.generation == 0)) bad_shape
    raise_if
        (not (
          is_none s.owner_id
          && is_none s.dispatch_id
          && is_none s.acquired_at
          && is_none s.heartbeat_at
          && is_none s.lease_until
          && is_none s.released_at))
        bad_shape
    ok s
  | false ↦ do
    raise_if (ltb s.generation 1) bad_shape
    raise_if (is_none s.owner_id || is_none s.dispatch_id) bad_shape
    validate_times s s.acquired_at s.heartbeat_at s.lease_until
    ok s
]

abbrev pub owned_state : Option Time → Option Time → Time → Result LeaseError TaskLeaseState
owned_state (some _) until observed_at = ok released
owned_state none none observed_at = err assertion_error
owned_state none (some until) observed_at = if leb until observed_at then ok expired else ok active

unfoldable pub lease_state : TaskRow → Time → Result LeaseError TaskLeaseState
lease_state task observed_at =
    if is_none task.lease_owner
    then ok unowned
    else owned_state task.lease_released_at task.lease_until observed_at

unfoldable pub snapshot : TaskRow → Time → Result LeaseError TaskLeaseSnapshot
snapshot task observed_at = do
  state ← lease_state task observed_at
  validate_shape (record {
    run_id = task.run_id;
    task_id = task.task_id;
    state = state;
    generation = task.lease_generation;
    owner_id = task.lease_owner;
    dispatch_id = task.lease_dispatch_id;
    acquired_at = task.lease_acquired_at;
    heartbeat_at = task.heartbeat_at;
    lease_until = task.lease_until;
    released_at = task.lease_released_at;
    observed_at = observed_at;
  })

abbrev pub is_active : TaskLeaseState → Bool
is_active active = true
is_active _ = false

-- `TaskLeaseGrant(snapshot=..., run_token=...)`
unfoldable pub make_grant : TaskLeaseSnapshot → Uuid → Result LeaseError TaskLeaseGrant
make_grant s token = do
  raise_if (not (is_active s.state)) bad_grant
  raise_if (ltb s.generation 1) bad_grant
  ok (record { snapshot = s; run_token = token })

-- The constraint ck_tasks_lease_shape, which a flush of the row enforces.
unfoldable pub lease_shape : TaskRow → Bool
lease_shape task =
    is_none task.lease_owner
      && is_none task.lease_dispatch_id
      && is_none task.lease_acquired_at
      && is_none task.heartbeat_at
      && is_none task.lease_until
      && is_none task.lease_released_at
      && is_none task.run_token
      && task.lease_generation == 0
    || not (is_none task.lease_owner)
      && not (is_none task.lease_dispatch_id)
      && not (is_none task.lease_acquired_at)
      && not (is_none task.heartbeat_at)
      && not (is_none task.lease_until)
      && not (is_none task.run_token)
      && leb 1 task.lease_generation

unfoldable pub flush : TaskRow → Result LeaseError (Unit {0})
flush task = raise_if (not (lease_shape task)) integrity_error

unfoldable pub assert_current_run_token : TaskRow → Option Uuid → Result LeaseError (Unit {0})
assert_current_run_token task none = err stale_token
assert_current_run_token task (some token) = raise_if (not (holds task.run_token token)) stale_token

-- `task.lease_until is None or task.lease_until <= observed_at`
abbrev pub has_ended : Option Time → Time → Bool
has_ended none observed_at = true
has_ended (some until) observed_at = leb until observed_at

unfoldable pub assert_live_current_run_token :
    TaskRow → Option Uuid → Time → Result LeaseError (Unit {0})
assert_live_current_run_token task token observed_at = do
  assert_current_run_token task token
  raise_if (not (is_none task.lease_released_at)) stale_token
  raise_if (has_ended task.lease_until observed_at) stale_token

unfoldable pub assert_identity : TaskRow → String → Uuid → Uuid → Result LeaseError (Unit {0})
assert_identity task owner_id dispatch_id token = do
  raise_if (is_none task.lease_owner) not_acquired
  assert_current_run_token task (some token)
  raise_if (not (holds task.lease_owner owner_id) || not (holds task.lease_dispatch_id dispatch_id))
      other_owner

-- The test of acquire_task_lease on an owned row: the state of its lease lets it be taken over.
unfoldable pub assert_takeover : TaskRow → Uuid → TaskLeaseState → Result LeaseError (Unit {0})
assert_takeover task dispatch_id active = err still_active
assert_takeover task dispatch_id released = err already_released
assert_takeover task dispatch_id unowned = err unsafe_state
assert_takeover task dispatch_id expired =
    raise_if (holds task.lease_dispatch_id dispatch_id) same_dispatch

-- The next generation.
unfoldable pub next_generation : TaskRow → Uuid → Time → Result LeaseError ℕ
next_generation task dispatch_id observed_at = elim (is_none task.lease_owner) [
  | true ↦ ok 1
  | false ↦ do
    existing ← snapshot task observed_at
    assert_takeover task dispatch_id existing.state
    ok (suc task.lease_generation)
]

abbrev pub granted : TaskRow → String → Uuid → ℕ → Uuid → Time → ℕ → TaskRow
granted task owner dispatch_id generation token observed_at duration = record task {
  lease_owner = some owner;
  lease_dispatch_id = some dispatch_id;
  lease_generation = generation;
  run_token = some token;
  lease_acquired_at = some observed_at;
  heartbeat_at = some observed_at;
  lease_until = some (observed_at + duration);
  lease_released_at = none;
}

-- What acquire_task_lease does to the row, with the token that uuid4() returned.
unfoldable pub acquire : TaskRow → String → Uuid → ℕ → Uuid → Time → Result LeaseError TaskRow
acquire task owner dispatch_id duration token observed_at = do
  generation ← next_generation task dispatch_id observed_at
  let row = granted task owner dispatch_id generation token observed_at duration
  flush row
  ok row

-- What renew_task_lease does to the row.
unfoldable pub renew : TaskRow → String → Uuid → Uuid → ℕ → Time → Result LeaseError TaskRow
renew task owner dispatch_id token duration observed_at = do
  assert_identity task owner dispatch_id token
  raise_if (not (is_none task.lease_released_at)) lease_released
  raise_if (is_none task.lease_until) assertion_error
  raise_if (has_ended task.lease_until observed_at) lease_expired
  let row = record task {
    heartbeat_at = some observed_at;
    lease_until = some (observed_at + duration);
  }
  flush row
  ok row

-- What release_task_lease does to the row: nothing, when it is released already.
unfoldable pub release : TaskRow → String → Uuid → Uuid → Time → Result LeaseError TaskRow
release task owner dispatch_id token observed_at = do
  assert_identity task owner dispatch_id token
  elim (is_none task.lease_released_at) [
    | false ↦ ok task
    | true ↦ do
      raise_if (is_none task.lease_until) assertion_error
      raise_if (has_ended task.lease_until observed_at) lease_expired
      let row = record task { lease_released_at = some observed_at }
      flush row
      ok row
  ]
