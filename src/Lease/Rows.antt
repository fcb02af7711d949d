-- ===== src/Lease/Rows.antt =====
-- backend/app/persistence/leases.py: valid rows, and what _snapshot shows of them.
use muti_agent.Prelude.{
  ◌≤◌, ◌<◌, ◌≡◌, ◌⊎◌, inl, inr, sym, ap, none, some, String, String_eq, Nat_eq, true, false, leb,
  arith, Bool-cases,
}
use muti_agent.Result.{>>=-eq-ok, ok}
use muti_agent.Lease.{
  Time, Uuid, TaskLeaseState, unowned, active, expired, released, TaskRow, TaskLeaseSnapshot,
  is_none, validate_release, validate_times, validate_shape, lease_state, snapshot, has_ended,
}

-- A row that no worker has owned.
pub record IsFree (task : TaskRow) : Type 0 where
  pub no_owner : task.lease_owner ≡ none
  pub no_dispatch : task.lease_dispatch_id ≡ none
  pub no_token : task.run_token ≡ none
  pub no_acquired : task.lease_acquired_at ≡ none
  pub no_heartbeat : task.heartbeat_at ≡ none
  pub no_until : task.lease_until ≡ none
  pub no_release : task.lease_released_at ≡ none
  pub no_generation : task.lease_generation ≡ 0

-- A row with an owner, and its times in order.
pub record IsOwned (task : TaskRow) : Type 0 where
  pub owner : String
  pub dispatch : Uuid
  pub token : Uuid
  pub acquired : Time
  pub heartbeat : Time
  pub until : Time
  pub has_owner : task.lease_owner ≡ some owner
  pub has_dispatch : task.lease_dispatch_id ≡ some dispatch
  pub has_token : task.run_token ≡ some token
  pub has_acquired : task.lease_acquired_at ≡ some acquired
  pub has_heartbeat : task.heartbeat_at ≡ some heartbeat
  pub has_until : task.lease_until ≡ some until
  pub generations : 1 ≤ task.lease_generation
  pub alive : acquired ≤ heartbeat
  pub lasts : heartbeat < until
  pub ends :
      (task.lease_released_at ≡ none)
      ⊎ ((at : Time) × (task.lease_released_at ≡ some at) × (acquired ≤ at))

abbrev pub IsRow : TaskRow → Type 0
IsRow task = IsFree task ⊎ IsOwned task

-- The state that the columns of a valid row show.
abbrev pub Shows : TaskRow → Time → TaskLeaseState → Type 0
Shows task t unowned = task.lease_owner ≡ none
Shows task t released =
    (is_none task.lease_owner ≡ false) × (is_none task.lease_released_at ≡ false)
Shows task t active =
    (is_none task.lease_owner ≡ false)
    × (task.lease_released_at ≡ none)
    × (has_ended task.lease_until t ≡ false)
Shows task t expired =
    (is_none task.lease_owner ≡ false)
    × (task.lease_released_at ≡ none)
    × (has_ended task.lease_until t ≡ true)

snapshot_as : TaskRow → Time → TaskLeaseState → TaskLeaseSnapshot
snapshot_as task t state = record {
  run_id = task.run_id;
  task_id = task.task_id;
  state = state;
  generation = task.lease_generation;
  owner_id = task.lease_owner;
  dispatch_id = task.lease_dispatch_id;
  acquired_at = task.lease_acquired_at;
  heartbeat_at = task.heartbeat_at;
  lease_until = task.lease_until;
  released_at = task.lease_released_at;
  observed_at = t;
}

snapshot-IsFree :
    (task : TaskRow) (t : Time)
    → IsFree task
    → (s : TaskLeaseSnapshot) × (snapshot task t ≡ ok s) × Shows task t s.state
unfolding snapshot lease_state validate_shape snapshot_as
snapshot-IsFree task t v = (
  snapshot_as task t unowned,
  ground (
    arith, v.no_owner, v.no_dispatch, v.no_acquired, v.no_heartbeat, v.no_until, v.no_release,
    v.no_generation,
  ),
  v.no_owner,
)

module _ (task : TaskRow) (t : Time) (v : IsOwned task) where
  open v use {
    owner, dispatch, token, acquired, heartbeat, until, has_owner, has_dispatch, has_token,
    has_acquired, has_heartbeat, has_until, generations, alive, lasts, ends,
  }

  released-ok :
      (at : Time)
      → task.lease_released_at ≡ some at
      → acquired ≤ at
      → snapshot task t ≡ ok (snapshot_as task t released)
  unfolding snapshot lease_state validate_shape validate_times validate_release snapshot_as
  released-ok at r l = ground arith

  active-ok :
      task.lease_released_at ≡ none
      → leb until t ≡ false
      → snapshot task t ≡ ok (snapshot_as task t active)
  unfolding snapshot lease_state validate_shape validate_times validate_release snapshot_as
  active-ok r l = ground arith

  expired-ok :
      task.lease_released_at ≡ none
      → leb until t ≡ true
      → snapshot task t ≡ ok (snapshot_as task t expired)
  unfolding snapshot lease_state validate_shape validate_times validate_release snapshot_as
  expired-ok r l = ground arith

  snapshot-IsOwned : (s : TaskLeaseSnapshot) × (snapshot task t ≡ ok s) × Shows task t s.state
  unfolding snapshot_as
  snapshot-IsOwned = elim ends [
    | inr (at, r, l) ↦
        (snapshot_as task t released, released-ok at r l, (ground arith, ground arith))
    | inl r ↦ elim (Bool-cases (leb until t)) [
      | inl l ↦ (snapshot_as task t expired, expired-ok r l, (ground arith, r, ground arith))
      | inr l ↦ (snapshot_as task t active, active-ok r l, (ground arith, r, ground arith))
    ]
  ]

-- A valid row can be observed at any time: snapshot passes all tests of validate_shape, and the
-- state in it is the one that the owner, the release time and the expiry of the row show at that
-- time.
pub snapshot-ok :
    (task : TaskRow) (t : Time)
    → IsRow task
    → (s : TaskLeaseSnapshot) × (snapshot task t ≡ ok s) × Shows task t s.state
snapshot-ok task t v = elim v [
  | inl free ↦ snapshot-IsFree task t free
  | inr owned ↦ snapshot-IsOwned task t owned
]

validate_shape-same : (s r : TaskLeaseSnapshot) → validate_shape s ≡ ok r → s ≡ r
unfolding validate_shape
validate_shape-same s r h = ground arith

pub snapshot-generation :
    (task : TaskRow) (t : Time) (s : TaskLeaseSnapshot)
    → snapshot task t ≡ ok s
    → s.generation ≡ task.lease_generation
unfolding snapshot
snapshot-generation task t s h =
    let (state, e, rest) = >>=-eq-ok (lease_state task t) _ h in
    ap (λ r. r.generation) (sym (validate_shape-same _ s rest))
