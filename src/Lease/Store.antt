-- ===== src/Lease/Store.antt =====
-- backend/app/persistence/leases.py: the operations of PostgresTaskLeaseStore, each a transaction
-- that commits when it returns and leaves the database alone when it raises. The rows are locked
-- from the first read to the commit, so transactions on one run follow one another. The time is
-- the answer of clock_timestamp in the transaction and the token that of uuid4; `isoformat` and
-- `str` are Python's.
use Prim.Native.String.{◌++◌ as str_append}
use muti_agent.Prelude.{
  ℕ, String, String_eq, Nat_eq, ◌==◌, ◌+◌, Bool, true, false, not, ◌&&◌, Option, none, some,
  if◌then◌else◌,
}
use muti_agent.Result.{Result, ok, err, ◌>>=◌, ◌>>◌, raise_if}
use muti_agent.Lease.{
  Time, Uuid, TaskRow, TaskLeaseSnapshot, TaskLeaseGrant, LeaseError, is_none, holds, required_text,
  lease_duration, snapshot, make_grant, acquire, renew, release, assert_live_current_run_token,
  unknown_run, unknown_task, run_not_running, other_owner,
}
use muti_agent.Lease.Events.{
  PersistedRunStatus, running, RunRow, RuntimeEventDraft, Attributes, acquired_attributes,
  heartbeat_attributes, released_attributes, lease_acquired, lease_taken_over, lease_heartbeat,
  lease_released, append_runtime_event,
}

pub record Database : Type 0 where
  pub runs : Uuid → Option RunRow
  pub tasks : Uuid → String → Option TaskRow

abbrev pub is_running : PersistedRunStatus → Bool
is_running running = true
is_running _ = false

unfoldable pub locked_run : Database → Uuid → Result LeaseError RunRow
locked_run db run_id = elim (db.runs run_id) [ none ↦ err unknown_run | some run ↦ ok run ]

unfoldable pub locked_task : Database → Uuid → String → Result LeaseError TaskRow
locked_task db run_id task_id = elim (db.tasks run_id task_id) [
  | none ↦ err unknown_task
  | some task ↦ ok task
]

-- The database with the changed rows of a run and of its task.
abbrev pub commit : Database → Uuid → String → RunRow → TaskRow → Database
commit db run_id task_id run task = record {
  runs = λ r. if r == run_id then some run else db.runs r;
  tasks = λ r t. if r == run_id && t == task_id then some task else db.tasks r t;
}

unfoldable pub inspect_task_lease :
    Database → Uuid → String → Time → Result LeaseError TaskLeaseSnapshot
inspect_task_lease db run_id task_id observed_at = do
  task_name ← required_text task_id 128
  task ← locked_task db run_id task_name
  snapshot task observed_at

-- The snapshot that the body of the guard runs under.
unfoldable pub guard_task_git_mutation :
    Database → Uuid → String → Uuid → Uuid → Time → Result LeaseError TaskLeaseSnapshot
guard_task_git_mutation db run_id task_id dispatch_id token observed_at = do
  task_name ← required_text task_id 128
  run ← locked_run db run_id
  raise_if (not (is_running run.status)) run_not_running
  task ← locked_task db run_id task_name
  assert_live_current_run_token task (some token) observed_at
  raise_if (not (holds task.lease_dispatch_id dispatch_id)) other_owner
  snapshot task observed_at

module _ (str : ℕ → String) where
  abbrev pub event_key : String → ℕ → String → String
  event_key task_name generation what = str_append "lease:" (
      str_append task_name
        (str_append ":generation:" (str_append (str generation) (str_append ":" what))))

  -- The event of an acquisition that turned `task` into `row`.
  abbrev pub acquired_event : String → TaskRow → TaskRow → String → Uuid → Time → RuntimeEventDraft
  acquired_event task_name task row owner dispatch_id until = record {
    event_key = event_key task_name row.lease_generation "acquired";
    kind = if is_none task.lease_owner then lease_acquired else lease_taken_over;
    task_id = task_name;
    dispatch_id = dispatch_id;
    generation = row.lease_generation;
    message =
        if is_none task.lease_owner
        then "Task lease generation acquired."
        else "Expired task generation was replaced by a new fenced owner.";
    attributes =
        acquired_attributes owner
          (if is_none task.lease_owner then none else some task.lease_generation) until;
  }

  abbrev pub released_event : String → TaskRow → String → Uuid → Time → RuntimeEventDraft
  released_event task_name row owner dispatch_id observed_at = record {
    event_key = event_key task_name row.lease_generation "released";
    kind = lease_released;
    task_id = task_name;
    dispatch_id = dispatch_id;
    generation = row.lease_generation;
    message = "Task lease generation released.";
    attributes = released_attributes owner observed_at;
  }

module _ (payload_sha256 : Attributes → String) (str : ℕ → String) where
  unfoldable pub acquire_task_lease :
      Database
      → Uuid
      → String
      → String
      → Uuid
      → ℕ
      → Uuid
      → Time
      → Result LeaseError (Database × TaskLeaseGrant)
  acquire_task_lease db run_id task_id owner_id dispatch_id lease token observed_at = do
    task_name ← required_text task_id 128
    owner ← required_text owner_id 255
    duration ← lease_duration lease
    run ← locked_run db run_id
    raise_if (not (is_running run.status)) run_not_running
    task ← locked_task db run_id task_name
    row ← acquire task owner dispatch_id duration token observed_at
    after ←
        append_runtime_event payload_sha256 run
          (acquired_event str task_name task row owner dispatch_id (observed_at + duration))
    seen ← snapshot row observed_at
    grant ← make_grant seen token
    ok (commit db run_id task_name after row, grant)

  -- A lease that is released already is only observed: no event is appended.
  unfoldable pub release_task_lease :
      Database
      → Uuid
      → String
      → String
      → Uuid
      → Uuid
      → Time
      → Result LeaseError (Database × TaskLeaseSnapshot)
  release_task_lease db run_id task_id owner_id dispatch_id token observed_at = do
    task_name ← required_text task_id 128
    owner ← required_text owner_id 255
    run ← locked_run db run_id
    task ← locked_task db run_id task_name
    row ← release task owner dispatch_id token observed_at
    after ←
        if is_none task.lease_released_at
        then append_runtime_event payload_sha256 run
            (released_event str task_name row owner dispatch_id observed_at)
        else ok run
    seen ← snapshot row observed_at
    ok (commit db run_id task_name after row, seen)

module _ (isoformat : Time → String) (str : ℕ → String) where
  abbrev pub heartbeat_event : String → TaskRow → String → Uuid → Time → Time → RuntimeEventDraft
  heartbeat_event task_name row owner dispatch_id observed_at until = record {
    event_key =
        event_key str task_name row.lease_generation
          (str_append "heartbeat:" (isoformat observed_at));
    kind = lease_heartbeat;
    task_id = task_name;
    dispatch_id = dispatch_id;
    generation = row.lease_generation;
    message = "Task lease heartbeat renewed.";
    attributes = heartbeat_attributes owner until;
  }

module _ (payload_sha256 : Attributes → String) (isoformat : Time → String) (str : ℕ → String) where
  unfoldable pub renew_task_lease :
      Database
      → Uuid
      → String
      → String
      → Uuid
      → Uuid
      → ℕ
      → Time
      → Result LeaseError (Database × TaskLeaseSnapshot)
  renew_task_lease db run_id task_id owner_id dispatch_id token lease observed_at = do
    task_name ← required_text task_id 128
    owner ← required_text owner_id 255
    duration ← lease_duration lease
    run ← locked_run db run_id
    task ← locked_task db run_id task_name
    row ← renew task owner dispatch_id token duration observed_at
    after ← append_runtime_event payload_sha256 run (
        heartbeat_event isoformat str task_name row owner dispatch_id observed_at
          (observed_at + duration))
    seen ← snapshot row observed_at
    ok (commit db run_id task_name after row, seen)
