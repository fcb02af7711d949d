-- ===== src/Tests/Leases.antt =====
-- backend/app/persistence/leases.py: the theorems on a task whose first worker lost its lease.
use muti_agent.Prelude.{
  ℕ, ◌≡◌, ◌↔◌, ◌⊎◌, inl, inr, refl, String, none, some, [], ◌∷◌, arith, Nat_eq, String_eq,
}
use muti_agent.Result.{ok, err}
use muti_agent.Text.{is_space, lstrip, rstrip, strip, text_length}
use muti_agent.Lease.{
  TaskRow, TaskLeaseSnapshot, TaskLeaseGrant, stale_token, still_active, required_text,
  lease_duration, validate_release, validate_times, validate_shape, lease_state, snapshot,
  make_grant, lease_shape, flush, assert_current_run_token, assert_live_current_run_token,
  assert_identity, assert_takeover, next_generation, granted, acquire, renew, release,
}
use muti_agent.Lease.Rows.{IsFree, IsOwned, Shows, snapshot-ok}
use muti_agent.Lease.Events.{
  RunRow, running, Attributes, RuntimeEventDraft, find_event, append_runtime_event, same_event,
  appended, IsTimeline, append_runtime_event-IsTimeline, append_runtime_event-twice, lease_acquired,
  released_attributes,
}
use muti_agent.Lease.Store.{
  Database, locked_run, locked_task, guard_task_git_mutation, acquire_task_lease,
}
use muti_agent.Lease.Fencing.{IsOpen, acquire_iff}
use muti_agent.Lease.Grants.{acquire_task_lease-held, acquire_task_lease-grants}
use muti_agent.Lease.Authority.{
  Life, born, then_at, acquires, Holds, Life-Holds, superseded_token-rejected,
}

program : Unit {0}
unfolding required_text lease_duration validate_release validate_times validate_shape lease_state
    snapshot make_grant lease_shape flush assert_current_run_token assert_live_current_run_token
    assert_identity assert_takeover next_generation acquire renew release find_event
    append_runtime_event same_event locked_run locked_task guard_task_git_mutation
    acquire_task_lease is_space lstrip rstrip strip text_length
program = tt

abbrev free : TaskRow
free = record {
  run_id = 7;
  task_id = "a";
  lease_owner = none;
  lease_dispatch_id = none;
  lease_generation = 0;
  run_token = none;
  lease_acquired_at = none;
  heartbeat_at = none;
  lease_until = none;
  lease_released_at = none;
}

free-IsFree : IsFree free
free-IsFree = record {
  no_owner = refl;
  no_dispatch = refl;
  no_token = refl;
  no_acquired = refl;
  no_heartbeat = refl;
  no_until = refl;
  no_release = refl;
  no_generation = refl;
}

-- The first worker, from time 10 to time 15, and the second from time 15.
abbrev first : TaskRow
first = granted free "w1" 1 1 101 10 5

abbrev second : TaskRow
second = granted first "w2" 2 2 102 15 5

acquire-first : acquire free "w1" 1 5 101 10 ≡ ok first
unfolding program
acquire-first = refl

acquire-second : acquire first "w2" 2 5 102 15 ≡ ok second
unfolding program
acquire-second = refl

life : Life 15 second (102 ∷ 101 ∷ [])
life =
    then_at {s = 10} {task = first} {old = 101 ∷ []}
      (then_at {s = 10} {task = free} {old = []} (born free-IsFree) (omega arith)
        (acquires "w1" 1 5 101 refl refl acquire-first))
      (omega arith) (acquires "w2" 2 5 102 refl refl acquire-second)

superseded_token-rejected_example :
    (assert_current_run_token second (some 101) ≡ err stale_token)
    × (assert_live_current_run_token second (some 101) 16 ≡ err stale_token)
    × (assert_current_run_token second (some 102) ≡ ok tt)
superseded_token-rejected_example =
    superseded_token-rejected 15 16 second 102 (101 ∷ []) 101 life refl

Life-Holds_example : Holds 15 second (102 ∷ 101 ∷ [])
Life-Holds_example = Life-Holds 15 second (102 ∷ 101 ∷ []) life

first-IsOwned : IsOwned first
first-IsOwned = record {
  owner = "w1";
  dispatch = 1;
  token = 101;
  acquired = 10;
  heartbeat = 10;
  until = 15;
  has_owner = refl;
  has_dispatch = refl;
  has_token = refl;
  has_acquired = refl;
  has_heartbeat = refl;
  has_until = refl;
  generations = omega arith;
  alive = omega arith;
  lasts = omega arith;
  ends = inl refl;
}

snapshot-ok_example : (s : TaskLeaseSnapshot) × (snapshot first 15 ≡ ok s) × Shows first 15 s.state
snapshot-ok_example = snapshot-ok first 15 (inr first-IsOwned)

acquire_iff_example :
    ((row : TaskRow) × (acquire first "w2" 2 5 102 15 ≡ ok row)) ↔ IsOpen first 2 15
acquire_iff_example = acquire_iff first 2 15 (inr first-IsOwned) "w2" 5 102

abbrev digest : Attributes → String
digest (released_attributes owner at) = owner
digest _ = "0"

abbrev show_number : ℕ → String
show_number n = "1"

abbrev run : RunRow
run = record { id = 7; status = running; event_sequence = 0; events = [] }

abbrev db : TaskRow → Database
db row = record { runs = λ _. some run; tasks = λ _ _. some row }

acquire_task_lease-grants_example :
    (after : Database) × (grant : TaskLeaseGrant) × (acquire_task_lease digest show_number
        (db first)
        7
        " a "
        "w2"
        2
        5
        102
        15
      ≡ ok (after, grant))
    × (grant.run_token ≡ 102)
    × (grant.snapshot.generation ≡ 2)
    × (guard_task_git_mutation after 7 " a " 2 102 15 ≡ ok grant.snapshot)
unfolding program
acquire_task_lease-grants_example =
    acquire_task_lease-grants digest show_number (db first) 7 " a " "a" "w2" "w2" run first 2 5 102
      15 refl refl refl refl refl refl (inr first-IsOwned) (inr (refl, refl, refl)) refl

acquire_task_lease-held_example :
    acquire_task_lease digest show_number (db first) 7 "a" "w2" 2 5 102 14 ≡ err still_active
unfolding program
acquire_task_lease-held_example =
    acquire_task_lease-held digest show_number (db first) 7 "a" "a" "w2" "w2" run first 2 5 102 14
      refl refl refl refl refl refl (inr first-IsOwned) 101 refl

abbrev draft : RuntimeEventDraft
draft = record {
  event_key = "lease:a:generation:1:acquired";
  kind = lease_acquired;
  task_id = "a";
  dispatch_id = 1;
  generation = 1;
  message = "Task lease generation acquired.";
  attributes = released_attributes "w1" 12;
}

append_runtime_event-IsTimeline_example :
    IsTimeline (appended digest run draft)
    × ((appended digest run draft ≡ run) ⊎ (appended digest run draft ≡ appended digest run draft))
unfolding program
append_runtime_event-IsTimeline_example =
    append_runtime_event-IsTimeline digest run (appended digest run draft) draft refl (tt, refl)

append_runtime_event-twice_example :
    append_runtime_event digest (appended digest run draft) draft ≡ ok (appended digest run draft)
unfolding program
append_runtime_event-twice_example =
    append_runtime_event-twice digest run (appended digest run draft) draft refl
