-- ===== src/Lease/Grants.antt =====
-- backend/app/persistence/leases.py: what the transactions on leases return and leave behind.
use muti_agent.Prelude.{
  ℕ, suc, ◌+◌, ◌≤◌, ◌≡◌, inr, refl, ap, ◌∙◌, none, some, String, String_eq, Nat_eq, true, not, ltb,
  arith, beq_refl, nat_eq_iff,
}
use text.Mathlib.TextEquality.{eq_iff}
use muti_agent.Result.{ok, err}
use muti_agent.Lease.{
  Time, Uuid, TaskRow, TaskLeaseSnapshot, TaskLeaseGrant, active, holds, required_text,
  lease_duration, snapshot, make_grant, assert_live_current_run_token, assert_current_run_token,
  granted, still_active,
}
use muti_agent.Lease.Rows.{IsOwned, IsRow, snapshot-ok, snapshot-generation}
use muti_agent.Lease.Changes.{acquire-IsOwned}
use muti_agent.Lease.Events.{RunRow, Attributes, running, find_event, append-fresh, appended}
use muti_agent.Lease.Store.{
  Database, is_running, locked_run, locked_task, commit, guard_task_git_mutation, event_key,
  acquired_event, acquire_task_lease,
}
use muti_agent.Lease.Fencing.{IsOpen, acquire_iff, acquire-grants, acquire-held, Shows-active}

found_run :
    (db : Database) (run_id : Uuid) (run : RunRow)
    → db.runs run_id ≡ some run
    → locked_run db run_id ≡ ok run
unfolding locked_run
found_run db run_id run e = ground arith

found_task :
    (db : Database) (run_id : Uuid) (name : String) (task : TaskRow)
    → db.tasks run_id name ≡ some task
    → locked_task db run_id name ≡ ok task
unfolding locked_task
found_task db run_id name task e = ground arith

-- A row just granted is seen as active.
granted-active :
    (task : TaskRow) (t : Time) (owner : String) (dispatch_id : Uuid) (n duration : ℕ)
    (token : Uuid)
    → IsOwned (granted task owner dispatch_id n token t duration)
    → ltb 0 duration ≡ true
    → (s : TaskLeaseSnapshot) × (snapshot (granted task owner dispatch_id n token t duration) t
        ≡ ok s)
      × (s.state ≡ active)
      × (s.generation ≡ n)
granted-active task t owner dispatch_id n duration token v positive =
    let row = granted task owner dispatch_id n token t duration in
    let (s, seen, shown) = snapshot-ok row t (inr v) in
    (
      s,
      seen,
      Shows-active row t s.state shown refl refl (ground arith),
      snapshot-generation row t s seen,
    )

make_grant-ok :
    (s : TaskLeaseSnapshot) (token : Uuid)
    → s.state ≡ active
    → 1 ≤ s.generation
    → make_grant s token ≡ ok (record { snapshot = s; run_token = token })
unfolding make_grant
make_grant-ok s token e l = ground arith

lease_duration-positive : (lease : ℕ) → lease_duration lease ≡ ok lease → ltb 0 lease ≡ true
unfolding lease_duration
lease_duration-positive lease h = ground arith

granted-live :
    (task : TaskRow) (t : Time) (owner : String) (dispatch_id : Uuid) (n duration : ℕ)
    (token : Uuid)
    → ltb 0 duration ≡ true
    → assert_live_current_run_token
        (granted task owner dispatch_id n token t duration)
        (some token)
        t
      ≡ ok tt
unfolding assert_live_current_run_token assert_current_run_token
granted-live task t owner dispatch_id n duration token positive =
    ground (arith, nat_eq_iff token token)

committed :
    (db : Database) (run_id : Uuid) (name : String) (run : RunRow) (row : TaskRow)
    → (commit db run_id name run row).tasks run_id name ≡ some row
committed db run_id name run row = ground (arith, nat_eq_iff run_id run_id, eq_iff name name)

-- The tests of the guard, one after the other.
guard-ok :
    (db : Database) (run_id : Uuid) (task_id task_name : String) (dispatch_id token : Uuid)
    (t : Time) (run : RunRow) (row : TaskRow) (s : TaskLeaseSnapshot)
    → required_text task_id 128 ≡ ok task_name
    → db.runs run_id ≡ some run
    → run.status ≡ running
    → db.tasks run_id task_name ≡ some row
    → assert_live_current_run_token row (some token) t ≡ ok tt
    → holds row.lease_dispatch_id dispatch_id ≡ true
    → snapshot row t ≡ ok s
    → guard_task_git_mutation db run_id task_id dispatch_id token t ≡ ok s
unfolding guard_task_git_mutation
guard-ok db run_id task_id task_name dispatch_id token t run row s named known_run open_run
      known_task live own seen =
    rw
      (
        named,
        found_run db run_id run known_run,
        open_run,
        found_task db run_id task_name row known_task,
        live,
        own,
      )
      seen

module _ (payload_sha256 : Attributes → String) (str : ℕ → String) (db : Database) (run_id : Uuid)
    (task_id task_name owner_id owner : String) (run : RunRow) (task : TaskRow) (dispatch_id : Uuid)
    (lease : ℕ) (token : Uuid) (t : Time) (named : required_text task_id 128 ≡ ok task_name)
    (owned : required_text owner_id 255 ≡ ok owner) (lasting : lease_duration lease ≡ ok lease)
    (known_run : db.runs run_id ≡ some run) (known_task : db.tasks run_id task_name ≡ some task)
    (open_run : run.status ≡ running) (v : IsRow task) where
  -- For a known running run, a known task with a valid row and valid arguments: while some token
  -- passes the live check, acquire_task_lease raises that the task has an ACTIVE generation.
  pub acquire_task_lease-held :
      (live : Uuid)
      → assert_live_current_run_token task (some live) t ≡ ok tt
      → acquire_task_lease payload_sha256 str db run_id task_id owner_id dispatch_id lease token t
        ≡ err still_active
  unfolding acquire_task_lease
  acquire_task_lease-held live h =
      rw
        (
          named,
          owned,
          lasting,
          found_run db run_id run known_run,
          open_run,
          found_task db run_id task_name task known_task,
          acquire-held task dispatch_id t v owner lease token live h,
        )
        refl

  -- For a known running run and a known task with a valid row whose lease is open (never owned,
  -- or run out unreleased and the dispatch another one), with valid arguments and a timeline
  -- without the event of that generation, acquire_task_lease returns: the grant carries the new
  -- token and the next generation, and the new database lets the holder through the Git guard at
  -- that time.
  pub acquire_task_lease-grants :
      IsOpen task dispatch_id t
      → find_event (event_key str task_name (suc task.lease_generation) "acquired") run.events
        ≡ none
      → (after : Database) × (grant : TaskLeaseGrant) × (acquire_task_lease payload_sha256 str db
            run_id task_id owner_id dispatch_id lease token t
          ≡ ok (after, grant))
        × (grant.run_token ≡ token)
        × (grant.snapshot.generation ≡ suc task.lease_generation)
        × (guard_task_git_mutation after run_id task_id dispatch_id token t ≡ ok grant.snapshot)
  unfolding acquire_task_lease
  acquire_task_lease-grants open_row fresh =
      let positive = lease_duration-positive lease lasting in
      let (row, acquired) = (acquire_iff task dispatch_id t v owner lease token).1 open_row in
      let same = acquire-grants task dispatch_id t v row owner lease token acquired in
      let n = suc task.lease_generation in
      let made = granted task owner dispatch_id n token t lease in
      let owning = acquire-IsOwned task row owner dispatch_id lease token t positive acquired in
      let (s, seen, live, counted) =
        granted-active task t owner dispatch_id n lease token (rw same at owning) positive in
      let draft = acquired_event str task_name task made owner dispatch_id (t + lease) in
      let logged = appended payload_sha256 run draft in
      let after = commit db run_id task_name logged made in
      (
        after,
        record { snapshot = s; run_token = token },
        rw
            (
              named,
              owned,
              lasting,
              found_run db run_id run known_run,
              ap (λ status. not (is_running status)) open_run,
              found_task db run_id task_name task known_task,
              acquired ∙ ap ok same,
              append-fresh payload_sha256 run draft fresh,
              seen,
              make_grant-ok s token live (omega (arith, counted)),
            )
            refl,
        refl,
        counted,
        guard-ok after run_id task_id task_name dispatch_id token t logged made s named
            (ground (arith, beq_refl run_id)) open_run (committed db run_id task_name logged made)
            (granted-live task t owner dispatch_id n lease token positive) (beq_refl dispatch_id)
            seen,
      )
