-- ===== src/Lease/Fencing.antt =====
-- backend/app/persistence/leases.py and fencing.py: who may write, over the life of one row.
use muti_agent.Prelude.{
  ℕ, suc, ◌≡◌, ◌↔◌, ◌⊎◌, inl, inr, refl, none, some, String, String_eq, Nat_eq, true, false, arith,
  Bool-cases,
}
use muti_agent.Result.{ok, err, >>=-eq-ok, Result-cases}
use muti_agent.Lease.{
  Time, Uuid, TaskLeaseState, unowned, active, expired, released, TaskRow, is_none, holds,
  lease_shape, flush, assert_current_run_token, has_ended, assert_live_current_run_token,
  assert_takeover, next_generation, granted, acquire, still_active,
}
use muti_agent.Lease.Rows.{IsRow, Shows, snapshot-ok}

-- The lease of a row can be given away: nobody had it, or it ran out and the dispatch is another.
abbrev pub IsOpen : TaskRow → Uuid → Time → Type 0
IsOpen task dispatch_id t =
    (task.lease_owner ≡ none)
    ⊎ ((task.lease_released_at ≡ none)
        × (has_ended task.lease_until t ≡ true)
        × (holds task.lease_dispatch_id dispatch_id ≡ false))

takeover-ok :
    (task : TaskRow) (dispatch_id : Uuid) (t : Time) (state : TaskLeaseState)
    → is_none task.lease_owner ≡ false
    → Shows task t state
    → IsOpen task dispatch_id t
    → assert_takeover task dispatch_id state ≡ ok tt
unfolding assert_takeover
takeover-ok task dispatch_id t unowned owned shown open_row = ground arith
takeover-ok task dispatch_id t active owned shown open_row = ground arith
takeover-ok task dispatch_id t expired owned shown open_row = ground arith
takeover-ok task dispatch_id t released owned shown open_row = ground arith

takeover-IsOpen :
    (task : TaskRow) (dispatch_id : Uuid) (t : Time) (state : TaskLeaseState)
    → Shows task t state
    → assert_takeover task dispatch_id state ≡ ok tt
    → IsOpen task dispatch_id t
unfolding assert_takeover
takeover-IsOpen task dispatch_id t unowned shown h = ground arith
takeover-IsOpen task dispatch_id t active shown h = ground arith
takeover-IsOpen task dispatch_id t expired shown h = inr (ground arith)
takeover-IsOpen task dispatch_id t released shown h = ground arith

first_generation :
    (task : TaskRow) → IsRow task → is_none task.lease_owner ≡ true → task.lease_generation ≡ 0
first_generation task (inl v) e = v.no_generation
first_generation task (inr v) e = ground (arith, v.has_owner)

live-parts :
    (task : TaskRow) (live : Uuid) (t : Time)
    → assert_live_current_run_token task (some live) t ≡ ok tt
    → (task.run_token ≡ some live)
      × (task.lease_released_at ≡ none)
      × (has_ended task.lease_until t ≡ false)
unfolding assert_live_current_run_token assert_current_run_token
live-parts task live t h = (ground arith, ground arith, ground arith)

has_owner-of_token :
    (task : TaskRow)
    → IsRow task
    → (live : Uuid) → task.run_token ≡ some live
    → is_none task.lease_owner ≡ false
has_owner-of_token task (inl v) live e = ground (arith, v.no_token)
has_owner-of_token task (inr v) live e = ground (arith, v.has_owner)

pub Shows-active :
    (task : TaskRow) (t : Time) (state : TaskLeaseState)
    → Shows task t state
    → is_none task.lease_owner ≡ false
    → task.lease_released_at ≡ none
    → has_ended task.lease_until t ≡ false
    → state ≡ active
Shows-active task t unowned shown owned unreleased lasts = ground arith
Shows-active task t active shown owned unreleased lasts = refl
Shows-active task t expired shown owned unreleased lasts = ground arith
Shows-active task t released shown owned unreleased lasts = ground arith

module _ (task : TaskRow) (dispatch_id : Uuid) (t : Time) (v : IsRow task) where
  next_generation-ok :
      IsOpen task dispatch_id t
      → next_generation task dispatch_id t ≡ ok (suc task.lease_generation)
  unfolding next_generation
  next_generation-ok open_row = elim (Bool-cases (is_none task.lease_owner)) [
    | inl e ↦ ground (arith, first_generation task v e)
    | inr e ↦
        let (s, seen, shown) = snapshot-ok task t v in
        ground (arith, takeover-ok task dispatch_id t s.state e shown open_row)
  ]

  next_generation-IsOpen :
      (n : ℕ)
      → next_generation task dispatch_id t ≡ ok n
      → IsOpen task dispatch_id t × (n ≡ suc task.lease_generation)
  unfolding next_generation
  next_generation-IsOpen n h = elim (Bool-cases (is_none task.lease_owner)) [
    | inl e ↦ (inl (ground arith), ground (arith, first_generation task v e))
    | inr e ↦
        let (s, seen, shown) = snapshot-ok task t v in
        elim (Result-cases (assert_takeover task dispatch_id s.state)) [
          | inl (_, passed) ↦
              (takeover-IsOpen task dispatch_id t s.state shown passed, ground arith)
          | inr (_, stopped) ↦ ground arith
        ]
  ]

  -- On a valid row, acquire returns exactly if the row was never owned or its lease ran out
  -- unreleased and the dispatch is another one.
  pub acquire_iff :
      (owner : String) (duration : ℕ) (token : Uuid)
      → ((row : TaskRow) × (acquire task owner dispatch_id duration token t ≡ ok row))
        ↔ IsOpen task dispatch_id t
  unfolding acquire flush lease_shape
  acquire_iff owner duration token = (
    λ (row, h).
        let (n, e, rest) = >>=-eq-ok (next_generation task dispatch_id t) _ h in
        (next_generation-IsOpen n e).0,
    λ open_row. (
      granted task owner dispatch_id (suc task.lease_generation) token t duration,
      ground (arith, next_generation-ok open_row),
    ),
  )

  pub acquire-grants :
      (row : TaskRow) (owner : String) (duration : ℕ) (token : Uuid)
      → acquire task owner dispatch_id duration token t ≡ ok row
      → row ≡ granted task owner dispatch_id (suc task.lease_generation) token t duration
  unfolding acquire flush
  acquire-grants row owner duration token h =
      let (n, e, rest) = >>=-eq-ok (next_generation task dispatch_id t) _ h in
      let (_, same) = next_generation-IsOpen n e in ground arith

  -- While a token may write, nobody acquires the lease.
  pub acquire-held :
      (owner : String) (duration : ℕ) (token live : Uuid)
      → assert_live_current_run_token task (some live) t ≡ ok tt
      → acquire task owner dispatch_id duration token t ≡ err still_active
  unfolding acquire next_generation assert_takeover
  acquire-held owner duration token live h =
      let (s, seen, shown) = snapshot-ok task t v in
      let (current, unreleased, lasts) = live-parts task live t h in
      ground (arith, has_owner-of_token task v live current, Shows-active task t s.state shown)
