-- ===== src/Lease/Changes.antt =====
-- backend/app/persistence/leases.py: the rows that the operations on a lease leave behind.
use muti_agent.Prelude.{
  ℕ, ◌+◌, ◌≤◌, ◌≡◌, inl, inr, refl, sym, some, String, String_eq, Nat_eq, true, ltb, arith,
  Bool-cases,
}
use muti_agent.Result.{>>=-eq-ok, ok}
use muti_agent.Lease.{
  Time, Uuid, TaskRow, assert_identity, is_none, flush, next_generation, granted, acquire, renew,
  release,
}
use muti_agent.Lease.Rows.{IsOwned, IsRow}

-- The clock has not run backwards since the last heartbeat of the row.
abbrev pub Beats : TaskRow → Time → Type 0
Beats task t = (h : Time) → task.heartbeat_at ≡ some h → h ≤ t

next_generation-positive :
    (task : TaskRow) (dispatch_id : Uuid) (t : Time) (n : ℕ)
    → next_generation task dispatch_id t ≡ ok n
    → 1 ≤ n
unfolding next_generation
next_generation-positive task dispatch_id t n h = ground arith

-- The row after an acquisition is one with an owner, whatever it was before.
pub acquire-IsOwned :
    (task row : TaskRow) (owner : String) (dispatch_id : Uuid) (duration : ℕ) (token : Uuid)
    (t : Time)
    → ltb 0 duration ≡ true
    → acquire task owner dispatch_id duration token t ≡ ok row
    → IsOwned row
unfolding acquire flush
acquire-IsOwned task row owner dispatch_id duration token t positive h =
    let (n, e, rest) = >>=-eq-ok (next_generation task dispatch_id t) _ h in
    let made = granted task owner dispatch_id n token t duration in
    let same : made ≡ row = ground (arith) in
    rw (sym same) (record {
      owner = owner;
      dispatch = dispatch_id;
      token = token;
      acquired = t;
      heartbeat = t;
      until = t + duration;
      has_owner = refl;
      has_dispatch = refl;
      has_token = refl;
      has_acquired = refl;
      has_heartbeat = refl;
      has_until = refl;
      generations = next_generation-positive task dispatch_id t n e;
      alive = omega arith;
      lasts = ground arith;
      ends = inl refl;
    })

module _ (task row : TaskRow) (owner_id : String) (dispatch_id token : Uuid) (t : Time) where
  pub identified :
      IsRow task → assert_identity task owner_id dispatch_id token ≡ ok tt → IsOwned task
  unfolding assert_identity
  identified (inl v) h = ground (arith, v.no_owner)
  identified (inr v) h = v

  -- A heartbeat keeps the row valid, and keeps its owner, its generation and its token.
  pub renew-IsOwned :
      (duration : ℕ)
      → ltb 0 duration ≡ true
      → IsOwned task
      → Beats task t
      → renew task owner_id dispatch_id token duration t ≡ ok row
      → IsOwned row
        × (row.run_token ≡ task.run_token)
        × (row.lease_generation ≡ task.lease_generation)
        × Beats row t
  unfolding renew flush
  renew-IsOwned duration positive v b h =
      let made : TaskRow = record task {
        heartbeat_at = some t;
        lease_until = some (t + duration);
      } in
      let same : made ≡ row = ground arith in
      let later = b v.heartbeat v.has_heartbeat in
      rw (sym same) (
        record {
          owner = v.owner;
          dispatch = v.dispatch;
          token = v.token;
          acquired = v.acquired;
          heartbeat = t;
          until = t + duration;
          has_owner = v.has_owner;
          has_dispatch = v.has_dispatch;
          has_token = v.has_token;
          has_acquired = v.has_acquired;
          has_heartbeat = refl;
          has_until = refl;
          generations = v.generations;
          alive = omega (arith, v.alive);
          lasts = ground arith;
          ends = v.ends;
        },
        refl,
        refl,
        λ k e. ground arith,
      )

  -- A release keeps the row valid, and keeps its owner, its generation and its token.
  pub release-IsOwned :
      IsOwned task
      → Beats task t
      → release task owner_id dispatch_id token t ≡ ok row
      → IsOwned row
        × (row.run_token ≡ task.run_token)
        × (row.lease_generation ≡ task.lease_generation)
        × Beats row t
  unfolding release flush
  release-IsOwned v b h = elim (Bool-cases (is_none task.lease_released_at)) [
    | inr ended ↦ let same : task ≡ row = ground arith in rw (sym same) (v, refl, refl, b)
    | inl open_ended ↦
        let made : TaskRow = record task { lease_released_at = some t } in
        let same : made ≡ row = ground arith in
        let later = b v.heartbeat v.has_heartbeat in
        rw (sym same) (
          record {
            owner = v.owner;
            dispatch = v.dispatch;
            token = v.token;
            acquired = v.acquired;
            heartbeat = v.heartbeat;
            until = v.until;
            has_owner = v.has_owner;
            has_dispatch = v.has_dispatch;
            has_token = v.has_token;
            has_acquired = v.has_acquired;
            has_heartbeat = v.has_heartbeat;
            has_until = v.has_until;
            generations = v.generations;
            alive = v.alive;
            lasts = v.lasts;
            ends = inr (t, refl, omega (arith, v.alive));
          },
          refl,
          refl,
          b,
        )
  ]
