-- ===== src/Lease/Authority.antt =====
-- backend/app/persistence/leases.py: the lives of one row. A clock that does not run backwards and
-- tokens that were never granted before stand for PostgreSQL's clock_timestamp and for uuid4 with
-- the constraint uq_tasks_run_token.
use muti_agent.Prelude.{
  ℕ, ◌≤◌, ◌≡◌, inl, inr, refl, ◌∙◌, Option, none, some, String, String_eq, Nat_eq, ◌==◌, true,
  false, ltb, arith, List, [], ◌∷◌, elem, distinct, length, nat_eq_iff,
}
use muti_agent.Result.{ok, err, >>=-eq-ok}
use muti_agent.Lease.{
  Time, Uuid, TaskRow, assert_current_run_token, assert_live_current_run_token, assert_identity,
  acquire, renew, release, stale_token,
}
use muti_agent.Lease.Rows.{IsFree, IsOwned, IsRow}
use muti_agent.Lease.Changes.{identified, Beats, acquire-IsOwned, renew-IsOwned, release-IsOwned}
use muti_agent.Lease.Fencing.{acquire-grants}

-- One successful operation on the row at a time, with the tokens granted so far, the last one first.
pub data Step (t : Time) (task : TaskRow) (tokens : List Uuid) : TaskRow → List Uuid → Type 0 where
  acquires :
      {row : TaskRow} (owner : String) (dispatch_id : Uuid) (duration : ℕ) (token : Uuid)
      → ltb 0 duration ≡ true
      → elem token tokens ≡ false
      → acquire task owner dispatch_id duration token t ≡ ok row
      → Step t task tokens row (token ∷ tokens)
  renews :
      {row : TaskRow} (owner : String) (dispatch_id : Uuid) (duration : ℕ) (token : Uuid)
      → ltb 0 duration ≡ true
      → renew task owner dispatch_id token duration t ≡ ok row
      → Step t task tokens row tokens
  releases :
      {row : TaskRow} (owner : String) (dispatch_id token : Uuid)
      → release task owner dispatch_id token t ≡ ok row
      → Step t task tokens row tokens

-- The lives of a row that starts free, up to a time.
pub data Life : Time → TaskRow → List Uuid → Type 0 where
  born : {task : TaskRow} {t : Time} → IsFree task → Life t task []
  then_at :
      {s t : Time} {task row : TaskRow} {old new : List Uuid}
      → Life s task old
      → s ≤ t
      → Step t task old row new
      → Life t row new

abbrev pub latest_of : List Uuid → Option Uuid
latest_of [] = none
latest_of (token ∷ tokens) = some token

-- The tokens that were granted, and the row.
pub record Holds (t : Time) (task : TaskRow) (tokens : List Uuid) : Type 0 where
  pub valid : IsRow task
  pub beats : Beats task t
  pub once : distinct tokens ≡ true
  pub counted : task.lease_generation ≡ length tokens
  pub latest : task.run_token ≡ latest_of tokens

-- Who may change a row says who owns it.
renew-identity :
    (task row : TaskRow) (owner : String) (dispatch_id token : Uuid) (duration : ℕ) (t : Time)
    → renew task owner dispatch_id token duration t ≡ ok row
    → assert_identity task owner dispatch_id token ≡ ok tt
unfolding renew
renew-identity task row owner dispatch_id token duration t h =
    (>>=-eq-ok (assert_identity task owner dispatch_id token) _ h).1

release-identity :
    (task row : TaskRow) (owner : String) (dispatch_id token : Uuid) (t : Time)
    → release task owner dispatch_id token t ≡ ok row
    → assert_identity task owner dispatch_id token ≡ ok tt
unfolding release
release-identity task row owner dispatch_id token t h =
    (>>=-eq-ok (assert_identity task owner dispatch_id token) _ h).1

keeps-Holds :
    (s t : Time) (task row : TaskRow) (tokens : List Uuid)
    → Holds s task tokens
    → IsOwned row
      × (row.run_token ≡ task.run_token)
      × (row.lease_generation ≡ task.lease_generation)
      × Beats row t
    → Holds t row tokens
keeps-Holds s t task row tokens v (w, same, count, beats) = record {
  valid = inr w;
  beats = beats;
  once = v.once;
  counted = count ∙ v.counted;
  latest = same ∙ v.latest;
}

later : (task : TaskRow) (s t : Time) → Beats task s → s ≤ t → Beats task t
later task s t b le k e = omega (arith, b k e)

Step-Holds :
    (s t : Time) (task row : TaskRow) (old new : List Uuid)
    → Holds s task old
    → s ≤ t
    → Step t task old row new
    → Holds t row new
Step-Holds s t task row old new v le (acquires owner dispatch_id duration token positive fresh h) =
    let same = acquire-grants task dispatch_id t v.valid row owner duration token h in
    record {
      valid = inr (acquire-IsOwned task row owner dispatch_id duration token t positive h);
      beats = λ k e. ground (arith, same);
      once = ground (arith, v.once);
      counted = ground (arith, same, v.counted);
      latest = ground (arith, same);
    }
Step-Holds s t task row old new v le (renews owner dispatch_id duration token positive h) =
    let owned =
      identified task row owner dispatch_id token t v.valid
        (renew-identity task row owner dispatch_id token duration t h) in
    keeps-Holds s t task row old v (
      renew-IsOwned task row owner dispatch_id token t duration positive owned
        (later task s t v.beats le) h)
Step-Holds s t task row old new v le (releases owner dispatch_id token h) =
    let owned =
      identified task row owner dispatch_id token t v.valid
        (release-identity task row owner dispatch_id token t h) in
    keeps-Holds s t task row old v
      (release-IsOwned task row owner dispatch_id token t owned (later task s t v.beats le) h)

-- Whatever a task row has lived through since it was free, at times that do not decrease, with
-- lease durations above zero and tokens granted at most once: the row is free or has an owner, a
-- dispatch, a token and times in order, its last heartbeat is not in the future, the granted
-- tokens differ, the generation is their number, and the token of the row is the last one.
pub Life-Holds :
    (t : Time) (task : TaskRow) (tokens : List Uuid) → Life t task tokens → Holds t task tokens
Life-Holds t task tokens (born v) = record {
  valid = inl v;
  beats = λ k e. ground (arith, v.no_heartbeat);
  once = refl;
  counted = v.no_generation;
  latest = v.no_token;
}
Life-Holds t row new (then_at {s = s} {task = task} {old = old} life le step) =
    Step-Holds s t task row old new (Life-Holds s task old life) le step

-- Whatever a task row has lived through since it was free, at times that do not decrease, with
-- lease durations above zero and tokens granted at most once, both token checks raise
-- StaleRunTokenError, now and at any time, for each token that was granted before the last one,
-- and the plain check accepts the last one.
pub superseded_token-rejected :
    (t now : Time) (task : TaskRow) (latest : Uuid) (earlier : List Uuid) (token : Uuid)
    → Life t task (latest ∷ earlier)
    → elem token earlier ≡ true
    → (assert_current_run_token task (some token) ≡ err stale_token)
      × (assert_live_current_run_token task (some token) now ≡ err stale_token)
      × (assert_current_run_token task (some latest) ≡ ok tt)
unfolding assert_current_run_token assert_live_current_run_token
superseded_token-rejected t now task latest earlier token life m =
    let v = Life-Holds t task (latest ∷ earlier) life in
    let other : (latest == token) ≡ false = ground (arith, v.once, nat_eq_iff latest token) in
    (ground (arith, v.latest), ground (arith, v.latest), ground (arith, v.latest))
