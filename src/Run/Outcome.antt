-- ===== src/Run/Outcome.antt =====
-- backend/app/runtime/orchestrator.py: what a repair, and the results of `run`, look like.
use muti_agent.Prelude.{
  ℕ, suc, ◌≤◌, ◌≡◌, ◌⊎◌, inl, inr, refl, subst, sym, String, String_eq, Nat_eq, true, false, some,
  List, [], ◌∷◌, ◌++◌, map, length, arith, length-append, nat_eq_iff,
}
use muti_agent.Result.{Result, ok}
use muti_agent.Run.{
  TaskRunState, pending, running, verifying, reviewing, repairing, succeeded, failed, can_follow,
  same_run_state, RunEvent, moved, change_state, RunError, FailureReport, VerificationResult,
  ReviewDecision, pass, RepairRunResult, SingleTaskRunResult, is_nil, last, ends_in,
  validate_terminal_consistency,
}
use muti_agent.Run.Failures.{IsMessage, make_failure-ok}
use muti_agent.Run.Limits.{WithinLimits, refuses_state-limits}
use muti_agent.Run.Repair.{
  finish_with, Attempt, gives, raises, budget_exhausted, budget_blocked, repair_provider,
  repair_value, Agents, Run, Phase, finished, goes_on, make_result, finish, advance, repair_raised,
  record_repair,
}

-- A success rests on the last verification and the last review.
pub record Earned (verifications : List VerificationResult) (reviews : List ReviewDecision)
    : Type 0 where
  pub verification : VerificationResult
  pub review : ReviewDecision
  pub last_verification : last verifications ≡ some verification
  pub verification_passed : verification.passed ≡ true
  pub last_review : last reviews ≡ some review
  pub review_passed : review.decision ≡ pass

-- What `run` may return within a budget of repairs.
pub record IsOutcome (budget : ℕ) (r : SingleTaskRunResult) : Type 0 where
  pub consistent : validate_terminal_consistency r ≡ ok r
  pub bounded : length r.repairs ≤ budget
  pub earned : (r.status ≡ failed) ⊎ ((r.status ≡ succeeded) × Earned r.verifications r.reviews)

pub Attempt-cases :
    {E A : Type 0} (a : Attempt E A) → ((x : A) × (a ≡ gives x)) ⊎ ((e : E) × (a ≡ raises e))
Attempt-cases (gives x) = inl (x, refl)
Attempt-cases (raises e) = inr (e, refl)

same_run_state_refl : (state : TaskRunState) → same_run_state state state ≡ true
same_run_state_refl pending = refl
same_run_state_refl running = refl
same_run_state_refl verifying = refl
same_run_state_refl reviewing = refl
same_run_state_refl repairing = refl
same_run_state_refl succeeded = refl
same_run_state_refl failed = refl

ends_in-snoc : (es : List RunEvent) (e : RunEvent) → ends_in (es ++ e ∷ []) e.state ≡ true
ends_in-snoc [] e = same_run_state_refl e.state
ends_in-snoc (x ∷ []) e = same_run_state_refl e.state
ends_in-snoc (x ∷ y ∷ es) e = ends_in-snoc (y ∷ es) e

pub is_nil-map : {A B : Type 0} (f : A → B) (xs : List A) → is_nil (map f xs) ≡ is_nil xs
is_nil-map f [] = refl
is_nil-map f (x ∷ xs) = refl

pub advance-ok :
    {W : Type 0} (s : Run W) (state : TaskRunState) (detail : String)
    → can_follow s.machine.state state ≡ true
    → advance s state detail ≡ ok (record s { machine = moved s.machine state detail })
unfolding advance change_state
advance-ok s state detail h = ground arith

module _ {W : Type 0} (agents : Agents W) (limits : WithinLimits agents) (budget : ℕ) (s : Run W)
    (detail : String) (failures : List FailureReport) (within : length s.repairs ≤ budget) where
  pub finish-failed :
      can_follow s.machine.state failed ≡ true
      → is_nil failures ≡ false
      → (r : SingleTaskRunResult) × (finish agents s failed detail failures ≡ ok (finished r))
        × IsOutcome budget r
  unfolding finish change_state make_result validate_terminal_consistency
  finish-failed h some_failure =
      let e : RunEvent = record {
        sequence = length s.machine.events;
        state = failed;
        detail = detail;
      } in
      let r : SingleTaskRunResult = record {
        status = failed;
        events = s.machine.events ++ e ∷ [];
        verifications = s.verifications;
        reviews = s.reviews;
        repairs = s.repairs;
        failures = failures;
        repair_attempts = length s.repairs;
      } in
      (
        r,
        ground (
          arith,
          ends_in-snoc s.machine.events e,
          nat_eq_iff (length s.repairs) (length s.repairs),
          refuses_state-limits agents limits s.packet s.world,
        ),
        record {
          consistent = ground (
            arith,
            ends_in-snoc s.machine.events e,
            nat_eq_iff (length s.repairs) (length s.repairs),
          );
          bounded = within;
          earned = inl refl;
        },
      )

module _ {W : Type 0} (agents : Agents W) (limits : WithinLimits agents) (budget : ℕ) (s : Run W)
    (detail : String) (within : length s.repairs ≤ budget) where
  finish_with-reported :
      (failure : FailureReport)
      → finish_with agents s detail (ok failure) ≡ finish agents s failed detail (failure ∷ [])
  unfolding finish finish_with
  finish_with-reported failure = refl

  pub finish_with-failed :
      (report : Result RunError FailureReport) (failure : FailureReport)
      → report ≡ ok failure
      → can_follow s.machine.state failed ≡ true
      → (r : SingleTaskRunResult) × (finish_with agents s detail report ≡ ok (finished r))
        × IsOutcome budget r
  finish_with-failed report failure e h =
      let (r, same, outcome) =
        finish-failed agents limits budget s detail (failure ∷ []) within h refl in
      (r, rw (e, finish_with-reported failure) same, outcome)

  pub finish-succeeded :
      can_follow s.machine.state succeeded ≡ true
      → Earned s.verifications s.reviews
      → (r : SingleTaskRunResult) × (finish agents s succeeded detail [] ≡ ok (finished r))
        × IsOutcome budget r
  unfolding finish change_state make_result validate_terminal_consistency
  finish-succeeded h earned =
      let e : RunEvent = record {
        sequence = length s.machine.events;
        state = succeeded;
        detail = detail;
      } in
      let r : SingleTaskRunResult = record {
        status = succeeded;
        events = s.machine.events ++ e ∷ [];
        verifications = s.verifications;
        reviews = s.reviews;
        repairs = s.repairs;
        failures = [];
        repair_attempts = length s.repairs;
      } in
      (
        r,
        ground (
          arith,
          ends_in-snoc s.machine.events e,
          nat_eq_iff (length s.repairs) (length s.repairs),
          refuses_state-limits agents limits s.packet s.world,
        ),
        record {
          consistent = ground (
            arith,
            ends_in-snoc s.machine.events e,
            nat_eq_iff (length s.repairs) (length s.repairs),
          );
          bounded = within;
          earned = inr (refl, earned);
        },
      )

-- A step that returns from `run` with an outcome, or goes on with what `P` says.
abbrev pub Ends : {W : Type 0} → ℕ → (Run W → Type 0) → Result RunError (Phase W) → Type 0
Ends {W} budget P step =
    ((r : SingleTaskRunResult) × (step ≡ ok (finished r)) × IsOutcome budget r)
    ⊎ ((next : Run W) × (step ≡ ok (goes_on next)) × P next)

pub Ends-of :
    {W : Type 0} (budget : ℕ) (P : Run W → Type 0) {a b : Result RunError (Phase W)}
    → a ≡ b
    → Ends budget P b
    → Ends budget P a
Ends-of budget P e h = subst (Ends budget P) (sym e) h

-- A repair was made behind the first `count`, within the budget.
pub record Repaired {W : Type 0} (budget count : ℕ) (next : Run W) : Type 0 where
  pub now_repairing : next.machine.state ≡ repairing
  pub made : suc count ≤ length next.repairs
  pub within : length next.repairs ≤ budget
  pub repair : RepairRunResult
  pub last_repair : last next.repairs ≡ some repair

pub last-snoc : {A : Type 0} (xs : List A) (x : A) → last (xs ++ x ∷ []) ≡ some x
last-snoc [] x = refl
last-snoc (y ∷ []) x = refl
last-snoc (y ∷ z ∷ xs) x = last-snoc (z ∷ xs) x

module _ {W : Type 0} (agents : Agents W) (limits : WithinLimits agents) (budget : ℕ) where
  pub record_repair-Ends :
      (s : Run W) (before : W) (signature : String) (answer : W × Attempt _ RepairRunResult)
      → s.machine.state ≡ repairing
      → suc (length s.repairs) ≤ budget
      → ((after : W) (reports : List FailureReport)
          → answer ≡ (after, raises (budget_exhausted reports))
          → is_nil reports ≡ false)
      → ((after : W) (message : String)
          → answer ≡ (after, raises (repair_value message))
          → IsMessage message)
      → Ends budget
          (Repaired budget (length s.repairs))
          (record_repair agents budget s before signature answer)
  unfolding record_repair repair_raised
  record_repair-Ends s before signature (after, raises (budget_exhausted reports)) at le says
        tells =
      inl (
        finish-failed agents limits budget (record s { world = after })
          "Repair Agent rejected exhausted budget." reports (omega (arith, le)) (ground arith)
          (says after reports refl))
  record_repair-Ends s before signature (after, raises (budget_blocked failure)) at le says tells =
      inl (
        finish-failed agents limits budget (record s { world = after }) _ (failure ∷ [])
          (omega (arith, le)) (ground arith) refl)
  record_repair-Ends s before signature (after, raises (repair_provider failure)) at le says tells =
      inl (
        finish-failed agents limits budget (record s { world = after }) _ (failure ∷ [])
          (omega (arith, le)) (ground arith) refl)
  record_repair-Ends s before signature (after, raises (repair_value message)) at le says tells =
      let (failure, e) = make_failure-ok _ message [] (tells after message refl) refl in
      inl (
        finish_with-failed agents limits budget (record s { world = after }) _ (omega (arith, le)) _
          failure e (ground arith))
  record_repair-Ends s before signature (after, gives repair) at le says tells = inr (
    _,
    refl,
    record {
      now_repairing = at;
      made = omega (arith, length-append s.repairs (_ ∷ []));
      within = omega (arith, length-append s.repairs (_ ∷ []), le);
      repair = _;
      last_repair = last-snoc s.repairs _;
    },
  )
