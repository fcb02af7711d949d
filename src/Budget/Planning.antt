-- ===== src/Budget/Planning.antt =====
-- backend/app/persistence/planning_budget.py: PostgresPlanningTokenBudgetStore. A table is the list
-- of its rows. The primary keys, the unique run and the positive limits are the constraints of
-- backend/alembic/versions/0012_planning_token_budgets.py; the project and the run that a row
-- refers to are there, and the columns are wide enough for the sums.
pub mod Links
pub mod Tables
pub mod Ledger
pub mod Settle
pub mod Reserve
pub mod Session
pub mod Promises
use muti_agent.Prelude.{
  ℕ, suc, ◌+◌, ◌-◌, ◌==◌, Nat_eq, Bool, true, false, not, ◌&&◌, ◌||◌, Option, none, some, List, [],
  ◌∷◌, map, any, select, if◌then◌else◌, leb, ltb,
}
use muti_agent.Result.{Result, ok, err}
use muti_agent.Transaction.{begin}
use muti_agent.Lease.{Uuid, is_none, holds}
use muti_agent.Budget.{
  RunTokenBudgetStatus, normal, exhausted, TokenUsage, status_for, actual_usage,
}

pub record PlanningRow : Type 0 where
  pub launch_id : Uuid
  pub project_id : Uuid
  pub run_id : Option Uuid
  pub total_budget_tokens : ℕ
  pub used_prompt_tokens : ℕ
  pub used_completion_tokens : ℕ
  pub used_total_tokens : ℕ
  pub reserved_tokens : ℕ
  pub attempt_count : ℕ
  pub max_attempts : ℕ
  pub enable_thinking : Bool
  pub status : RunTokenBudgetStatus

-- A row of planning_token_reservations, and the value that reserve returns for it.
pub record PlanningReservation : Type 0 where
  pub reservation_id : Uuid
  pub launch_id : Uuid
  pub reserved_input_tokens : ℕ
  pub reserved_output_tokens : ℕ

pub record PlanningDatabase : Type 0 where
  pub budgets : List PlanningRow
  pub reservations : List PlanningReservation

pub data PlanningError : Type 0 where
  bad_values budget_missing attempts_used budget_spent capacity_missing : PlanningError
  no_result integrity_error invalid_budget linked_elsewhere : PlanningError

abbrev pub Outcome : Type 0 → Type 0
Outcome A = PlanningDatabase × Result PlanningError A

-- `SELECT ... WHERE launch_id = :launch_id`
abbrev pub find_budget : Uuid → List PlanningRow → Option PlanningRow
find_budget launch [] = none
find_budget launch (row ∷ rows) =
    if row.launch_id == launch then some row else find_budget launch rows

-- `UPDATE ... WHERE launch_id = :launch_id`
abbrev pub update_budget : Uuid → (PlanningRow → PlanningRow) → List PlanningRow → List PlanningRow
update_budget launch change [] = []
update_budget launch change (row ∷ rows) =
    (if row.launch_id == launch then change row else row) ∷ update_budget launch change rows

abbrev pub find_reservation : Uuid → List PlanningReservation → Option PlanningReservation
find_reservation id [] = none
find_reservation id (row ∷ rows) =
    if row.reservation_id == id then some row else find_reservation id rows

abbrev pub delete_reservation : Uuid → List PlanningReservation → List PlanningReservation
delete_reservation id rows = select (λ row. not (row.reservation_id == id)) rows

abbrev pub new_row : Uuid → Uuid → ℕ → ℕ → Bool → PlanningRow
new_row launch project total max_attempts thinking = record {
  launch_id = launch;
  project_id = project;
  run_id = none;
  total_budget_tokens = total;
  used_prompt_tokens = 0;
  used_completion_tokens = 0;
  used_total_tokens = 0;
  reserved_tokens = 0;
  attempt_count = 0;
  max_attempts = max_attempts;
  enable_thinking = thinking;
  status = normal;
}

-- The store is made with the default total and the default number of attempts.
unfoldable pub initialize : ℕ → ℕ → Uuid → Uuid → Bool → PlanningDatabase → Outcome (Unit {0})
initialize default_total default_attempts launch project thinking = begin (λ db.
    if default_total == 0 || default_attempts == 0
    then (db, err integrity_error)
    else if is_none (find_budget launch db.budgets)
    then (
      record db {
        budgets = new_row launch project default_total default_attempts thinking ∷ db.budgets;
      },
      ok tt,
    )
    else (db, ok tt))

abbrev pub mark_exhausted : Uuid → PlanningDatabase → PlanningDatabase
mark_exhausted launch db = record db {
  budgets = update_budget launch (λ row. record row { status = exhausted }) db.budgets;
}

-- What reserve writes: the two statements after its tests.
abbrev pub write_reservation :
    Uuid → Uuid → ℕ → ℕ → RunTokenBudgetStatus → PlanningDatabase → PlanningDatabase
write_reservation id launch input output status db = record {
  budgets =
      update_budget launch
        (λ row. record row {
          reserved_tokens = row.reserved_tokens + (input + output);
          attempt_count = suc row.attempt_count;
          status = status;
        })
        db.budgets;
  reservations =
      record {
        reservation_id = id;
        launch_id = launch;
        reserved_input_tokens = input;
        reserved_output_tokens = output;
      }
      ∷ db.reservations;
}

abbrev pub reserve_row :
    Uuid → Uuid → ℕ → ℕ → PlanningDatabase → PlanningRow → Outcome PlanningReservation
reserve_row id launch input output db row =
    let projected = row.used_total_tokens + row.reserved_tokens + (input + output) in
    if leb row.max_attempts row.attempt_count
    then (mark_exhausted launch db, err attempts_used)
    else if ltb row.total_budget_tokens projected
    then (mark_exhausted launch db, err budget_spent)
    else if is_none (find_reservation id db.reservations)
    then (
      write_reservation id launch input output (status_for projected row.total_budget_tokens) db,
      ok (record {
        reservation_id = id;
        launch_id = launch;
        reserved_input_tokens = input;
        reserved_output_tokens = output;
      }),
    )
    else (db, err integrity_error)

-- `id` is the answer of uuid4.
unfoldable pub reserve : Uuid → Uuid → ℕ → ℕ → PlanningDatabase → Outcome PlanningReservation
reserve id launch input output db =
    if ltb output 1
    then (db, err bad_values)
    else begin
        (λ seen. elim (find_budget launch seen.budgets) [
          | none ↦ (seen, err budget_missing)
          | some row ↦ reserve_row id launch input output seen row
        ])
        db

abbrev pub has_capacity : PlanningRow → ℕ → ℕ → Bool
has_capacity row required_tokens required_calls = not (
    ltb row.max_attempts (row.attempt_count + required_calls)
    || ltb (row.total_budget_tokens - row.used_total_tokens - row.reserved_tokens) required_tokens)

unfoldable pub ensure_capacity : Uuid → ℕ → ℕ → PlanningDatabase → Outcome (Unit {0})
ensure_capacity launch required_tokens required_calls db =
    if ltb required_tokens 1 || ltb required_calls 1
    then (db, err bad_values)
    else begin
        (λ seen. elim (find_budget launch seen.budgets) [
          | none ↦ (seen, err budget_missing)
          | some row ↦ (
            seen,
            if has_capacity row required_tokens required_calls then ok tt else err capacity_missing,
          )
        ])
        db

-- What _finish writes for a reservation of `reserved` tokens.
abbrev pub charge : ℕ → ℕ → ℕ → RunTokenBudgetStatus → PlanningRow → PlanningRow
charge reserved prompt completion status row = record row {
  reserved_tokens = row.reserved_tokens - reserved;
  used_prompt_tokens = row.used_prompt_tokens + prompt;
  used_completion_tokens = row.used_completion_tokens + completion;
  used_total_tokens = row.used_total_tokens + (prompt + completion);
  status = status;
}

abbrev pub finish_row :
    PlanningReservation
    → Option TokenUsage
    → PlanningDatabase
    → PlanningReservation
    → PlanningRow
    → PlanningDatabase
finish_row reservation usage db row budget =
    let (prompt, completion) =
      actual_usage usage row.reserved_input_tokens row.reserved_output_tokens in
    record {
      budgets =
          update_budget reservation.launch_id
            (charge (row.reserved_input_tokens + row.reserved_output_tokens) prompt completion (
              status_for (budget.used_total_tokens + (prompt + completion))
                budget.total_budget_tokens))
            db.budgets;
      reservations = delete_reservation reservation.reservation_id db.reservations;
    }

unfoldable pub finish :
    PlanningReservation → Option TokenUsage → PlanningDatabase → Outcome (Unit {0})
finish reservation usage = begin (λ db.
    elim (find_reservation reservation.reservation_id db.reservations) [
      | none ↦ (db, ok tt)
      | some row ↦ elim (find_budget reservation.launch_id db.budgets) [
        | none ↦ (db, err no_result)
        | some budget ↦ (finish_row reservation usage db row budget, ok tt)
      ]
    ])

abbrev pub settle : PlanningReservation → TokenUsage → PlanningDatabase → Outcome (Unit {0})
settle reservation usage = finish reservation (some usage)

abbrev pub cancel : PlanningReservation → PlanningDatabase → Outcome (Unit {0})
cancel reservation = finish reservation none
