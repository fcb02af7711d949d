-- ===== src/Budget/Runs/Admission.antt =====
-- backend/app/persistence/token_budget.py: which calls reserve admits, and what a refusal leaves.
use muti_agent.Prelude.{
  refl, ◌∷◌, ℕ, ◌+◌, String, Nat_eq, nat_eq_iff, none, some, ◌≡◌, ◌≤◌, ◌<◌, ◌⊎◌, arith, Bool-cases,
  Option-cases, inl, inr, ltb,
}
use muti_agent.Result.{Result, ok, err}
use muti_agent.Lease.{Uuid}
use muti_agent.Budget.{status_for, exhausted}
use muti_agent.Budget.Runs.Shares.{AgentRole, LivenessCredit, calibrated_input_estimate}
use muti_agent.Budget.Runs.{
  set_budget, RunBudgetRow, RunReservationRow, TokenBudgetReservation, BudgetDatabase, BudgetError,
  bad_values, run_exhausted, integrity_error, insert_budget, find_row, update_status,
  write_reservation, returned, reserve, new_budget,
}

module _ (scaled : ℕ → ℕ) (default : ℕ) (id run : Uuid) (task : String) (role : AgentRole)
    (input output : ℕ) (credit : LivenessCredit) (db : BudgetDatabase) where
  abbrev pub asked : RunReservationRow
  asked = record {
    reservation_id = id;
    run_id = run;
    task_id = task;
    role = role;
    reserved_input_tokens = calibrated_input_estimate scaled run task role input db.shares;
    reserved_output_tokens = output;
  }

  abbrev pub required : ℕ
  required = calibrated_input_estimate scaled run task role input db.shares + output

  abbrev pub Admitted : RunBudgetRow → Type 0
  Admitted row =
      (1 ≤ output)
      × ((insert_budget run default db).budgets run ≡ some row)
      × (row.used_total_tokens + row.reserved_tokens + required ≤ row.total_budget_tokens)
      × (find_row id db.reservations ≡ none)
      × (reserve scaled default id run task role input output credit db ≡ (
        write_reservation asked credit row (insert_budget run default db),
        ok (returned asked),
      ))

  abbrev pub answer : BudgetDatabase × Result BudgetError TokenBudgetReservation
  answer = reserve scaled default id run task role input output credit db

  inserted : (row : RunBudgetRow) × ((insert_budget run default db).budgets run ≡ some row)
  inserted = elim (Option-cases (db.budgets run)) [
    | inl missing ↦ (new_budget default, ground (arith, nat_eq_iff run run))
    | inr (row, found) ↦ (row, ground arith)
  ]

  pub reserve-cases :
      ((row : RunBudgetRow) × Admitted row)
      ⊎ ((e : BudgetError) × (answer ≡ (db, err e)))
      ⊎ (answer ≡ (update_status run exhausted db, err run_exhausted))
  unfolding reserve
  reserve-cases = elim (Bool-cases (ltb output 1)) [
    | inl bad ↦ inr (inl (bad_values, ground arith))
    | inr some_output ↦
        let (row, found) = inserted in
        elim (Bool-cases
          (ltb row.total_budget_tokens (row.used_total_tokens + row.reserved_tokens + required))) [
            | inl spent ↦ inr (inr (ground (arith, found)))
            | inr enough ↦ elim (Option-cases (find_row id db.reservations)) [
              | inl fresh ↦
                  inl (row, (ground arith, found, ground arith, fresh, ground (arith, found)))
              | inr (stored, there) ↦ inr (inl (integrity_error, ground (arith, found)))
            ]
          ]
  ]

  -- The database behind an admitted call: the reservation is stored under its identifier before
  -- the others, and the run holds its tokens.
  abbrev pub IsStored : RunBudgetRow → BudgetDatabase → Type 0
  IsStored row after =
      (after.reservations ≡ asked ∷ db.reservations)
      × (find_row id after.reservations ≡ some asked)
      × ((new : RunBudgetRow) × (after.budgets run ≡ some new)
          × (new.reserved_tokens ≡ row.reserved_tokens + required)
          × (new.used_total_tokens ≡ row.used_total_tokens)
          × (new.total_budget_tokens ≡ row.total_budget_tokens))

  write_reservation-IsStored :
      (row : RunBudgetRow) → IsStored row (write_reservation asked credit row db)
  write_reservation-IsStored row = (
    refl,
    ground (arith, nat_eq_iff id id),
    (
      record row {
        reserved_tokens = row.reserved_tokens + required;
        status =
            status_for (row.used_total_tokens + row.reserved_tokens + required)
              row.total_budget_tokens;
      },
      ground (arith, nat_eq_iff run run),
      refl,
      refl,
      refl,
    ),
  )

  -- For a run with a budget, a new identifier and some output: if the calibrated input and the
  -- output fit behind the used and reserved tokens, reserve returns the reservation, stores it
  -- in front of the others, where its identifier finds it, and adds its tokens to the reserved
  -- ones of the run, whose used and total tokens stay; else it raises, and the database it
  -- leaves differs from the one before only in the status of the run, which is EXHAUSTED.
  pub reserve_admits_iff :
      (row : RunBudgetRow)
      → db.budgets run ≡ some row
      → find_row id db.reservations ≡ none
      → 1 ≤ output
      → ((row.used_total_tokens + row.reserved_tokens + required ≤ row.total_budget_tokens)
          × (answer ≡ (write_reservation asked credit row db, ok (returned asked)))
          × IsStored row answer.0)
        ⊎ ((row.total_budget_tokens < row.used_total_tokens + row.reserved_tokens + required)
            × (answer ≡ (set_budget run (record row { status = exhausted }) db, err run_exhausted)))
  unfolding reserve
  reserve_admits_iff row found fresh some_output =
      elim (Bool-cases
        (ltb row.total_budget_tokens (row.used_total_tokens + row.reserved_tokens + required))) [
          | inl spent ↦ inr (ground arith, ground (arith, found))
          | inr enough ↦
              let admitted : answer ≡ (write_reservation asked credit row db, ok (returned asked)) =
                ground (arith, found, fresh) in
              inl (ground arith, admitted, rw admitted (write_reservation-IsStored row))
        ]
