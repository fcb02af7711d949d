-- ===== src/Budget/Runs.antt =====
-- backend/app/persistence/token_budget.py: the calls of PostgresRunTokenBudgetStore that admit and
-- settle model calls. The tables run_token_budgets, run_stage_token_budgets,
-- run_task_token_budgets and run_token_role_usage are functions from their keys, the reservations a
-- list. `scaled` is the product with the safety factor, rounded up. The totals are positive, and
-- the columns are wide enough for the sums.
pub mod Tables
pub mod Shares
pub mod Holds
pub mod Admission
pub mod Accounts
pub mod Settle
pub mod Session
pub use Tables.*
use muti_agent.Prelude.{
  ℕ, suc, ◌+◌, ◌-◌, String, String_eq, ◌==◌, Nat_eq, Bool, not, ◌&&◌, ◌||◌, Option, none, some,
  List, [], ◌∷◌, select, if◌then◌else◌, leb, ltb,
}
use muti_agent.Result.{Result, ok, err}
use muti_agent.Transaction.{begin}
use muti_agent.Lease.{Uuid, is_none}
use muti_agent.Budget.{
  RunTokenBudgetStatus, normal, warning, critical, exhausted, TokenUsage, status_for, actual_usage,
}
use muti_agent.Budget.Runs.Shares.{
  AgentRole, same_role, ShareTables, LivenessCredit, calibrated_input_estimate, reserve_hierarchy,
  settle_hierarchy, record_stage_usage,
}

-- `total_budget_tokens or self._default_total_budget_tokens`
abbrev pub total_or : Option ℕ → ℕ → ℕ
total_or none default = default
total_or (some total) default = if total == 0 then default else total

unfoldable pub initialize : ℕ → Uuid → Option ℕ → BudgetDatabase → Outcome (Unit {0})
initialize default run total = begin (λ db. (insert_budget run (total_or total default) db, ok tt))

-- The statements of reserve behind its tests.
abbrev pub write_reservation :
    RunReservationRow → LivenessCredit → RunBudgetRow → BudgetDatabase → BudgetDatabase
write_reservation new credit row db =
    let required = new.reserved_input_tokens + new.reserved_output_tokens in
    record db {
      budgets = λ r.
          if r == new.run_id
          then some (record row {
            reserved_tokens = row.reserved_tokens + required;
            status =
                status_for (row.used_total_tokens + row.reserved_tokens + required)
                  row.total_budget_tokens;
          })
          else db.budgets r;
      reservations = new ∷ db.reservations;
      shares = reserve_hierarchy new.run_id new.task_id new.role required credit db.shares;
    }

abbrev pub admit :
    RunReservationRow
    → LivenessCredit
    → BudgetDatabase
    → Option RunBudgetRow
    → Outcome TokenBudgetReservation
admit new credit db none = (db, err no_result)
admit new credit db (some row) =
    if ltb row.total_budget_tokens (
      row.used_total_tokens
      + row.reserved_tokens
      + (new.reserved_input_tokens + new.reserved_output_tokens))
    then (update_status new.run_id exhausted db, err run_exhausted)
    else if is_none (find_row new.reservation_id db.reservations)
    then (write_reservation new credit row db, ok (returned new))
    else (db, err integrity_error)

-- The first transaction of reserve.
abbrev pub reserve_body :
    ℕ → RunReservationRow → LivenessCredit → BudgetDatabase → Outcome TokenBudgetReservation
reserve_body default new credit seen =
    let db = insert_budget new.run_id default seen in admit new credit db (db.budgets new.run_id)

-- `except RunBudgetExhaustedError`: the status in a transaction of its own.
abbrev pub persist_run_exhausted_status :
    Uuid → Outcome TokenBudgetReservation → Outcome TokenBudgetReservation
persist_run_exhausted_status run (db, err run_exhausted) =
    (update_status run exhausted db, err run_exhausted)
persist_run_exhausted_status run (db, answer) = (db, answer)

-- `id` is the answer of uuid4, `credit` the argument liveness_credit.
unfoldable pub reserve :
    (ℕ → ℕ)
    → ℕ
    → Uuid
    → Uuid
    → String
    → AgentRole
    → ℕ
    → ℕ
    → LivenessCredit
    → BudgetDatabase
    → Outcome TokenBudgetReservation
reserve scaled default id run task role input output credit db =
    if ltb output 1
    then (db, err bad_values)
    else let new : RunReservationRow = record {
      reservation_id = id;
      run_id = run;
      task_id = task;
      role = role;
      reserved_input_tokens = calibrated_input_estimate scaled run task role input db.shares;
      reserved_output_tokens = output;
    } in
      persist_run_exhausted_status run (begin (reserve_body default new credit) db)

abbrev pub add_usage : ℕ → ℕ → Option RoleUsageRow → RoleUsageRow
add_usage prompt completion none = record {
  prompt_tokens = prompt;
  completion_tokens = completion;
  total_tokens = prompt + completion;
  call_count = 1;
}
add_usage prompt completion (some row) = record {
  prompt_tokens = row.prompt_tokens + prompt;
  completion_tokens = row.completion_tokens + completion;
  total_tokens = row.total_tokens + (prompt + completion);
  call_count = suc row.call_count;
}

abbrev pub upsert_usage :
    Uuid
    → AgentRole
    → ℕ
    → ℕ
    → (Uuid → AgentRole → Option RoleUsageRow)
    → Uuid
    → AgentRole
    → Option RoleUsageRow
upsert_usage run role prompt completion table r s =
    if r == run && same_role s role
    then some (add_usage prompt completion (table r s))
    else table r s

abbrev pub charge : ℕ → ℕ → ℕ → RunTokenBudgetStatus → RunBudgetRow → RunBudgetRow
charge reserved prompt completion status row = record row {
  reserved_tokens = row.reserved_tokens - reserved;
  used_prompt_tokens = row.used_prompt_tokens + prompt;
  used_completion_tokens = row.used_completion_tokens + completion;
  used_total_tokens = row.used_total_tokens + (prompt + completion);
  status = status;
}

abbrev pub finish_row :
    TokenBudgetReservation
    → Option TokenUsage
    → BudgetDatabase
    → RunReservationRow
    → RunBudgetRow
    → BudgetDatabase
finish_row reservation usage db row budget =
    let reserved = row.reserved_input_tokens + row.reserved_output_tokens in
    let (prompt, completion) =
      actual_usage usage reservation.reserved_input_tokens reservation.reserved_output_tokens in
    record {
      budgets = λ r.
          if r == reservation.run_id
          then some (
              charge reserved prompt completion
                (status_for (budget.used_total_tokens + (prompt + completion))
                  budget.total_budget_tokens)
                budget)
          else db.budgets r;
      reservations = delete_row reservation.reservation_id db.reservations;
      shares =
          settle_hierarchy reservation.run_id row.task_id row.role reserved (prompt + completion)
            prompt db.shares;
      role_usage =
          if is_none usage
          then db.role_usage
          else upsert_usage reservation.run_id reservation.role prompt completion db.role_usage;
    }

-- _finish_reservation
unfoldable pub finish :
    TokenBudgetReservation → Option TokenUsage → BudgetDatabase → Outcome (Unit {0})
finish reservation usage = begin (λ db. elim (find_row reservation.reservation_id db.reservations) [
  | none ↦ (db, ok tt)
  | some row ↦ elim (db.budgets reservation.run_id) [
    | none ↦ (db, err no_result)
    | some budget ↦ (finish_row reservation usage db row budget, ok tt)
  ]
])

-- The CASE of record_usage: below the thresholds the status stays.
abbrev pub recorded_status : ℕ → RunBudgetRow → RunTokenBudgetStatus
recorded_status used row = elim (status_for used row.total_budget_tokens) [
  | normal ↦ row.status
  | warning ↦ warning
  | critical ↦ critical
  | exhausted ↦ exhausted
]

abbrev pub with_usage : TokenUsage → RunBudgetRow → RunBudgetRow
with_usage usage row = record row {
  used_prompt_tokens = row.used_prompt_tokens + usage.prompt_tokens;
  used_completion_tokens = row.used_completion_tokens + usage.completion_tokens;
  used_total_tokens = row.used_total_tokens + usage.total_tokens;
  status = recorded_status (row.used_total_tokens + usage.total_tokens) row;
}

-- The statements of record_usage.
abbrev pub recorded : Uuid → AgentRole → TokenUsage → BudgetDatabase → BudgetDatabase
recorded run role usage db = record {
  budgets = λ r.
      if r == run
      then elim (db.budgets r) [ none ↦ none | some row ↦ some (with_usage usage row) ]
      else db.budgets r;
  reservations = db.reservations;
  shares = record_stage_usage run role usage.total_tokens db.shares;
  role_usage = upsert_usage run role usage.prompt_tokens usage.completion_tokens db.role_usage;
}

-- The tables require that totals are prompt and completion tokens together.
unfoldable pub record_usage : Uuid → AgentRole → TokenUsage → BudgetDatabase → Outcome (Unit {0})
record_usage run role usage = begin (λ db.
    if usage.total_tokens == usage.prompt_tokens + usage.completion_tokens
    then (recorded run role usage db, ok tt)
    else (db, err integrity_error))
