-- ===== src/Budget/Runs/Tables.antt =====
-- backend/app/persistence/token_budget.py: the rows that it reads and writes, which
-- backend/alembic/versions/0011_run_token_budgets.py creates.
use muti_agent.Prelude.{
  ℕ, String, String_eq, ◌==◌, Nat_eq, not, Option, none, some, List, [], ◌∷◌, select, if◌then◌else◌,
}
use muti_agent.Result.{Result}
use muti_agent.Lease.{Uuid}
use muti_agent.Budget.{RunTokenBudgetStatus, normal}
use muti_agent.Budget.Runs.Shares.{AgentRole, ShareTables}

pub record RunBudgetRow : Type 0 where
  pub total_budget_tokens : ℕ
  pub used_prompt_tokens : ℕ
  pub used_completion_tokens : ℕ
  pub used_total_tokens : ℕ
  pub reserved_tokens : ℕ
  pub status : RunTokenBudgetStatus

pub record RunReservationRow : Type 0 where
  pub reservation_id : Uuid
  pub run_id : Uuid
  pub task_id : String
  pub role : AgentRole
  pub reserved_input_tokens : ℕ
  pub reserved_output_tokens : ℕ

pub record TokenBudgetReservation : Type 0 where
  pub reservation_id : Uuid
  pub run_id : Uuid
  pub role : AgentRole
  pub reserved_input_tokens : ℕ
  pub reserved_output_tokens : ℕ

pub record RoleUsageRow : Type 0 where
  pub prompt_tokens : ℕ
  pub completion_tokens : ℕ
  pub total_tokens : ℕ
  pub call_count : ℕ

pub record BudgetDatabase : Type 0 where
  pub budgets : Uuid → Option RunBudgetRow
  pub reservations : List RunReservationRow
  pub shares : ShareTables
  pub role_usage : Uuid → AgentRole → Option RoleUsageRow

pub data BudgetError : Type 0 where
  bad_values no_result run_exhausted integrity_error : BudgetError

abbrev pub Outcome : Type 0 → Type 0
Outcome A = BudgetDatabase × Result BudgetError A

abbrev pub new_budget : ℕ → RunBudgetRow
new_budget total = record {
  total_budget_tokens = total;
  used_prompt_tokens = 0;
  used_completion_tokens = 0;
  used_total_tokens = 0;
  reserved_tokens = 0;
  status = normal;
}

abbrev pub set_budget : Uuid → RunBudgetRow → BudgetDatabase → BudgetDatabase
set_budget run row db = record db { budgets = λ r. if r == run then some row else db.budgets r }

-- `INSERT ... ON CONFLICT (run_id) DO NOTHING`
abbrev pub insert_budget : Uuid → ℕ → BudgetDatabase → BudgetDatabase
insert_budget run total db = elim (db.budgets run) [
  | none ↦ set_budget run (new_budget total) db
  | some row ↦ db
]

abbrev pub find_row : Uuid → List RunReservationRow → Option RunReservationRow
find_row id [] = none
find_row id (row ∷ rows) = if row.reservation_id == id then some row else find_row id rows

abbrev pub delete_row : Uuid → List RunReservationRow → List RunReservationRow
delete_row id rows = select (λ row. not (row.reservation_id == id)) rows

-- `UPDATE run_token_budgets SET status = ... WHERE run_id = ...`
abbrev pub update_status : Uuid → RunTokenBudgetStatus → BudgetDatabase → BudgetDatabase
update_status run status db = elim (db.budgets run) [
  | none ↦ db
  | some row ↦ set_budget run (record row { status = status }) db
]

abbrev pub returned : RunReservationRow → TokenBudgetReservation
returned row = record {
  reservation_id = row.reservation_id;
  run_id = row.run_id;
  role = row.role;
  reserved_input_tokens = row.reserved_input_tokens;
  reserved_output_tokens = row.reserved_output_tokens;
}
