-- ===== src/Budget/Planning/Links.antt =====
-- backend/app/persistence/planning_budget.py: the views of a launch and its link to a run. The
-- validator of PlanningTokenBudget is that of backend/app/models/token_budget.py.
use muti_agent.Prelude.{
  ℕ, ◌+◌, ◌==◌, Nat_eq, Bool, not, Option, none, some, List, [], ◌∷◌, ◌||◌, if◌then◌else◌,
}
use muti_agent.Result.{Result, ok, err, raise_if, ◌>>=◌, ◌>>◌}
use muti_agent.Transaction.{begin}
use muti_agent.Lease.{Uuid, is_none, holds}
use muti_agent.Budget.{RunTokenBudgetStatus, TokenUsage}
use muti_agent.Budget.Planning.{
  PlanningRow, PlanningDatabase, PlanningError, no_result, integrity_error, invalid_budget,
  linked_elsewhere, Outcome, find_budget, update_budget,
}

pub record PlanningTokenBudget : Type 0 where
  pub launch_id : Uuid
  pub total_budget_tokens : ℕ
  pub used_prompt_tokens : ℕ
  pub used_completion_tokens : ℕ
  pub used_total_tokens : ℕ
  pub reserved_tokens : ℕ
  pub attempt_count : ℕ
  pub max_attempts : ℕ
  pub enable_thinking : Bool
  pub status : RunTokenBudgetStatus

unfoldable pub validate_usage : PlanningTokenBudget → Result PlanningError PlanningTokenBudget
validate_usage budget = do
  raise_if (budget.total_budget_tokens == 0 || budget.max_attempts == 0) invalid_budget
  raise_if
      (not (budget.used_total_tokens == budget.used_prompt_tokens + budget.used_completion_tokens))
      invalid_budget
  ok budget

abbrev pub shown : Uuid → PlanningRow → PlanningTokenBudget
shown launch row = record {
  launch_id = launch;
  total_budget_tokens = row.total_budget_tokens;
  used_prompt_tokens = row.used_prompt_tokens;
  used_completion_tokens = row.used_completion_tokens;
  used_total_tokens = row.used_total_tokens;
  reserved_tokens = row.reserved_tokens;
  attempt_count = row.attempt_count;
  max_attempts = row.max_attempts;
  enable_thinking = row.enable_thinking;
  status = row.status;
}

unfoldable pub snapshot : Uuid → PlanningDatabase → Result PlanningError PlanningTokenBudget
snapshot launch db = elim (find_budget launch db.budgets) [
  | none ↦ err no_result
  | some row ↦ validate_usage (shown launch row)
]

-- `SELECT launch_id ... WHERE run_id = :run_id`
abbrev pub find_launch : Uuid → List PlanningRow → Option Uuid
find_launch run [] = none
find_launch run (row ∷ rows) =
    if holds row.run_id run then some row.launch_id else find_launch run rows

unfoldable pub snapshot_for_run :
    Uuid → PlanningDatabase → Result PlanningError (Option PlanningTokenBudget)
snapshot_for_run run db = elim (find_launch run db.budgets) [
  | none ↦ ok none
  | some launch ↦ do budget ← snapshot launch db; ok (some budget)
]

abbrev pub no_usage : TokenUsage
no_usage = record { prompt_tokens = 0; completion_tokens = 0; total_tokens = 0 }

abbrev pub row_usage : PlanningRow → TokenUsage
row_usage row = record {
  prompt_tokens = row.used_prompt_tokens;
  completion_tokens = row.used_completion_tokens;
  total_tokens = row.used_total_tokens;
}

-- The statements of link_to_run on the row of the launch. A run has at most one launch.
abbrev pub link_row :
    Uuid → Uuid → PlanningDatabase → PlanningRow → Option Uuid → Outcome TokenUsage
link_row launch run db row (some existing) =
    (db, if existing == run then ok no_usage else err linked_elsewhere)
link_row launch run db row none =
    if is_none (find_launch run db.budgets)
    then (
      record db {
        budgets = update_budget launch (λ old. record old { run_id = some run }) db.budgets;
      },
      ok (row_usage row),
    )
    else (db, err integrity_error)

unfoldable pub link_to_run : Uuid → Uuid → PlanningDatabase → Outcome TokenUsage
link_to_run launch run = begin (λ db. elim (find_budget launch db.budgets) [
  | none ↦ (db, err no_result)
  | some row ↦ link_row launch run db row row.run_id
])
