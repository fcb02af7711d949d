-- ===== src/Tests/RunBudgets.antt =====
-- backend/app/persistence/token_budget.py: a run of 100 tokens with one call.
use muti_agent.Prelude.{ℕ, ◌+◌, ◌≤◌, ◌<◌, ◌≡◌, ◌⊎◌, refl, arith, none, some, [], ◌∷◌}
use muti_agent.Result.{ok, err}
use muti_agent.Budget.{TokenUsage, status_for, actual_usage, exhausted}
use muti_agent.Budget.Planning.Tables.{outstanding}
use muti_agent.Budget.Runs.Shares.{
  planner, developer, normal, ShareTables, calibrated_input_estimate, next_input_prediction,
  stage_for, record_soft_share_reservation, reserve_hierarchy, settle_hierarchy, record_stage_usage,
}
use muti_agent.Budget.Runs.{
  find_row, RunBudgetRow, TokenBudgetReservation, BudgetDatabase, initialize, reserve, finish,
  record_usage, set_budget, write_reservation, returned, run_exhausted,
}
use muti_agent.Budget.Runs.Holds.{holds_of, IsRunAccount}
use muti_agent.Budget.Runs.Admission.{asked, required, answer, IsStored, reserve_admits_iff}
use muti_agent.Budget.Runs.Session.{
  RunSession, started, initialized, reserved, recorded_usage, RunSession-IsRunAccount,
}

ledger : Unit {0}
unfolding initialize reserve finish record_usage status_for actual_usage outstanding
    calibrated_input_estimate next_input_prediction record_stage_usage stage_for reserve_hierarchy
    record_soft_share_reservation settle_hierarchy
ledger = tt

abbrev no_shares : ShareTables
no_shares = record {
  stages = λ run stage. none;
  packages = λ run task. none;
  observations = λ run task role. none;
}

abbrev no_runs : BudgetDatabase
no_runs = record {
  budgets = λ run. none;
  reservations = [];
  shares = no_shares;
  role_usage = λ run role. none;
}

abbrev planned : TokenUsage
planned = record { prompt_tokens = 10; completion_tokens = 10; total_tokens = 20 }

abbrev run_row : ℕ → ℕ → ℕ → RunBudgetRow
run_row prompt completion held = record {
  total_budget_tokens = 100;
  used_prompt_tokens = prompt;
  used_completion_tokens = completion;
  used_total_tokens = prompt + completion;
  reserved_tokens = held;
  status = status_for (prompt + completion + held) 100;
}

initial : BudgetDatabase
initial = (initialize 100 3 none no_runs).0

-- With the usage of the planner.
planned_run : BudgetDatabase
unfolding initial
planned_run = (record_usage 3 planner planned initial).0

-- With a call of 60 tokens.
waiting_run : BudgetDatabase
unfolding planned_run
waiting_run = (reserve (λ n. n) 100 5 3 "a" developer 40 20 normal planned_run).0

abbrev first_reservation : TokenBudgetReservation
first_reservation = record {
  reservation_id = 5;
  run_id = 3;
  role = developer;
  reserved_input_tokens = 40;
  reserved_output_tokens = 20;
}

planned-RunSession : RunSession (λ n. n) 100 planned_run []
unfolding ledger initial planned_run
planned-RunSession =
    recorded_usage (initialized (started no_shares) 3 none) 3 planner planned (run_row 0 0 0) refl
      (omega arith)

waiting-RunSession : RunSession (λ n. n) 100 waiting_run (first_reservation ∷ [])
unfolding ledger initial planned_run waiting_run
waiting-RunSession = reserved planned-RunSession 5 3 "a" developer 40 20 normal refl

budget-waiting_run : waiting_run.budgets 3 ≡ some (run_row 10 10 60)
unfolding ledger initial planned_run waiting_run
budget-waiting_run = refl

RunSession-IsRunAccount_example :
    IsRunAccount (run_row 10 10 60) (outstanding 3 (holds_of waiting_run.reservations))
RunSession-IsRunAccount_example =
    RunSession-IsRunAccount (λ n. n) 100 waiting_run (first_reservation ∷ []) waiting-RunSession 3
      (run_row 10 10 60) budget-waiting_run

find_row-waiting_run : find_row 6 waiting_run.reservations ≡ none
unfolding ledger initial planned_run waiting_run
find_row-waiting_run = refl

reserve_admits_iff_example :
    ((20 + 60 + required (λ n. n) 100 6 3 "a" planner 10 20 normal waiting_run ≤ 100)
      × (answer (λ n. n) 100 6 3 "a" planner 10 20 normal waiting_run ≡ (
        write_reservation
            (asked (λ n. n) 100 6 3 "a" planner 10 20 normal waiting_run)
            normal
            (run_row 10 10 60)
            waiting_run,
        ok (returned (asked (λ n. n) 100 6 3 "a" planner 10 20 normal waiting_run)),
      ))
      × IsStored
          (λ n. n)
          100
          6
          3
          "a"
          planner
          10
          20
          normal
          waiting_run
          (run_row 10 10 60)
          (answer (λ n. n) 100 6 3 "a" planner 10 20 normal waiting_run).0)
    ⊎ ((100 < 20 + 60 + required (λ n. n) 100 6 3 "a" planner 10 20 normal waiting_run)
        × (answer (λ n. n) 100 6 3 "a" planner 10 20 normal waiting_run ≡ (
          set_budget 3 (record (run_row 10 10 60) { status = exhausted }) waiting_run,
          err run_exhausted,
        )))
reserve_admits_iff_example =
    reserve_admits_iff (λ n. n) 100 6 3 "a" planner 10 20 normal waiting_run (run_row 10 10 60)
      budget-waiting_run find_row-waiting_run (omega arith)
