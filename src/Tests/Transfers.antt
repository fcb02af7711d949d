-- ===== src/Tests/Transfers.antt =====
-- _transfer_planner_usage of backend/app/api/autonomous.py: a launch that used 50 tokens, and a run.
use muti_agent.Prelude.{◌≡◌, false, refl, some, none, [], ◌∷◌}
use muti_agent.Result.{ok}
use muti_agent.Budget.{normal}
use muti_agent.Budget.Planning.{PlanningRow, PlanningDatabase}
use muti_agent.Budget.Planning.Links.{link_to_run, row_usage}
use muti_agent.Budget.Runs.{RunBudgetRow, BudgetDatabase}
use muti_agent.Budget.Transfer.{IsCharged, transfer_planner_usage, transfer_planner_usage-once}

abbrev launch_row : PlanningRow
launch_row = record {
  launch_id = 7;
  project_id = 1;
  run_id = none;
  total_budget_tokens = 100;
  used_prompt_tokens = 40;
  used_completion_tokens = 10;
  used_total_tokens = 50;
  reserved_tokens = 0;
  attempt_count = 1;
  max_attempts = 2;
  enable_thinking = false;
  status = normal;
}

abbrev launches : PlanningDatabase
launches = record { budgets = launch_row ∷ []; reservations = [] }

abbrev linked_launches : PlanningDatabase
linked_launches = record {
  budgets = (record launch_row { run_id = some 3 }) ∷ [];
  reservations = [];
}

abbrev run_row : RunBudgetRow
run_row = record {
  total_budget_tokens = 1000;
  used_prompt_tokens = 0;
  used_completion_tokens = 0;
  used_total_tokens = 0;
  reserved_tokens = 0;
  status = normal;
}

abbrev runs : BudgetDatabase
runs = record {
  budgets = λ run. some run_row;
  reservations = [];
  shares = record {
    stages = λ run stage. none;
    packages = λ run task. none;
    observations = λ run task role. none;
  };
  role_usage = λ run role. none;
}

link_to_run-launches : link_to_run 7 3 launches ≡ (linked_launches, ok (row_usage launch_row))
unfolding link_to_run
link_to_run-launches = refl

transfer_planner_usage-once_example :
    ((charged : BudgetDatabase) × (new : RunBudgetRow) × (transfer_planner_usage 7 3
          (record { launches = launches; runs = runs })
        ≡ (record { launches = linked_launches; runs = charged }, ok tt))
      × (charged.budgets 3 ≡ some new)
      × IsCharged (row_usage launch_row) run_row new)
    × ((later : BudgetDatabase)
        → transfer_planner_usage 7 3 (record { launches = linked_launches; runs = later })
          ≡ (record { launches = linked_launches; runs = later }, ok tt))
transfer_planner_usage-once_example =
    transfer_planner_usage-once 7 3 launches linked_launches runs (row_usage launch_row) launch_row
      run_row refl refl refl link_to_run-launches refl
