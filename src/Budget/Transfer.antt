-- ===== src/Budget/Transfer.antt =====
-- _transfer_planner_usage of backend/app/api/autonomous.py, where both budget stores are there: the
-- usage of a planner goes from the budget of the launch to that of the run, in a transaction each.
use muti_agent.Prelude.{
  sym, suc, ◌+◌, ◌==◌, Nat_eq, nat_eq_iff, true, false, none, some, ◌≡◌, refl, arith, Bool-cases,
  inl, inr,
}
use muti_agent.Result.{Result, ok, err}
use muti_agent.Lease.{Uuid}
use muti_agent.Budget.{TokenUsage}
use muti_agent.Budget.Planning.{PlanningRow, PlanningDatabase, PlanningError, find_budget}
use muti_agent.Budget.Planning.Links.{link_to_run, no_usage, row_usage}
use muti_agent.Budget.Planning.Promises.{link_to_run-once}
use muti_agent.Budget.Runs.Shares.{planner}
use muti_agent.Budget.Runs.{
  RunBudgetRow, BudgetDatabase, BudgetError, with_usage, recorded, record_usage,
}

pub record BudgetStores : Type 0 where
  pub launches : PlanningDatabase
  pub runs : BudgetDatabase

pub data TransferError : Type 0 where
  planning_error : PlanningError → TransferError
  budget_error : BudgetError → TransferError

-- The call of record_usage, and the stores behind it.
abbrev pub recorded_result :
    PlanningDatabase
    → BudgetDatabase × Result BudgetError (Unit {0})
    → BudgetStores × Result TransferError (Unit {0})
recorded_result launches (runs, ok u) = (record { launches = launches; runs = runs }, ok tt)
recorded_result launches (runs, err e) =
    (record { launches = launches; runs = runs }, err (budget_error e))

abbrev pub transfer_usage :
    Uuid
    → BudgetDatabase
    → PlanningDatabase × Result PlanningError TokenUsage
    → BudgetStores × Result TransferError (Unit {0})
transfer_usage run runs (launches, err e) =
    (record { launches = launches; runs = runs }, err (planning_error e))
transfer_usage run runs (launches, ok usage) = elim (usage.total_tokens == 0) [
  | true ↦ (record { launches = launches; runs = runs }, ok tt)
  | false ↦ recorded_result launches (record_usage run planner usage runs)
]

unfoldable pub transfer_planner_usage :
    Uuid → Uuid → BudgetStores → BudgetStores × Result TransferError (Unit {0})
transfer_planner_usage launch run stores =
    transfer_usage run stores.runs (link_to_run launch run stores.launches)

module _ (launch run : Uuid) where
  -- A launch that is linked already transfers nothing.
  again-eq :
      (launches : PlanningDatabase) (runs : BudgetDatabase)
      → link_to_run launch run launches ≡ (launches, ok no_usage)
      → transfer_planner_usage launch run (record { launches = launches; runs = runs })
        ≡ (record { launches = launches; runs = runs }, ok tt)
  unfolding transfer_planner_usage
  again-eq launches runs e = rw e refl

  transfer_nothing :
      (launches next : PlanningDatabase) (runs : BudgetDatabase) (usage : TokenUsage)
      → link_to_run launch run launches ≡ (next, ok usage)
      → usage.total_tokens ≡ 0
      → transfer_planner_usage launch run (record { launches = launches; runs = runs })
        ≡ (record { launches = next; runs = runs }, ok tt)
  unfolding transfer_planner_usage
  transfer_nothing launches next runs usage e zero = rw e (ground arith)

  transfer_some :
      (launches next : PlanningDatabase) (runs : BudgetDatabase) (usage : TokenUsage)
      → link_to_run launch run launches ≡ (next, ok usage)
      → (usage.total_tokens == 0) ≡ false
      → usage.total_tokens ≡ usage.prompt_tokens + usage.completion_tokens
      → transfer_planner_usage launch run (record { launches = launches; runs = runs })
        ≡ (record { launches = next; runs = recorded run planner usage runs }, ok tt)
  unfolding transfer_planner_usage record_usage
  transfer_some launches next runs usage e paid shape = rw e (ground arith)

  recorded-row :
      (runs : BudgetDatabase) (usage : TokenUsage) (old : RunBudgetRow)
      → runs.budgets run ≡ some old
      → (recorded run planner usage runs).budgets run ≡ some (with_usage usage old)
  recorded-row runs usage old found = ground arith

-- The row of a run after a usage.
abbrev pub IsCharged : TokenUsage → RunBudgetRow → RunBudgetRow → Type 0
IsCharged usage old new =
    (new.used_total_tokens ≡ old.used_total_tokens + usage.total_tokens)
    × (new.reserved_tokens ≡ old.reserved_tokens)
    × (new.total_budget_tokens ≡ old.total_budget_tokens)

transfer_planner_usage-IsCharged :
    (launch run : Uuid) (launches next : PlanningDatabase) (runs : BudgetDatabase)
    (usage : TokenUsage) (old : RunBudgetRow)
    → link_to_run launch run launches ≡ (next, ok usage)
    → usage.total_tokens ≡ usage.prompt_tokens + usage.completion_tokens
    → runs.budgets run ≡ some old
    → (charged : BudgetDatabase) × (new : RunBudgetRow) × (transfer_planner_usage launch run
          (record { launches = launches; runs = runs })
        ≡ (record { launches = next; runs = charged }, ok tt))
      × (charged.budgets run ≡ some new)
      × IsCharged usage old new
transfer_planner_usage-IsCharged launch run launches next runs usage old e shape found =
    elim (Bool-cases (usage.total_tokens == 0)) [
      | inl nothing ↦
          let zero : usage.total_tokens ≡ 0 = ground (arith, nat_eq_iff usage.total_tokens 0) in
          (
            runs,
            old,
            transfer_nothing launch run launches next runs usage e zero,
            found,
            (omega (arith, zero), refl, refl),
          )
      | inr paid ↦ (
        recorded run planner usage runs,
        with_usage usage old,
        transfer_some launch run launches next runs usage e paid shape,
        recorded-row launch run runs usage old found,
        (refl, refl, refl),
      )
    ]

-- For a launch without a run whose used tokens are prompt and completion tokens together, and
-- whose link_to_run returns, with a budget of the run: the transfer returns and adds the used
-- tokens of the launch to those of the run, whose reserved and total tokens stay; and once
-- link_to_run has committed, a further transfer returns and changes nothing, whatever the
-- budgets of runs then are.
pub transfer_planner_usage-once :
    (launch run : Uuid) (launches next : PlanningDatabase) (runs : BudgetDatabase)
    (usage : TokenUsage) (row : PlanningRow) (old : RunBudgetRow)
    → find_budget launch launches.budgets ≡ some row
    → row.run_id ≡ none
    → row.used_total_tokens ≡ row.used_prompt_tokens + row.used_completion_tokens
    → link_to_run launch run launches ≡ (next, ok usage)
    → runs.budgets run ≡ some old
    → ((charged : BudgetDatabase) × (new : RunBudgetRow) × (transfer_planner_usage launch run
            (record { launches = launches; runs = runs })
          ≡ (record { launches = next; runs = charged }, ok tt))
        × (charged.budgets run ≡ some new)
        × IsCharged (row_usage row) old new)
      × ((later : BudgetDatabase)
          → transfer_planner_usage launch run (record { launches = next; runs = later })
            ≡ (record { launches = next; runs = later }, ok tt))
transfer_planner_usage-once launch run launches next runs usage row old known free shape e found =
    let (paid, again, other) =
      link_to_run-once launch run (suc run) launches next usage row known free e (ground arith) in
    (
      transfer_planner_usage-IsCharged launch run launches next runs (row_usage row) old
          (rw (sym paid) e) shape found,
      λ later. again-eq launch run next later again,
    )
