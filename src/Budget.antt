-- ===== src/Budget.antt =====
-- backend/app/models/token_budget.py, TokenUsage of backend/app/models/agent.py, and the rules on
-- tokens that backend/app/persistence/planning_budget.py and backend/app/persistence/token_budget.py
-- share. A count of tokens is a natural number, so a test that it is below zero never fires.
pub mod Planning
pub mod Runs
pub mod Transfer
use muti_agent.Prelude.{
  ℕ, ◌+◌, ◌*◌, ◌≤◌, ◌<◌, ◌==◌, Nat_eq, Bool, true, false, not, ◌&&◌, ◌||◌, Option, none, some,
  if◌then◌else◌, leb, ltb, ◌≡◌, ◌↔◌, arith,
}

pub data RunTokenBudgetStatus : Type 0 where
  normal warning critical exhausted : RunTokenBudgetStatus

pub record TokenUsage : Type 0 where
  pub prompt_tokens : ℕ
  pub completion_tokens : ℕ
  pub total_tokens : ℕ

unfoldable pub status_for : ℕ → ℕ → RunTokenBudgetStatus
status_for consumed total =
    if leb total consumed
    then exhausted
    else if leb (total * 90) (consumed * 100)
    then critical
    else if leb (total * 70) (consumed * 100)
    then warning
    else normal

-- The prompt and completion tokens that a settled call is charged.
unfoldable pub actual_usage : Option TokenUsage → ℕ → ℕ → ℕ × ℕ
actual_usage none reserved_input reserved_output = (0, 0)
actual_usage (some usage) reserved_input reserved_output =
    if usage.total_tokens == 0 && usage.prompt_tokens == 0 && usage.completion_tokens == 0
    then (reserved_input, reserved_output)
    else (usage.prompt_tokens, usage.completion_tokens)
