-- ===== src/Budget/Runs/Shares.antt =====
-- backend/app/persistence/token_budget.py: the shares of stages and work packages, which are kept
-- for reports and admit nothing. A row of run_task_token_budgets has a half for the developer and
-- one for the repair agent; the texts of decisions are left out.
use muti_agent.Prelude.{
  ℕ, ◌+◌, ◌-◌, String, String_eq, ◌==◌, Nat_eq, Bool, true, false, ◌&&◌, ◌||◌, Option, none, some,
  if◌then◌else◌, ltb, leb,
}
use muti_agent.Lease.{Uuid}

-- backend/app/models/agent.py
pub data AgentRole : Type 0 where
  planner developer reviewer repair : AgentRole

pub data LivenessCredit : Type 0 where
  normal initial_startup tool_recovery verified_progress checkpoint_resume : LivenessCredit

pub data TokenBudgetStage : Type 0 where
  planning development verification_repair review_publication flex : TokenBudgetStage

abbrev pub same_role : AgentRole → AgentRole → Bool
same_role planner planner = true
same_role developer developer = true
same_role reviewer reviewer = true
same_role repair repair = true
same_role _ _ = false

abbrev pub same_stage : TokenBudgetStage → TokenBudgetStage → Bool
same_stage planning planning = true
same_stage development development = true
same_stage verification_repair verification_repair = true
same_stage review_publication review_publication = true
same_stage flex flex = true
same_stage _ _ = false

pub record StageTokenBudget : Type 0 where
  pub total_budget_tokens : ℕ
  pub used_tokens : ℕ
  pub reserved_tokens : ℕ

-- The columns with the prefix of one role.
pub record PackageShare : Type 0 where
  pub budget_tokens : ℕ
  pub used_tokens : ℕ
  pub reserved_tokens : ℕ
  pub observed_prompt_tokens : ℕ

pub record WorkPackageTokenBudget : Type 0 where
  pub developer_share : PackageShare
  pub repair_share : PackageShare
  pub tool_recovery_credit_used : Bool
  pub last_liveness_credit : LivenessCredit
  pub last_required_tokens : ℕ
  pub last_available_tokens : ℕ
  pub last_borrowed_tokens : ℕ
  pub soft_share_exceeded : Bool

-- The last row of run_task_cost_observations of a task and role.
pub record CostObservation : Type 0 where
  pub actual_prompt_tokens : ℕ
  pub tool_argument_tokens : ℕ
  pub tool_result_tokens : ℕ
  pub write_patch_argument_tokens : ℕ
  pub context_growth_tokens : ℕ
  pub compacted_tool_argument_tokens : ℕ

pub record ShareTables : Type 0 where
  pub stages : Uuid → TokenBudgetStage → Option StageTokenBudget
  pub packages : Uuid → String → Option WorkPackageTokenBudget
  pub observations : Uuid → String → AgentRole → Option CostObservation

unfoldable pub stage_for : AgentRole → TokenBudgetStage
stage_for planner = planning
stage_for repair = verification_repair
stage_for reviewer = review_publication
stage_for developer = development

abbrev pub max : ℕ → ℕ → ℕ
max a b = if leb a b then b else a

-- `{prefix}_...` of a package, for the two roles that have one.
abbrev pub share_of : AgentRole → WorkPackageTokenBudget → PackageShare
share_of developer p = p.developer_share
share_of _ p = p.repair_share

abbrev pub with_share : AgentRole → PackageShare → WorkPackageTokenBudget → WorkPackageTokenBudget
with_share developer share p = record p { developer_share = share }
with_share _ share p = record p { repair_share = share }

abbrev pub has_share : AgentRole → Bool
has_share developer = true
has_share repair = true
has_share _ = false

unfoldable pub next_input_prediction : (ℕ → ℕ) → ℕ → ℕ → ℕ → ℕ → ℕ → ℕ → ℕ
next_input_prediction scaled estimate observed growth arguments results write_patch =
    max (max estimate (scaled observed)) (
      max (observed + scaled (max growth (arguments + results)))
        (observed + scaled (write_patch + results)))

abbrev pub observed_prompt : AgentRole → Option WorkPackageTokenBudget → ℕ
observed_prompt role none = 0
observed_prompt role (some p) = (share_of role p).observed_prompt_tokens

abbrev pub predicted : (ℕ → ℕ) → ℕ → ℕ → Option CostObservation → ℕ
predicted scaled estimate observed none = max estimate (scaled observed)
predicted scaled estimate observed (some o) =
    next_input_prediction scaled estimate (max observed o.actual_prompt_tokens)
      o.context_growth_tokens (o.tool_argument_tokens - o.compacted_tool_argument_tokens)
      o.tool_result_tokens (o.write_patch_argument_tokens - o.compacted_tool_argument_tokens)

unfoldable pub calibrated_input_estimate : (ℕ → ℕ) → Uuid → String → AgentRole → ℕ → ShareTables → ℕ
calibrated_input_estimate scaled run task role estimate s =
    if has_share role
    then predicted scaled estimate (observed_prompt role (s.packages run task))
        (s.observations run task role)
    else estimate

-- `UPDATE run_stage_token_budgets SET ... WHERE run_id = ... AND stage = ...`
abbrev pub update_stage :
    Uuid → TokenBudgetStage → (StageTokenBudget → StageTokenBudget) → ShareTables → ShareTables
update_stage run stage change s = record s {
  stages = λ r t.
      if r == run && same_stage t stage
      then elim (s.stages r t) [ none ↦ none | some row ↦ some (change row) ]
      else s.stages r t;
}

abbrev pub update_package :
    Uuid → String → (WorkPackageTokenBudget → WorkPackageTokenBudget) → ShareTables → ShareTables
update_package run task change s = record s {
  packages = λ r t.
      if r == run && t == task
      then elim (s.packages r t) [ none ↦ none | some row ↦ some (change row) ]
      else s.packages r t;
}

abbrev pub is_tool_recovery : LivenessCredit → Bool
is_tool_recovery tool_recovery = true
is_tool_recovery _ = false

abbrev pub with_reservation :
    AgentRole → ℕ → LivenessCredit → WorkPackageTokenBudget → WorkPackageTokenBudget
with_reservation role required credit p =
    let share = share_of role p in
    let available = share.budget_tokens - share.used_tokens - share.reserved_tokens in
    record (with_share role (record share { reserved_tokens = share.reserved_tokens + required })
      p) {
        tool_recovery_credit_used = p.tool_recovery_credit_used || is_tool_recovery credit;
        last_liveness_credit = credit;
        last_required_tokens = required;
        last_available_tokens = available;
        last_borrowed_tokens = 0;
        soft_share_exceeded = ltb available required;
      }

unfoldable pub record_soft_share_reservation :
    Uuid → String → AgentRole → ℕ → LivenessCredit → ShareTables → ShareTables
record_soft_share_reservation run task role required credit =
    update_package run task (with_reservation role required credit)

-- The statements that _reserve_hierarchy reaches.
unfoldable pub reserve_hierarchy :
    Uuid → String → AgentRole → ℕ → LivenessCredit → ShareTables → ShareTables
reserve_hierarchy run task role required credit s =
    let shared =
      if has_share role then record_soft_share_reservation run task role required credit s else s in
    update_stage run (stage_for role)
      (λ row. record row { reserved_tokens = row.reserved_tokens + required }) shared

unfoldable pub settle_hierarchy : Uuid → String → AgentRole → ℕ → ℕ → ℕ → ShareTables → ShareTables
settle_hierarchy run task role reserved used prompt s =
    let staged =
      update_stage run (stage_for role)
        (λ row. record row {
          reserved_tokens = row.reserved_tokens - reserved;
          used_tokens = row.used_tokens + used;
        })
        s in
    if has_share role
    then update_package run task
        (λ p.
          let share = share_of role p in
          with_share role
            (record share {
              reserved_tokens = share.reserved_tokens - reserved;
              used_tokens = share.used_tokens + used;
              observed_prompt_tokens = max share.observed_prompt_tokens prompt;
            })
            p)
        staged
    else staged

unfoldable pub record_stage_usage : Uuid → AgentRole → ℕ → ShareTables → ShareTables
record_stage_usage run role total =
    update_stage run (stage_for role) (λ row. record row { used_tokens = row.used_tokens + total })
