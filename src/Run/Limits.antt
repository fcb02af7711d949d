-- ===== src/Run/Limits.antt =====
-- backend/app/runtime/orchestrator.py: what the task and the collaborators must keep to, so that no
-- validator raises out of `run`.
use muti_agent.Prelude.{
  Option, none, ℕ, ◌≤◌, ◌≡◌, refl, String, String_eq, Nat_eq, true, false, some, List, length,
  arith,
}
use muti_agent.Run.{FailureReport, VerificationResult, is_nil}
use muti_agent.Run.Failures.{IsMessage, some_blank, DeveloperRunResult}
use muti_agent.Run.Handoff.{RepairHandoff, FitsHandoff, is_commit, fits_hint}
use muti_agent.Run.Repair.{
  ContextPacket, developer_value, review_value, refuses_state, gives, raises, budget_exhausted,
  repair_value, Agents,
}

-- The repair agent that refuses for want of budget says why.
abbrev pub Explains : {W : Type 0} → Agents W → Type 0
Explains {W} agents =
    (n : ℕ) (failures : List FailureReport) (handoff : RepairHandoff) (w after : W)
    (reports : List FailureReport)
    → agents.repair n failures handoff w ≡ (after, raises (budget_exhausted reports))
    → is_nil reports ≡ false

-- Where no validator refuses what the orchestrator builds outside its `try` blocks: the handoff of
-- a repair, the state for a continuation, and the failure that carries the text of a ValueError or
-- the evidence of a developer that stopped.
pub record WithinLimits {W : Type 0} (agents : Agents W) : Type 0 where
  pub explains : Explains agents
  pub fits : FitsHandoff agents.task
  pub few_changes : (w : W) → length (agents.changed_files w) ≤ 256
  pub commit : (w : W) → is_commit (agents.head_commit w) ≡ true
  pub hinted : (failures : List FailureReport) → fits_hint (agents.failure_hint failures) ≡ true
  pub state : (packet : ContextPacket) (w : W) → agents.context_state_is_valid packet w ≡ true
  pub developer_message :
      (w after : W) (message : String)
      → agents.develop w ≡ (after, raises (developer_value message))
      → IsMessage message
  pub stop_lines :
      (w after : W) (result : DeveloperRunResult)
      → agents.develop w ≡ (after, gives result)
      → some_blank result.stop_evidence ≡ false
  pub review_message :
      (w after : W) (v : VerificationResult) (message : String)
      → agents.review w v ≡ (after, raises (review_value message))
      → IsMessage message
  pub repair_message :
      (n : ℕ) (failures : List FailureReport) (handoff : RepairHandoff) (w after : W)
      (message : String)
      → agents.repair n failures handoff w ≡ (after, raises (repair_value message))
      → IsMessage message

pub refuses_state-limits :
    {W : Type 0} (agents : Agents W) (limits : WithinLimits agents) (packet : Option ContextPacket)
    (w : W)
    → refuses_state agents packet w ≡ false
refuses_state-limits agents limits none w = refl
refuses_state-limits agents limits (some packet) w = ground (arith, limits.state packet w)
