-- ===== src/Run/Escapes.antt =====
-- backend/app/runtime/orchestrator.py: the ValidationError of a handoff leaves `run`, since
-- _repair_once builds the handoff outside its `try` block.
use muti_agent.Prelude.{
  ℕ, suc, ◌≤◌, ◌<◌, ◌≡◌, refl, String, true, false, none, List, [], length, arith, ltb,
}
use muti_agent.Result.{ok, err}
use muti_agent.Contract.{TaskContract}
use muti_agent.Run.{
  running, verifying, repairing, change_state, moved, new_machine, invalid_handoff, FailureReport,
  is_nil, can_follow, repairable,
}
use muti_agent.Run.Handoff.{make_handoff, handoff_of}
use muti_agent.Run.Repair.{
  Agents, Run, advance, next_evidence, repair_once, repair_until_patch, goes_on,
}
use muti_agent.Run.Loop.{
  record_verification, repair_and_verify, hard_gate_failed, round, rounds, first_part, run,
}
use muti_agent.Run.Outcome.{advance-ok}

make_handoff-refused :
    (task : TaskContract) (head : String) (changed : List String) (hint : _)
    (failures : List FailureReport)
    → 32 < length task.acceptance_criteria
    → make_handoff (handoff_of task head changed hint failures) ≡ err invalid_handoff
unfolding make_handoff
make_handoff-refused task head changed hint failures many = ground arith

module _ {W : Type 0} (agents : Agents W) (budget : ℕ)
    (many : 32 < length agents.task.acceptance_criteria) where
  repair_once-escapes :
      (s : Run W) (failures : List FailureReport) (signature : String) (attempt : ℕ)
      → attempt ≤ budget
      → can_follow s.machine.state repairing ≡ true
      → repair_once agents budget s failures signature attempt ≡ err invalid_handoff
  unfolding repair_once
  repair_once-escapes s failures signature attempt left allowed =
      let room : ltb budget attempt ≡ false = ground arith in
      let refused =
        make_handoff-refused agents.task (agents.head_commit s.world) (agents.changed_files s.world)
          (agents.failure_hint failures) failures many in
      rw (room, advance-ok s repairing _ allowed, refused) refl

  repair_until_patch-escapes :
      (fuel : ℕ) (s : Run W) (failures : List FailureReport) (signature : String)
      → suc (length s.repairs) ≤ budget
      → can_follow s.machine.state repairing ≡ true
      → repair_until_patch agents budget (suc fuel) s failures signature ≡ err invalid_handoff
  unfolding repair_until_patch
  repair_until_patch-escapes fuel s failures signature left allowed =
      rw
        (repair_once-escapes s (next_evidence agents budget failures s.repairs) signature
          (suc (length s.repairs)) left allowed)
        refl

  resumed : W → Run W
  resumed world = record {
    world = world;
    machine =
        moved (moved new_machine running "从验证失败检查点恢复；先执行确定性验证。") verifying
          "Checkpoint Commit 已装载；确定性验证开始。";
    packet = none;
    verifications = [];
    reviews = [];
    repairs = [];
  }

  repair_and_verify-escapes :
      (s : Run W) (failures : List FailureReport) (signature : String)
      → suc (length s.repairs) ≤ budget
      → can_follow s.machine.state repairing ≡ true
      → repair_and_verify agents budget s failures signature ≡ err invalid_handoff
  unfolding repair_and_verify
  repair_and_verify-escapes s failures signature left allowed =
      rw (repair_until_patch-escapes budget s failures signature left allowed) refl

  round-escapes :
      (world : W)
      → 1 ≤ budget
      → (agents.verify world).1.passed ≡ false
      → is_nil (repairable (agents.verify world).1.failure_reports) ≡ false
      → round agents budget (resumed world) ≡ err invalid_handoff
  unfolding round hard_gate_failed record_verification resumed
  round-escapes world some_repair fails hope =
      rw (fails, hope) (repair_and_verify-escapes _ _ _ some_repair refl)

  first_part-resumed :
      (world : W) → first_part agents budget true world ≡ ok (goes_on (resumed world))
  unfolding first_part advance change_state resumed
  first_part-resumed world = refl

  -- With more than 32 acceptance criteria, which TaskContract allows, and a budget of one repair
  -- or more: when run resumes at a verification that fails with repairable failures, it raises
  -- the ValidationError of RepairHandoff and returns no result.
  pub run-escapes :
      (world : W)
      → 1 ≤ budget
      → (agents.verify world).1.passed ≡ false
      → is_nil (repairable (agents.verify world).1.failure_reports) ≡ false
      → run agents budget true world ≡ err invalid_handoff
  unfolding run rounds
  run-escapes world some_repair fails hope =
      rw (first_part-resumed world, round-escapes world some_repair fails hope) refl
