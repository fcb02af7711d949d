-- ===== src/Run/Ends.antt =====
-- backend/app/runtime/orchestrator.py: `run` returns, and what it returns.
use muti_agent.Prelude.{
  ℕ, zero, suc, ◌+◌, ◌≤◌, ◌<◌, ◌≡◌, inl, inr, refl, String, String_eq, Nat_eq, Bool, true, false,
  none, some, [], ◌∷◌, ◌++◌, length, if◌then◌else◌, arith, Bool-cases,
}
use muti_agent.Result.{ok}
use muti_agent.Run.{
  running, verifying, failed, change_state, moved, new_machine, FailureReport, SingleTaskRunResult,
  is_nil, other_failure,
}
use muti_agent.Text.{text_length, strip, lstrip, rstrip, is_space}
use muti_agent.Run.Failures.{
  IsMessage, some_blank, runtime_failure, make_failure-ok, is_model_stop, DeveloperRunResult,
  developer_stop_failure-ok,
}
use muti_agent.Run.Repair.{
  ContextPacket, Attempt, gives, raises, DeveloperError, developer_provider, developer_value,
  Agents, Run, finished, finish, advance,
}
use muti_agent.Run.Loop.{
  hard_gate_failed, hard_gate_passed, round, rounds, developed, first_part, run,
}
use muti_agent.Run.Outcome.{
  IsOutcome, Attempt-cases, finish_with-failed, advance-ok, finish-failed, Ends, Ends-of, last-snoc,
}
use muti_agent.Run.Limits.{WithinLimits}
use muti_agent.Run.Gates.{Verifying, hard_gate_failed-Ends}
use muti_agent.Run.Reviews.{hard_gate_passed-Ends}

module _ {W : Type 0} (agents : Agents W) (budget : ℕ) (limits : WithinLimits agents) where
  verified : Run W → Run W
  verified s = record s {
    world = (agents.verify s.world).0;
    verifications = s.verifications ++ (agents.verify s.world).1 ∷ [];
  }

  passed-eq :
      (s : Run W)
      → (agents.verify s.world).1.passed ≡ true
      → round agents budget s
        ≡ hard_gate_passed agents budget (verified s) (agents.verify s.world).1
  unfolding round verified
  passed-eq s h = rw h refl

  failed-eq :
      (s : Run W)
      → (agents.verify s.world).1.passed ≡ false
      → round agents budget s
        ≡ hard_gate_failed agents budget (verified s) (agents.verify s.world).1
  unfolding round verified
  failed-eq s h = rw h refl

  round-Ends :
      (s : Run W)
      → s.machine.state ≡ verifying
      → length s.repairs ≤ budget
      → Ends budget (Verifying budget (suc (length s.repairs))) (round agents budget s)
  unfolding verified
  round-Ends s at le =
      let P = Verifying {W = W} budget (suc (length s.repairs)) in
      let v = (agents.verify s.world).1 in
      elim (Bool-cases v.passed) [
        | inl h ↦ Ends-of budget P (passed-eq s h) (
            hard_gate_passed-Ends agents budget limits v h (verified s) at le
              (last-snoc s.verifications v))
        | inr h ↦
            Ends-of budget P (failed-eq s h)
              (hard_gate_failed-Ends agents budget limits (verified s) v at le)
      ]

  rounds-return :
      (fuel : ℕ) (s : Run W)
      → budget < fuel + length s.repairs
      → s.machine.state ≡ verifying
      → length s.repairs ≤ budget
      → (r : SingleTaskRunResult) × (rounds agents budget fuel s ≡ ok r) × IsOutcome budget r
  unfolding rounds
  rounds-return zero s enough at le = absurd (omega (arith, enough, le))
  rounds-return (suc fuel) s enough at le = elim (round-Ends s at le) [
    | inl (r, e, outcome) ↦ (r, ground arith, outcome)
    | inr (next, e, v) ↦
        let (r, same, outcome) =
          rounds-return fuel next (omega (arith, enough, v.made)) v.now_verifying v.within in
        (r, ground (arith, same), outcome)
  ]

  started : Bool → W → Run W
  started resume world = record {
    world = world;
    machine =
        moved new_machine running
          (if resume then "从验证失败检查点恢复；先执行确定性验证。" else "Developer Agent started initial work.");
    packet = none;
    verifications = [];
    reviews = [];
    repairs = [];
  }

  started-running : (resume : Bool) (world : W) → (started resume world).machine.state ≡ running
  unfolding started
  started-running resume world = refl

  started-fresh : (resume : Bool) (world : W) → (started resume world).repairs ≡ []
  unfolding started
  started-fresh resume world = refl

  resumed-Ends :
      (world : W) → Ends budget (Verifying budget 0) (first_part agents budget true world)
  unfolding first_part advance change_state
  resumed-Ends world =
      inr (_, refl, record { now_verifying = refl; made = omega arith; within = omega arith })

  no_changes-ok :
      (failure : FailureReport) × (runtime_failure
          "Developer Agent completed without producing repository changes."
          ("changed_files=0" ∷ [])
        ≡ ok failure)
  unfolding text_length strip lstrip rstrip is_space
  no_changes-ok =
      make_failure-ok (other_failure "TOOL_FAILURE")
        "Developer Agent completed without producing repository changes." ("changed_files=0" ∷ [])
        (refl, refl) refl

  developed-Ends :
      (s : Run W) (answer : W × Attempt DeveloperError DeveloperRunResult)
      → s.machine.state ≡ running
      → s.repairs ≡ []
      → ((after : W) (message : String)
          → answer ≡ (after, raises (developer_value message))
          → IsMessage message)
      → ((after : W) (result : DeveloperRunResult)
          → answer ≡ (after, gives result)
          → some_blank result.stop_evidence ≡ false)
      → Ends budget (Verifying budget 0) (developed agents budget s answer)
  unfolding developed
  developed-Ends s (after, raises (developer_provider failure)) at fresh tells lines = inl (
      finish-failed agents limits budget (record s { world = after }) _ (failure ∷ [])
        (ground (arith, fresh)) (rw at refl) refl)
  developed-Ends s (after, raises (developer_value message)) at fresh tells lines =
      let (failure, e) = make_failure-ok _ message [] (tells after message refl) refl in
      inl (
        finish_with-failed agents limits budget (record s { world = after }) _
          (ground (arith, fresh)) _ failure e (rw at refl))
  developed-Ends s (after, gives result) at fresh tells lines =
      let next : Run W = record s { world = after } in
      elim (Bool-cases (is_nil (agents.changed_files after))) [
        | inl n ↦ elim (Bool-cases (is_model_stop result.stop_reason)) [
          | inl m ↦
              let (failure, good) = no_changes-ok in
              let (r, e, outcome) =
                finish_with-failed agents limits budget next "Developer produced no Git changes."
                  (ground (arith, fresh)) _ failure good (rw at refl) in
              inl (r, rw (n, m) e, outcome)
          | inr m ↦
              let (failure, good) =
                developer_stop_failure-ok result.stop_reason result.stop_evidence
                  (lines after result refl) in
              let (r, e, outcome) =
                finish_with-failed agents limits budget next
                  "Developer Agent stopped before a normal model completion."
                  (ground (arith, fresh)) _ failure good (rw at refl) in
              inl (r, rw (n, m) e, outcome)
        ]
        | inr n ↦
            let detail : String =
              if is_model_stop result.stop_reason
              then "Developer 正常完成；确定性验证开始。"
              else "Developer 受控 Slice 已结束且存在改动；跳过额外模型调用并进入确定性验证。" in
            inr (
              record next { machine = moved next.machine verifying detail },
              rw (n, advance-ok next verifying detail (rw at refl)) refl,
              record { now_verifying = refl; made = omega arith; within = ground (arith, fresh) },
            )
      ]

  start-failed :
      (world : W) (failure : FailureReport)
      → (r : SingleTaskRunResult) × (finish agents
            (started false world)
            failed
            "Developer ContextPacket construction failed."
            (failure ∷ [])
          ≡ ok (finished r))
        × IsOutcome budget r
  unfolding started
  start-failed world failure =
      finish-failed agents limits budget _ _ (failure ∷ []) (omega arith) refl refl

  no_developer-eq :
      (world : W) (failure : FailureReport)
      → agents.developer_context world ≡ raises failure
      → first_part agents budget false world
        ≡ finish agents
            (started false world)
            failed
            "Developer ContextPacket construction failed."
            (failure ∷ [])
  unfolding first_part started
  no_developer-eq world failure e = ground (
    arith,
    advance-ok
        (record {
          world = world;
          machine = new_machine;
          packet = none;
          verifications = [];
          reviews = [];
          repairs = [];
        })
        running "Developer Agent started initial work." refl,
  )

  developer-eq :
      (world : W) (packet : ContextPacket)
      → agents.developer_context world ≡ gives packet
      → first_part agents budget false world
        ≡ developed agents budget
            (record (started false world) { packet = some packet })
            (agents.develop world)
  unfolding first_part started
  developer-eq world packet e = ground (
    arith,
    advance-ok
        (record {
          world = world;
          machine = new_machine;
          packet = none;
          verifications = [];
          reviews = [];
          repairs = [];
        })
        running "Developer Agent started initial work." refl,
  )

  first_part-Ends :
      (resume : Bool) (world : W)
      → Ends budget (Verifying budget 0) (first_part agents budget resume world)
  first_part-Ends true world = resumed-Ends world
  first_part-Ends false world = elim (Attempt-cases (agents.developer_context world)) [
    | inl (packet, e) ↦ Ends-of budget (Verifying budget 0) (developer-eq world packet e) (
        developed-Ends (record (started false world) { packet = some packet })
          (agents.develop world) (started-running false world) (started-fresh false world)
          (λ after message same. limits.developer_message world after message same)
          (λ after result same. limits.stop_lines world after result same))
    | inr (failure, e) ↦
        Ends-of budget (Verifying budget 0) (no_developer-eq world failure e)
          (inl (start-failed world failure))
  ]

  -- Where no validator refuses what the orchestrator builds outside its try blocks (handoffs of
  -- repairs, states for a continuation, failures that carry the text of a ValueError or the
  -- evidence of a developer that stopped), and a repair agent that refuses for want of budget
  -- reports a failure: run returns a result, with the fuel it gives itself and whether or not it
  -- resumes at the verification. The result passes validate_terminal_consistency (a terminal
  -- status that the last event shows, failures exactly if FAILED, the repairs counted), it has
  -- at most as many repairs as the budget, and it SUCCEEDED only if its last verification passed
  -- and its last review is PASS.
  pub run-IsOutcome :
      (resume : Bool) (world : W)
      → (r : SingleTaskRunResult) × (run agents budget resume world ≡ ok r) × IsOutcome budget r
  unfolding run
  run-IsOutcome resume world = elim (first_part-Ends resume world) [
    | inl (r, e, outcome) ↦ (r, ground arith, outcome)
    | inr (next, e, v) ↦
        let (r, same, outcome) =
          rounds-return (suc budget) next (omega arith) v.now_verifying v.within in
        (r, ground (arith, same), outcome)
  ]
