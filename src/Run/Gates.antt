-- ===== src/Run/Gates.antt =====
-- backend/app/runtime/orchestrator.py: the branch of a verification that failed ends within the
-- budget.
use muti_agent.Prelude.{
  ℕ, suc, ◌≤◌, ◌≡◌, inl, inr, refl, ap, String, String_eq, Nat_eq, Bool, true, false, Option, some,
  List, [], ◌∷◌, length, arith, Bool-cases,
}
use muti_agent.Result.{Result, ok}
use muti_agent.Run.{
  verifying, repairing, failed, can_follow, moved, RunError, FailureReport, VerificationResult,
  RepairRunResult, is_nil, repairable, other_failure,
}
use muti_agent.Text.{text_length, strip, lstrip, rstrip, is_space}
use muti_agent.Run.Failures.{runtime_failure, make_failure-ok}
use muti_agent.Run.Repair.{finish_with, Agents, Run, Phase, goes_on, finish, repair_until_patch}
use muti_agent.Run.Loop.{record_verification, repair_detail, repair_and_verify, hard_gate_failed}
use muti_agent.Run.Outcome.{finish_with-failed, advance-ok, finish-failed, Ends, Ends-of}
use muti_agent.Run.Limits.{WithinLimits}
use muti_agent.Run.Patches.{repair_until_patch-Ends}

-- The loop of `run` goes on with a verification, behind at least `count` repairs.
pub record Verifying {W : Type 0} (budget count : ℕ) (next : Run W) : Type 0 where
  pub now_verifying : next.machine.state ≡ verifying
  pub made : count ≤ length next.repairs
  pub within : length next.repairs ≤ budget

pub length-record_verification :
    (passed : Bool) (signature : Option String) (repairs : List RepairRunResult)
    → length (record_verification passed signature repairs) ≡ length repairs
unfolding record_verification
length-record_verification passed signature [] = refl
length-record_verification passed signature (r ∷ []) = refl
length-record_verification passed signature (r ∷ q ∷ rs) =
    ap suc (length-record_verification passed signature (q ∷ rs))

-- The run with the verification recorded on its last repair.
abbrev pub marked : {W : Type 0} → Bool → Option String → Run W → Run W
marked passed signature s = record s { repairs = record_verification passed signature s.repairs }

Verifying-from :
    {W : Type 0} (budget count more : ℕ) (next : Run W)
    → count ≤ more
    → Verifying {W = W} budget more next
    → Verifying budget count next
Verifying-from budget count more next le v = record {
  now_verifying = v.now_verifying;
  made = omega (arith, v.made, le);
  within = v.within;
}

pub Ends-from :
    {W : Type 0} (budget count more : ℕ) {step : Result RunError (Phase W)}
    → count ≤ more
    → Ends budget (Verifying budget more) step
    → Ends budget (Verifying budget count) step
Ends-from budget count more le (inl done) = inl done
Ends-from budget count more le (inr (next, e, v)) =
    inr (next, e, Verifying-from budget count more next le v)

module _ {W : Type 0} (agents : Agents W) (budget : ℕ) (limits : WithinLimits agents) where
  verify-again :
      (s : Run W) (failures : List FailureReport) (signature : String) (next : Run W)
      → repair_until_patch agents budget (suc budget) s failures signature ≡ ok (goes_on next)
      → next.machine.state ≡ repairing
      → repair_and_verify agents budget s failures signature
        ≡ ok (
            goes_on (record next {
              machine = moved next.machine verifying (repair_detail agents budget next.repairs);
            }))
  unfolding repair_and_verify
  verify-again s failures signature next e at =
      ground
        (arith, advance-ok next verifying (repair_detail agents budget next.repairs) (rw at refl))

  pub repair_and_verify-Ends :
      (s : Run W) (failures : List FailureReport) (signature : String)
      → can_follow s.machine.state repairing ≡ true
      → can_follow s.machine.state failed ≡ true
      → is_nil failures ≡ false
      → length s.repairs ≤ budget
      → Ends budget
          (Verifying budget (suc (length s.repairs)))
          (repair_and_verify agents budget s failures signature)
  unfolding repair_and_verify
  repair_and_verify-Ends s failures signature to_repair to_fail some_failure le =
      elim (repair_until_patch-Ends agents budget limits (suc budget) s failures signature
        (omega arith) to_repair to_fail some_failure le) [
          | inl (r, e, outcome) ↦ inl (r, rw e refl, outcome)
          | inr (next, e, made) ↦ inr (
            _,
            verify-again s failures signature next e made.now_repairing,
            record { now_verifying = refl; made = made.made; within = made.within },
          )
        ]

  hopeless-eq :
      (s : Run W) (v : VerificationResult)
      → is_nil (repairable v.failure_reports) ≡ true
      → is_nil v.failure_reports ≡ false
      → hard_gate_failed agents budget s v
        ≡ finish agents
            (marked false (some (agents.failure_signature v.failure_reports)) s)
            failed
            "Hard gate produced a non-repairable failure."
            v.failure_reports
  unfolding hard_gate_failed
  hopeless-eq s v h some_failure = rw (h, some_failure) refl

  unexplained-eq :
      (s : Run W) (v : VerificationResult)
      → is_nil (repairable v.failure_reports) ≡ true
      → is_nil v.failure_reports ≡ true
      → hard_gate_failed agents budget s v
        ≡ finish_with agents
            (marked false (some (agents.failure_signature v.failure_reports)) s)
            "Hard gate produced a non-repairable failure."
            (runtime_failure "Verification failed without structured failure evidence." [])
  unfolding hard_gate_failed
  unexplained-eq s v h no_failure = rw (h, no_failure) refl

  hopeless-Ends :
      (s : Run W) (v : VerificationResult)
      → s.machine.state ≡ verifying
      → length s.repairs ≤ budget
      → is_nil (repairable v.failure_reports) ≡ true
      → Ends budget (Verifying budget (suc (length s.repairs))) (hard_gate_failed agents budget s v)
  unfolding text_length strip lstrip rstrip is_space
  hopeless-Ends s v at le h =
      let signature = agents.failure_signature v.failure_reports in
      let next = marked false (some signature) s in
      let same = length-record_verification false (some signature) s.repairs in
      let P = Verifying {W = W} budget (suc (length s.repairs)) in
      elim (Bool-cases (is_nil v.failure_reports)) [
        | inl none' ↦
            let (failure, e) =
              make_failure-ok (other_failure "TOOL_FAILURE")
                "Verification failed without structured failure evidence." [] (refl, refl) refl in
            Ends-of budget P (unexplained-eq s v h none') (
              inl (
                finish_with-failed agents limits budget next _ (omega (arith, same, le)) _ failure e
                  (rw at refl)))
        | inr some_failure ↦ Ends-of budget P (hopeless-eq s v h some_failure) (
            inl (
              finish-failed agents limits budget next _ v.failure_reports (omega (arith, same, le))
                (rw at refl) some_failure))
      ]

  hopeful-eq :
      (s : Run W) (v : VerificationResult)
      → is_nil (repairable v.failure_reports) ≡ false
      → hard_gate_failed agents budget s v
        ≡ repair_and_verify agents budget
            (marked false (some (agents.failure_signature v.failure_reports)) s)
            (repairable v.failure_reports)
            (agents.failure_signature v.failure_reports)
  unfolding hard_gate_failed
  hopeful-eq s v h = rw h refl

  pub hard_gate_failed-Ends :
      (s : Run W) (v : VerificationResult)
      → s.machine.state ≡ verifying
      → length s.repairs ≤ budget
      → Ends budget (Verifying budget (suc (length s.repairs))) (hard_gate_failed agents budget s v)
  hard_gate_failed-Ends s v at le =
      let signature = agents.failure_signature v.failure_reports in
      let same = length-record_verification false (some signature) s.repairs in
      elim (Bool-cases (is_nil (repairable v.failure_reports))) [
        | inl hopeless ↦ hopeless-Ends s v at le hopeless
        | inr hope ↦
            Ends-of budget (Verifying budget (suc (length s.repairs))) (hopeful-eq s v hope) (
              Ends-from budget _ _ (omega (arith, same)) (
                repair_and_verify-Ends (marked false (some signature) s) _ _ (rw at refl)
                  (rw at refl) hope (omega (arith, same, le))))
      ]
