-- ===== src/Run/Patches.antt =====
-- backend/app/runtime/orchestrator.py: _repair_once and _repair_until_patch end within the budget.
use Prim.Native.String.{◌++◌ as str_append}
use muti_agent.Prelude.{
  ℕ, zero, suc, ◌+◌, ◌≤◌, ◌<◌, ◌≡◌, ◌⊎◌, inl, inr, refl, ◌∙◌, String, String_eq, Nat_eq, true,
  false, some, List, ◌++◌, length, ltb, arith, Bool-cases, Option-cases,
}
use muti_agent.Result.{Result, ok}
use muti_agent.Run.{
  repairing, failed, can_follow, moved, RunError, FailureReport, RepairRunResult,
  SingleTaskRunResult, is_nil, last, terminalize,
}
use muti_agent.Run.Handoff.{make_handoff, make_handoff-ok}
use muti_agent.Run.Repair.{
  repair_handoff, Agents, Run, Phase, finished, goes_on, finish, next_evidence, finish_no_progress,
  record_repair, repair_once, Verdict, has_patch, stuck, again, verdict, repair_until_patch,
}
use muti_agent.Run.Outcome.{
  IsOutcome, is_nil-map, advance-ok, finish-failed, Ends, Ends-of, Repaired, record_repair-Ends,
}
use muti_agent.Run.Limits.{WithinLimits}

Verdict-cases : (v : Verdict) → (v ≡ has_patch) ⊎ ((v ≡ stuck) ⊎ (v ≡ again))
Verdict-cases has_patch = inl refl
Verdict-cases stuck = inr (inl refl)
Verdict-cases again = inr (inr refl)

module _ {W : Type 0} (agents : Agents W) (budget : ℕ) where
  next_evidence-is_nil :
      (failures : List FailureReport) (repairs : List RepairRunResult)
      → is_nil failures ≡ false
      → is_nil (next_evidence agents budget failures repairs) ≡ false
  unfolding next_evidence
  next_evidence-is_nil failures repairs h = elim (Option-cases (last repairs)) [
    | inl e ↦ ground arith
    | inr (repair, e) ↦ elim (Option-cases repair.progress) [
      | inl p ↦ ground arith
      | inr (progress, p) ↦ ground (
        arith,
        is_nil-map {A = FailureReport} {B = FailureReport}
            (λ failure. record failure {
              evidence = failure.evidence ++ agents.repair_evidence repair;
            })
            failures,
      )
    ]
  ]

  terminalize-is_nil :
      (line : String) (failures : List FailureReport)
      → is_nil (terminalize line failures) ≡ is_nil failures
  unfolding terminalize
  terminalize-is_nil line failures = is_nil-map _ failures

  repairing_next : Run W → Run W
  repairing_next s = record s {
    machine = moved s.machine repairing (
        str_append "Fresh targeted repair attempt "
          (str_append (agents.str (suc (length s.repairs))) " started."));
  }

  once-spent :
      (s : Run W) (failures : List FailureReport) (signature : String)
      → ltb budget (suc (length s.repairs)) ≡ true
      → repair_once agents budget s failures signature (suc (length s.repairs))
        ≡ finish agents s failed "Repair retry budget was exhausted."
            (terminalize (str_append "repair_attempts_exhausted=" (agents.str budget)) failures)
  unfolding repair_once
  once-spent s failures signature spent = rw spent refl

  once-left :
      (s : Run W) (failures : List FailureReport) (signature : String)
      → ltb budget (suc (length s.repairs)) ≡ false
      → can_follow s.machine.state repairing ≡ true
      → make_handoff (repair_handoff agents failures s.world)
        ≡ ok (repair_handoff agents failures s.world)
      → repair_once agents budget s failures signature (suc (length s.repairs))
        ≡ record_repair agents budget (repairing_next s) s.world signature (
            agents.repair
              (suc (length s.repairs))
              failures
              (repair_handoff agents failures s.world)
              s.world)
  unfolding repair_once repairing_next
  once-left s failures signature left allowed handed =
      rw (left, advance-ok s repairing _ allowed, handed) refl

  repair_once-Ends :
      WithinLimits agents
      → (s : Run W) (failures : List FailureReport) (signature : String)
      → can_follow s.machine.state repairing ≡ true
      → can_follow s.machine.state failed ≡ true
      → is_nil failures ≡ false
      → length s.repairs ≤ budget
      → Ends budget
          (Repaired budget (length s.repairs))
          (repair_once agents budget s failures signature (suc (length s.repairs)))
  unfolding repairing_next
  repair_once-Ends limits s failures signature to_repair to_fail some_failure le =
      elim (Bool-cases (ltb budget (suc (length s.repairs)))) [
        | inl spent ↦
            Ends-of budget (Repaired budget (length s.repairs))
              (once-spent s failures signature spent)
              (inl (
                finish-failed agents limits budget s "Repair retry budget was exhausted."
                  (terminalize (str_append "repair_attempts_exhausted=" (agents.str budget))
                    failures)
                  le to_fail (terminalize-is_nil _ failures ∙ some_failure)))
        | inr left ↦
            let next = repairing_next s in
            let handoff = repair_handoff agents failures s.world in
            let handed =
              make_handoff-ok agents.task (agents.head_commit s.world)
                (agents.changed_files s.world) (agents.failure_hint failures) failures limits.fits
                (limits.commit s.world) (limits.few_changes s.world) (limits.hinted failures)
                some_failure in
            Ends-of budget (Repaired budget (length s.repairs))
              (once-left s failures signature left to_repair handed)
              (record_repair-Ends agents limits budget next next.world signature
                (agents.repair (suc (length s.repairs)) failures handoff s.world) refl
                (ground arith)
                (λ after reports e. limits.explains _ failures handoff next.world after reports e)
                (λ after message e.
                  limits.repair_message _ failures handoff next.world after message e))
      ]

  module _ (fuel : ℕ) (s next : Run W) (failures : List FailureReport) (signature : String)
      (repair : RepairRunResult)
      (e : repair_once agents budget s
          (next_evidence agents budget failures s.repairs)
          signature
          (suc (length s.repairs))
        ≡ ok (goes_on next))
      (l : last next.repairs ≡ some repair) where
    loop-patch :
        verdict budget (length next.repairs) repair ≡ has_patch
        → repair_until_patch agents budget (suc fuel) s failures signature ≡ ok (goes_on next)
    unfolding repair_until_patch
    loop-patch v = ground arith

    loop-stuck :
        verdict budget (length next.repairs) repair ≡ stuck
        → repair_until_patch agents budget (suc fuel) s failures signature
          ≡ finish_no_progress agents budget next failures repair
    unfolding repair_until_patch
    loop-stuck v = ground arith

    loop-again :
        verdict budget (length next.repairs) repair ≡ again
        → repair_until_patch agents budget (suc fuel) s failures signature
          ≡ repair_until_patch agents budget fuel next failures signature
    unfolding repair_until_patch
    loop-again v = ground arith

  verdict-again :
      (attempts : ℕ) (repair : RepairRunResult)
      → verdict budget attempts repair ≡ again
      → attempts < budget
  unfolding verdict
  verdict-again attempts repair h = ground arith

  finish_no_progress-Ends :
      WithinLimits agents
      → (next : Run W) (failures : List FailureReport) (repair : RepairRunResult)
      → next.machine.state ≡ repairing
      → length next.repairs ≤ budget
      → is_nil failures ≡ false
      → (r : SingleTaskRunResult) × (finish_no_progress agents budget next failures repair
          ≡ ok (finished r))
        × IsOutcome budget r
  unfolding finish_no_progress
  finish_no_progress-Ends limits next failures repair at le some_failure =
      finish-failed agents limits budget next _ _ le (rw at refl)
        (is_nil-map _ failures ∙ some_failure)

  Ends-more :
      (m n : ℕ) {step : Result RunError (Phase W)}
      → m ≤ n
      → Ends budget (Repaired budget n) step
      → Ends budget (Repaired budget m) step
  Ends-more m n le (inl done) = inl done
  Ends-more m n le (inr (next, e, made)) = inr (
    next,
    e,
    record {
      now_repairing = made.now_repairing;
      made = omega (arith, made.made, le);
      within = made.within;
      repair = made.repair;
      last_repair = made.last_repair;
    },
  )

  -- With fuel for the attempts that the budget leaves, the loop ends.
  pub repair_until_patch-Ends :
      WithinLimits agents
      → (fuel : ℕ) (s : Run W) (failures : List FailureReport) (signature : String)
      → budget < fuel + length s.repairs
      → can_follow s.machine.state repairing ≡ true
      → can_follow s.machine.state failed ≡ true
      → is_nil failures ≡ false
      → length s.repairs ≤ budget
      → Ends budget
          (Repaired budget (length s.repairs))
          (repair_until_patch agents budget fuel s failures signature)
  unfolding repair_until_patch
  repair_until_patch-Ends limits zero s failures signature enough to_repair to_fail some_failure
        le =
      absurd (omega (arith, enough, le))
  repair_until_patch-Ends limits (suc fuel) s failures signature enough to_repair to_fail
        some_failure le =
      elim (repair_once-Ends limits s (next_evidence agents budget failures s.repairs) signature
        to_repair to_fail (next_evidence-is_nil failures s.repairs some_failure) le) [
          | inl (r, e, outcome) ↦ inl (r, rw e refl, outcome)
          | inr (next, e, made) ↦
              let repair = made.repair in
              let P = Repaired {W = W} budget (length s.repairs) in
              elim (Verdict-cases (verdict budget (length next.repairs) repair)) [
                | inl patch ↦ inr (
                  next,
                  loop-patch fuel s next failures signature repair e made.last_repair patch,
                  made,
                )
                | inr (inl no_more) ↦
                    Ends-of budget P
                      (loop-stuck fuel s next failures signature repair e made.last_repair no_more)
                      (inl (
                        finish_no_progress-Ends limits next failures repair made.now_repairing
                          made.within some_failure))
                | inr (inr more) ↦
                    let room = verdict-again (length next.repairs) repair more in
                    let result =
                      repair_until_patch-Ends limits fuel next failures signature
                        (omega (arith, enough, made.made)) (rw made.now_repairing refl)
                        (rw made.now_repairing refl) some_failure made.within in
                    Ends-of budget P
                      (loop-again fuel s next failures signature repair e made.last_repair more)
                      (Ends-more (length s.repairs) (length next.repairs) (omega (arith, made.made))
                        result)
              ]
        ]
