-- ===== src/Run/Reviews.antt =====
-- backend/app/runtime/orchestrator.py: the branch of a verification that passed, a review, ends within
-- the budget.
use muti_agent.Prelude.{
  ℕ, suc, ◌≤◌, ◌≡◌, inl, inr, refl, String, String_eq, Nat_eq, true, false, none, some, [], ◌∷◌,
  ◌++◌, length, arith,
}
use muti_agent.Run.{
  verifying, reviewing, failed, moved, FailureReport, VerificationResult, ReviewDecision,
  ReviewOutcome, pass, changes_requested, is_nil, last, from_review,
}
use muti_agent.Run.Failures.{IsMessage, make_failure-ok}
use muti_agent.Run.Repair.{
  ContextPacket, Attempt, gives, raises, ReviewError, invalid_output, review_provider, review_value,
  Agents, Run, finish,
}
use muti_agent.Run.Loop.{
  record_verification, repair_and_verify, review_raised, decided, reviewed_by, hard_gate_passed,
}
use muti_agent.Run.Outcome.{
  finish_with-failed, Attempt-cases, advance-ok, finish-failed, finish-succeeded, Ends, Ends-of,
  last-snoc,
}
use muti_agent.Run.Limits.{WithinLimits}
use muti_agent.Run.Gates.{
  Verifying, length-record_verification, marked, Ends-from, repair_and_verify-Ends,
}

module _ {W : Type 0} (agents : Agents W) (budget : ℕ) (limits : WithinLimits agents) where
  review_raised-Ends :
      (s : Run W) (e : ReviewError)
      → ((message : String) → e ≡ review_value message → IsMessage message)
      → s.machine.state ≡ reviewing
      → length s.repairs ≤ budget
      → Ends budget (Verifying budget (suc (length s.repairs))) (review_raised agents budget s e)
  unfolding review_raised
  review_raised-Ends s (invalid_output failure) tells at le =
      inl (finish-failed agents limits budget s _ (failure ∷ []) le (rw at refl) refl)
  review_raised-Ends s (review_provider failure) tells at le =
      inl (finish-failed agents limits budget s _ (failure ∷ []) le (rw at refl) refl)
  review_raised-Ends s (review_value message) tells at le =
      let (failure, e) = make_failure-ok _ message [] (tells message refl) refl in
      inl (finish_with-failed agents limits budget s _ le _ failure e (rw at refl))

  rejected-eq :
      (s : Run W) (d : ReviewDecision)
      → d.decision ≡ changes_requested
      → decided agents budget s d
        ≡ repair_and_verify agents budget
            (record s { reviews = s.reviews ++ d ∷ [] })
            (from_review d)
            (agents.failure_signature (from_review d))
  unfolding decided
  rejected-eq s d e = ground arith

  from_review-is_nil :
      (d : ReviewDecision) → d.decision ≡ changes_requested → is_nil (from_review d) ≡ false
  unfolding from_review
  from_review-is_nil d e = ground arith

  module _ (v : VerificationResult) (passed : v.passed ≡ true) where
    decided-by :
        (s : Run W) (d : ReviewDecision) (outcome : ReviewOutcome)
        → d.decision ≡ outcome
        → s.machine.state ≡ reviewing
        → length s.repairs ≤ budget
        → last s.verifications ≡ some v
        → Ends budget (Verifying budget (suc (length s.repairs))) (decided agents budget s d)
    unfolding decided from_review
    decided-by s d pass e at le checked =
        let reviewed : Run W = record s { reviews = s.reviews ++ d ∷ [] } in
        let (r, same, outcome) =
          finish-succeeded agents limits budget reviewed
            "Hard evidence and independent semantic review both passed." le (rw at refl)
            (record {
              verification = v;
              review = d;
              last_verification = checked;
              verification_passed = passed;
              last_review = last-snoc s.reviews d;
              review_passed = e;
            }) in
        inl (r, ground (arith, same), outcome)
    decided-by s d changes_requested e at le checked =
        let reviewed : Run W = record s { reviews = s.reviews ++ d ∷ [] } in
        Ends-of budget (Verifying budget (suc (length s.repairs))) (rejected-eq s d e) (
          repair_and_verify-Ends agents budget limits reviewed (from_review d)
            (agents.failure_signature (from_review d)) (rw at refl) (rw at refl)
            (from_review-is_nil d e) le)

    reviewed_by-Ends :
        (s : Run W) (answer : W × Attempt ReviewError ReviewDecision)
        → ((after : W) (message : String)
            → answer ≡ (after, raises (review_value message))
            → IsMessage message)
        → s.machine.state ≡ reviewing
        → length s.repairs ≤ budget
        → last s.verifications ≡ some v
        → Ends budget
            (Verifying budget (suc (length s.repairs)))
            (reviewed_by agents budget s answer)
    unfolding reviewed_by
    reviewed_by-Ends s (after, raises e) tells at le checked =
        review_raised-Ends (record s { world = after }) e
          (λ message same. tells after message (rw same refl)) at le
    reviewed_by-Ends s (after, gives d) tells at le checked =
        decided-by (record s { world = after }) d d.decision refl at le checked

    reviewing_next : Run W → Run W
    reviewing_next s = record s {
      repairs = record_verification true none s.repairs;
      machine = moved s.machine reviewing "Hard gate passed; independent semantic review started.";
    }

    no_context-eq :
        (s : Run W) (failure : FailureReport)
        → s.machine.state ≡ verifying
        → agents.reviewer_context s.world ≡ raises failure
        → hard_gate_passed agents budget s v
          ≡ finish agents
              (reviewing_next s)
              failed
              "Reviewer ContextPacket construction failed."
              (failure ∷ [])
    unfolding hard_gate_passed reviewing_next
    no_context-eq s failure at e = ground (
      arith,
      advance-ok (marked true none s) reviewing
          "Hard gate passed; independent semantic review started." (rw at refl),
    )

    context-eq :
        (s : Run W) (packet : ContextPacket)
        → s.machine.state ≡ verifying
        → agents.reviewer_context s.world ≡ gives packet
        → hard_gate_passed agents budget s v
          ≡ reviewed_by agents budget
              (record (reviewing_next s) { packet = some packet })
              (agents.review s.world v)
    unfolding hard_gate_passed reviewing_next
    context-eq s packet at e = ground (
      arith,
      advance-ok (marked true none s) reviewing
          "Hard gate passed; independent semantic review started." (rw at refl),
    )

    pub hard_gate_passed-Ends :
        (s : Run W)
        → s.machine.state ≡ verifying
        → length s.repairs ≤ budget
        → last s.verifications ≡ some v
        → Ends budget
            (Verifying budget (suc (length s.repairs)))
            (hard_gate_passed agents budget s v)
    unfolding reviewing_next
    hard_gate_passed-Ends s at le checked =
        let next = reviewing_next s in
        let same = length-record_verification true none s.repairs in
        elim (Attempt-cases (agents.reviewer_context s.world)) [
          | inr (failure, e) ↦
              Ends-of budget (Verifying budget (suc (length s.repairs)))
                (no_context-eq s failure at e)
                (inl (
                  finish-failed agents limits budget next
                    "Reviewer ContextPacket construction failed." (failure ∷ [])
                    (omega (arith, same, le)) refl refl))
          | inl (packet, e) ↦
              Ends-of budget (Verifying budget (suc (length s.repairs))) (context-eq s packet at e)
                (Ends-from budget _ _ (omega (arith, same)) (
                  reviewed_by-Ends (record next { packet = some packet }) (agents.review s.world v)
                    (λ after message same'. limits.review_message s.world after v message same')
                    refl (omega (arith, same, le)) checked))
        ]
