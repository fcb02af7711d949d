-- ===== src/Tests/Runs.antt =====
-- backend/app/runtime/orchestrator.py on a task whose tests pass behind one repair.
use muti_agent.Prelude.{
  ℕ, suc, ◌≡◌, refl, Option, none, some, true, false, [], ◌∷◌, arith, ltb, if◌then◌else◌,
}
use muti_agent.Result.{Result, ok, err, traverse}
use muti_agent.Run.{
  is_nil, RunError, invalid_handoff, FailureReport, test_failure, pass, model_stop as stop,
  SingleTaskRunResult, change_state, repairable, terminalize, from_review,
  validate_terminal_consistency,
}
use muti_agent.Run.Failures.{model_stop}
use muti_agent.Run.Handoff.{is_commit, make_handoff}
use muti_agent.Tests.Samples.{contract}
use muti_agent.Run.Repair.{
  gives, ContextPacket, Agents, make_result, finish, finish_with, advance, next_evidence,
  finish_no_progress, repair_raised, record_repair, repair_once, verdict, repair_until_patch,
  repair_verification_detail,
}
use muti_agent.Run.Loop.{
  judged, judge_repair, record_verification, repair_and_verify, hard_gate_failed, review_raised,
  decided, reviewed_by, hard_gate_passed, round, rounds, developed, first_part, run,
}
use muti_agent.Run.Outcome.{IsOutcome}
use muti_agent.Run.Limits.{WithinLimits}
use muti_agent.Run.Ends.{run-IsOutcome}
use muti_agent.Run.Escapes.{run-escapes}
use muti_agent.Contract.{
  TaskContract, normalize_scope_pattern, normalize_non_empty_text, is_task_id,
  validate_scope_patterns, validate_non_empty_items, normalize_objective, validate_scope_boundaries,
  make_contract,
}
use muti_agent.Text.{
  is_space, lstrip, rstrip, strip, text_length, has_char, all_chars, starts_with_char, drop_char,
  split,
}

program : Unit {0}
unfolding change_state repairable terminalize from_review validate_terminal_consistency make_result
    finish finish_with make_handoff is_commit text_length all_chars advance next_evidence
    finish_no_progress repair_raised record_repair repair_once verdict repair_until_patch
    repair_verification_detail judged judge_repair record_verification repair_and_verify
    hard_gate_failed review_raised decided reviewed_by hard_gate_passed round rounds developed
    first_part run
program = tt

contracts : Unit {0}
unfolding is_space lstrip rstrip strip text_length has_char all_chars starts_with_char drop_char
    split normalize_scope_pattern normalize_non_empty_text is_task_id traverse
    validate_scope_patterns validate_non_empty_items normalize_objective validate_scope_boundaries
    make_contract
contracts = tt

abbrev report : FailureReport
report = record { failure_type = test_failure; message = "failed"; retryable = true; evidence = [] }

abbrev packet : ContextPacket
packet = record {
  repository_summary_version = "v1";
  repository_head = "0123456789012345678901234567890123456789";
  selected_files = [];
}

-- The workspace is the number of patches in it; two make the tests pass.
abbrev agents : Agents ℕ
agents = record {
  task = contract "a";
  developer_context = λ _. gives packet;
  reviewer_context = λ _. gives packet;
  develop = λ w. (suc w, gives (record { stop_reason = model_stop; stop_evidence = [] }));
  verify = λ w. (w, record { passed = ltb 1 w; failure_reports = report ∷ [] });
  review = λ w v. (w, gives (record { decision = pass; evidence = [] }));
  repair = λ n failures handoff w. (
    suc w,
    gives (record { attempt = n; stop_reason = stop; final_message = ""; progress = none }),
  );
  changed_files = λ w. "src/a.py" ∷ [];
  head_commit = λ w. "0123456789012345678901234567890123456789";
  patch_hash = λ w. if ltb 1 w then "2" else "1";
  failure_signature = λ failures. "s";
  failure_hint = λ failures. none;
  context_state_is_valid = λ p w. true;
  repair_evidence = λ r. [];
  no_patch_evidence = λ r. [];
  str = λ n. "1";
}

limits : WithinLimits agents
unfolding is_commit text_length all_chars
limits = record {
  explains = λ n failures handoff w after reports e. ground arith;
  fits = record {
    some_criterion = omega arith;
    criteria = omega arith;
    commands = omega arith;
    writable = omega arith;
    readonly = omega arith;
  };
  few_changes = λ w. omega arith;
  commit = λ w. refl;
  hinted = λ failures. refl;
  state = λ p w. refl;
  developer_message = λ w after message e. ground arith;
  stop_lines = λ w after result e. ground arith;
  review_message = λ w after v message e. ground arith;
  repair_message = λ n failures handoff w after message e. ground arith;
}

attempts_of : Result RunError SingleTaskRunResult → Option ℕ
attempts_of (ok r) = some r.repair_attempts
attempts_of (err _) = none

run-agents : attempts_of (run agents 2 false 0) ≡ some 1
unfolding program attempts_of
run-agents = refl

run-IsOutcome_example : (r : SingleTaskRunResult) × (run agents 2 false 0 ≡ ok r) × IsOutcome 2 r
run-IsOutcome_example = run-IsOutcome agents 2 limits false 0

-- A task of 33 acceptance criteria.
abbrev broad : TaskContract
broad = record (contract "a") {
  acceptance_criteria =
      "c1" ∷ "c2" ∷ "c3" ∷ "c4" ∷ "c5" ∷ "c6" ∷ "c7" ∷ "c8" ∷ "c9" ∷ "c10" ∷ "c11" ∷ "c12" ∷ "c13"
      ∷ "c14" ∷ "c15" ∷ "c16" ∷ "c17" ∷ "c18" ∷ "c19" ∷ "c20" ∷ "c21" ∷ "c22" ∷ "c23" ∷ "c24"
      ∷ "c25" ∷ "c26" ∷ "c27" ∷ "c28" ∷ "c29" ∷ "c30" ∷ "c31" ∷ "c32" ∷ "c33" ∷ [];
}

abbrev broad_agents : Agents ℕ
broad_agents = record agents { task = broad }

make_contract-broad : make_contract broad ≡ ok broad
unfolding contracts
make_contract-broad = refl

passed-broad : (broad_agents.verify 0).1.passed ≡ false
passed-broad = refl

is_nil-broad : is_nil (repairable (broad_agents.verify 0).1.failure_reports) ≡ false
unfolding repairable
is_nil-broad = refl

run-escapes_example : run broad_agents 2 true 0 ≡ err invalid_handoff
run-escapes_example =
    run-escapes broad_agents 2 (omega arith) 0 (omega arith) passed-broad is_nil-broad
