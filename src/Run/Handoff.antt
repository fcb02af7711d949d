-- ===== src/Run/Handoff.antt =====
-- RepairHandoff of backend/app/models/repair.py as _repair_handoff of
-- backend/app/runtime/orchestrator.py builds it. The relevant paths, which are cut at 16, and the
-- digests of the failures, which are cut to the limits of RepairFailureDigest, are left out, for
-- they always pass; so are the identifier and the objective, which TaskContract limits alike.
use muti_agent.Prelude.{
  String, Bool, true, false, not, ◌&&◌, ◌||◌, Option, none, some, List, length, leb, ltb, ◌≡◌, ◌≤◌,
  arith,
}
use muti_agent.Result.{Result, ok, ◌>>◌, raise_if}
use muti_agent.Text.{text_length, all_chars}
use muti_agent.Contract.{TaskContract}
use muti_agent.Run.{RunError, invalid_handoff, FailureReport, is_nil}

pub record RepairHandoff : Type 0 where
  pub repository_head : String
  pub acceptance_criteria : List String
  pub verification_commands : List String
  pub writable_files : List String
  pub readonly_files : List String
  pub changed_files : List String
  pub suspected : Option (String × String)
  pub failures : List FailureReport

-- The pattern `^[0-9a-f]{40,64}$`.
unfoldable pub is_commit : String → Bool
is_commit head =
    leb 40 (text_length head)
    && leb (text_length head) 64
    && all_chars (λ c. leb b'0' c && leb c b'9' || leb b'a' c && leb c b'f') head

-- The path and the symbol of the hint.
abbrev pub fits_hint : Option (String × String) → Bool
fits_hint none = true
fits_hint (some (path, symbol)) = leb (text_length path) 500 && leb (text_length symbol) 256

-- `RepairHandoff(**fields)`
unfoldable pub make_handoff : RepairHandoff → Result RunError RepairHandoff
make_handoff h = do
  raise_if (not (is_commit h.repository_head)) invalid_handoff
  raise_if (ltb (length h.acceptance_criteria) 1 || ltb 32 (length h.acceptance_criteria))
      invalid_handoff
  raise_if (ltb 32 (length h.verification_commands)) invalid_handoff
  raise_if (ltb 256 (length h.writable_files)) invalid_handoff
  raise_if (ltb 256 (length h.readonly_files)) invalid_handoff
  raise_if (ltb 256 (length h.changed_files)) invalid_handoff
  raise_if (not (fits_hint h.suspected)) invalid_handoff
  raise_if (is_nil h.failures) invalid_handoff
  ok h

-- The fields that _repair_handoff fills in.
abbrev pub handoff_of :
    TaskContract
    → String
    → List String
    → Option (String × String)
    → List FailureReport
    → RepairHandoff
handoff_of task head changed hint failures = record {
  repository_head = head;
  acceptance_criteria = task.acceptance_criteria;
  verification_commands = task.verification_commands;
  writable_files = task.writable_files;
  readonly_files = task.readonly_files;
  changed_files = changed;
  suspected = hint;
  failures = failures;
}

-- A task within the limits of a handoff, which TaskContract does not set.
pub record FitsHandoff (task : TaskContract) : Type 0 where
  pub some_criterion : 1 ≤ length task.acceptance_criteria
  pub criteria : length task.acceptance_criteria ≤ 32
  pub commands : length task.verification_commands ≤ 32
  pub writable : length task.writable_files ≤ 256
  pub readonly : length task.readonly_files ≤ 256

pub make_handoff-ok :
    (task : TaskContract) (head : String) (changed : List String) (hint : Option (String × String))
    (failures : List FailureReport)
    → FitsHandoff task
    → is_commit head ≡ true
    → length changed ≤ 256
    → fits_hint hint ≡ true
    → is_nil failures ≡ false
    → make_handoff (handoff_of task head changed hint failures)
      ≡ ok (handoff_of task head changed hint failures)
unfolding make_handoff
make_handoff-ok task head changed hint failures fits commit few hinted some_failure = ground arith
