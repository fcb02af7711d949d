-- ===== src/Tests/Contract.antt =====
-- backend/app/models/task.py on a contract with blanks round its texts.
use muti_agent.Prelude.{◌≡◌, refl, false, [], ◌∷◌, elem, String_eq}
use muti_agent.Result.{ok, err, traverse}
use muti_agent.Text.{
  is_space, lstrip, rstrip, strip, text_length, has_char, all_chars, starts_with_char, drop_char,
  split,
}
use muti_agent.Contract.{
  TaskContract, traversal, drive_prefix, normalize_scope_pattern, normalize_non_empty_text,
  is_task_id, validate_scope_patterns, validate_non_empty_items, normalize_objective,
  validate_scope_boundaries, make_contract,
}
use muti_agent.Contract.Laws.{make_contract-fixed, make_contract-disjoint}

program : Unit {0}
unfolding make_contract normalize_scope_pattern normalize_non_empty_text is_task_id
    validate_scope_patterns validate_non_empty_items normalize_objective validate_scope_boundaries
    traverse is_space lstrip rstrip strip text_length has_char all_chars starts_with_char drop_char
    split
program = tt

abbrev raw : TaskContract
raw = record {
  task_id = "parser-1";
  objective = " write the parser ";
  readable_files = "docs/*.md" ∷ [];
  writable_files = " src/parser.py" ∷ "src/lexer.py" ∷ [];
  readonly_files = "tests/**" ∷ [];
  acceptance_criteria = "parses all samples" ∷ [];
  verification_commands = "pytest" ∷ [];
  max_retries = 2;
}

abbrev clean : TaskContract
clean = record raw {
  objective = "write the parser";
  writable_files = "src/parser.py" ∷ "src/lexer.py" ∷ [];
}

make_contract-raw : make_contract raw ≡ ok clean
unfolding program
make_contract-raw = refl

normalize_scope_pattern-traversal : normalize_scope_pattern "src/../x" ≡ err traversal
unfolding program
normalize_scope_pattern-traversal = refl

normalize_scope_pattern-drive : normalize_scope_pattern "C:x" ≡ err drive_prefix
unfolding program
normalize_scope_pattern-drive = refl

normalize_scope_pattern-blank : normalize_scope_pattern " src/a.py" ≡ ok "src/a.py"
unfolding program
normalize_scope_pattern-blank = refl

make_contract-fixed_example : make_contract clean ≡ ok clean
make_contract-fixed_example = make_contract-fixed raw clean make_contract-raw

make_contract-disjoint_example : elem "src/lexer.py" clean.readonly_files ≡ false
make_contract-disjoint_example =
    make_contract-disjoint raw clean "src/lexer.py" make_contract-raw refl
