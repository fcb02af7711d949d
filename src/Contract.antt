-- ===== src/Contract.antt =====
-- backend/app/models/task.py: the validators of TaskContract. Pydantic runs the validators of the
-- fields in order and that of the model last, and raises one ValidationError with what they
-- raised; `err` holds the first.
pub mod Laws
use Prim.Native.Char.{code}
use muti_agent.Prelude.{
  ℕ, String, String_eq, Nat_eq, ◌==◌, Bool, true, false, not, ◌&&◌, ◌||◌, List, [], ◌∷◌, any, elem,
  distinct, leb, ltb, length,
}
use muti_agent.Result.{Result, ok, err, ◌>>=◌, ◌>>◌, raise_if, traverse}
use muti_agent.Text.{
  is_empty, strip, text_length, has_char, all_chars, starts_with_char, drop_char, split,
}

pub data ContractError : Type 0 where
  empty_pattern absolute_pattern backslash drive_prefix traversal whole_repository : ContractError
  empty_text duplicates overlap : ContractError
  bad_task_id bad_length bad_retries : ContractError

pub record TaskContract : Type 0 where
  pub task_id : String
  pub objective : String
  pub readable_files : List String
  pub writable_files : List String
  pub readonly_files : List String
  pub acceptance_criteria : List String
  pub verification_commands : List String
  pub max_retries : ℕ

unfoldable pub normalize_scope_pattern : String → Result ContractError String
normalize_scope_pattern value = do
  let pattern' = strip value
  raise_if (is_empty pattern') empty_pattern
  raise_if (starts_with_char b'/' pattern' || starts_with_char b'\\' pattern') absolute_pattern
  raise_if (has_char b'\\' pattern') backslash
  raise_if (leb 2 (text_length pattern') && starts_with_char b':' (drop_char pattern')) drive_prefix
  raise_if (elem ".." (split b'/' pattern')) traversal
  raise_if (pattern' == ".") whole_repository
  ok pattern'

unfoldable pub normalize_non_empty_text : String → Result ContractError String
normalize_non_empty_text value = do
  let normalized = strip value
  raise_if (is_empty normalized) empty_text
  ok normalized

is_alphanumeric : ℕ → Bool
is_alphanumeric c = leb b'0' c && leb c b'9' || leb b'A' c && leb c b'Z' || leb b'a' c && leb c b'z'

is_id_char : ℕ → Bool
unfolding is_alphanumeric
is_id_char c = is_alphanumeric c || c == b'.' || c == b'_' || c == b'-'

first_char : (ℕ → Bool) → String → Bool
first_char test String.[] = false
first_char test (String.◌∷◌ c s) = test (code c)

-- The pattern `^[A-Za-z0-9][A-Za-z0-9._-]*$`.
unfoldable pub matches_task_id : String → Bool
unfolding is_alphanumeric is_id_char first_char
matches_task_id s = first_char is_alphanumeric s && all_chars is_id_char s

-- Between 1 and 128 characters of the pattern.
unfoldable pub is_task_id : String → Bool
unfolding matches_task_id
is_task_id s = leb 1 (text_length s) && leb (text_length s) 128 && matches_task_id s

unfoldable pub validate_scope_patterns : List String → Result ContractError (List String)
validate_scope_patterns values = do
  normalized ← traverse normalize_scope_pattern values
  raise_if (not (distinct normalized)) duplicates
  ok normalized

unfoldable pub validate_non_empty_items : List String → Result ContractError (List String)
validate_non_empty_items values = do
  normalized ← traverse normalize_non_empty_text values
  raise_if (not (distinct normalized)) duplicates
  ok normalized

unfoldable pub normalize_objective : String → Result ContractError String
unfolding normalize_non_empty_text
normalize_objective = normalize_non_empty_text

-- `set(self.writable_files) & set(self.readonly_files)` is not empty.
unfoldable pub validate_scope_boundaries : TaskContract → Result ContractError TaskContract
validate_scope_boundaries c = do
  raise_if (any (λ path. elem path c.readonly_files) c.writable_files) overlap
  ok c

-- `TaskContract(**fields)`.
unfoldable pub make_contract : TaskContract → Result ContractError TaskContract
make_contract c = do
  raise_if (not (is_task_id c.task_id)) bad_task_id
  raise_if (not (leb 1 (text_length c.objective) && leb (text_length c.objective) 4000)) bad_length
  objective ← normalize_objective c.objective
  readable ← validate_scope_patterns c.readable_files
  raise_if (ltb (length c.writable_files) 1) bad_length
  writable ← validate_scope_patterns c.writable_files
  readonly ← validate_scope_patterns c.readonly_files
  raise_if (ltb (length c.acceptance_criteria) 1) bad_length
  criteria ← validate_non_empty_items c.acceptance_criteria
  raise_if (ltb (length c.verification_commands) 1) bad_length
  commands ← validate_non_empty_items c.verification_commands
  raise_if (ltb 5 c.max_retries) bad_retries
  validate_scope_boundaries (record {
    task_id = c.task_id;
    objective = objective;
    readable_files = readable;
    writable_files = writable;
    readonly_files = readonly;
    acceptance_criteria = criteria;
    verification_commands = commands;
    max_retries = c.max_retries;
  })
