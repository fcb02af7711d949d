-- ===== src/Contract/Laws.antt =====
-- What the validators of TaskContract establish.
use muti_agent.Prelude.{
  ◌≤◌, ◌≡◌, String, String_eq, Nat_eq, true, false, List, [], ◌∷◌, any-false, elem, arith, length,
}
use muti_agent.Result.{Result, ok, traverse}
use muti_agent.Text.{strip, text_length}
use muti_agent.Text.Laws.{strip-strip, text_length-strip-le, text_length-pos}
use muti_agent.Contract.{
  ContractError, TaskContract, normalize_scope_pattern, normalize_non_empty_text,
  validate_scope_patterns, validate_non_empty_items, normalize_objective, validate_scope_boundaries,
  make_contract,
}

-- Normalizing again changes nothing.
pub normalize_scope_pattern-fixed :
    (value p : String) → normalize_scope_pattern value ≡ ok p → normalize_scope_pattern p ≡ ok p
unfolding normalize_scope_pattern
normalize_scope_pattern-fixed value p h = ground (arith, strip-strip value)

pub normalize_non_empty_text-fixed :
    (value p : String) → normalize_non_empty_text value ≡ ok p → normalize_non_empty_text p ≡ ok p
unfolding normalize_non_empty_text
normalize_non_empty_text-fixed value p h = ground (arith, strip-strip value)

pub normalize_non_empty_text-length :
    (value p : String)
    → normalize_non_empty_text value ≡ ok p
    → (1 ≤ text_length p) × (text_length p ≤ text_length value)
unfolding normalize_non_empty_text
normalize_non_empty_text-length value p h =
    ground (arith, text_length-strip-le value, text_length-pos (strip value))

module _ (f : String → Result ContractError String)
    (fixed : (v p : String) → f v ≡ ok p → f p ≡ ok p) where
  traverse-fixed : (vs ps : List String) → traverse f vs ≡ ok ps → traverse f ps ≡ ok ps
  unfolding traverse
  traverse-fixed [] ps h = ground arith
  traverse-fixed (v ∷ vs) [] h = ground arith
  traverse-fixed (v ∷ vs) (p ∷ ps) h = ground (arith, traverse-fixed vs ps, fixed v p)

traverse-length :
    (f : String → Result ContractError String) (vs ps : List String)
    → traverse f vs ≡ ok ps
    → length ps ≡ length vs
unfolding traverse
traverse-length f [] ps h = ground arith
traverse-length f (v ∷ vs) [] h = ground arith
traverse-length f (v ∷ vs) (p ∷ ps) h = ground (arith, traverse-length f vs ps)

validate_scope_patterns-fixed :
    (vs ps : List String)
    → validate_scope_patterns vs ≡ ok ps
    → (validate_scope_patterns ps ≡ ok ps) × (length ps ≡ length vs)
unfolding validate_scope_patterns
validate_scope_patterns-fixed vs ps h = ground (
  arith,
  traverse-fixed normalize_scope_pattern normalize_scope_pattern-fixed vs ps,
  traverse-length normalize_scope_pattern vs ps,
)

validate_non_empty_items-fixed :
    (vs ps : List String)
    → validate_non_empty_items vs ≡ ok ps
    → (validate_non_empty_items ps ≡ ok ps) × (length ps ≡ length vs)
unfolding validate_non_empty_items
validate_non_empty_items-fixed vs ps h = ground (
  arith,
  traverse-fixed normalize_non_empty_text normalize_non_empty_text-fixed vs ps,
  traverse-length normalize_non_empty_text vs ps,
)

-- Validating a contract that make_contract returned gives that contract again, unchanged.
pub make_contract-fixed : (raw c : TaskContract) → make_contract raw ≡ ok c → make_contract c ≡ ok c
unfolding make_contract validate_scope_boundaries normalize_objective
make_contract-fixed raw c h = ground (
  arith,
  validate_scope_patterns-fixed raw.readable_files c.readable_files,
  validate_scope_patterns-fixed raw.writable_files c.writable_files,
  validate_scope_patterns-fixed raw.readonly_files c.readonly_files,
  validate_non_empty_items-fixed raw.acceptance_criteria c.acceptance_criteria,
  validate_non_empty_items-fixed raw.verification_commands c.verification_commands,
  normalize_non_empty_text-fixed raw.objective c.objective,
  normalize_non_empty_text-length raw.objective c.objective,
)

-- In a contract that make_contract returned, a writable pattern is not a read-only pattern.
pub make_contract-disjoint :
    (raw c : TaskContract) (path : String)
    → make_contract raw ≡ ok c
    → elem path c.writable_files ≡ true
    → elem path c.readonly_files ≡ false
unfolding make_contract validate_scope_boundaries
make_contract-disjoint raw c path h m =
    ground (arith, any-false (λ p. elem p c.readonly_files) c.writable_files path)
