-- ===== src/Scope/Policy/Conflict.antt =====
-- backend/app/models/conflict.py and the fingerprint of backend/app/runtime/integration_policy.py: the
-- evidence of a merge conflict.
use muti_agent.Prelude.{
  ℕ, String, String_eq, Nat_eq, Eq, ◌==◌, Bool, true, false, ◌&&◌, List, [], ◌∷◌, map,
  if◌then◌else◌,
}

pub data MergeConflictStageSide : Type 0 where
  base integration task_side : MergeConflictStageSide

pub data MergeConflictStageShape : Type 0 where
  three_way add_add modify_delete delete_modify complex : MergeConflictStageShape

pub record MergeConflictStage : Type 0 where
  pub stage : ℕ
  pub side : MergeConflictStageSide
  pub mode : String
  pub object_id : String

pub record MergeConflictFile : Type 0 where
  pub path : String
  pub stages : List MergeConflictStage

-- Without the messages and the raw text of Git, which the policy does not read.
pub record MergeConflictEvidence : Type 0 where
  pub integration_head : String
  pub task_commit : String
  pub conflict_ref : String
  pub marker_commit : String
  pub conflicted_tree : String
  pub conflicting_paths : List String
  pub conflict_types : List String
  pub files : List MergeConflictFile

abbrev pub same_list : {A : Type 0} ⦃e : Eq A⦄ → List A → List A → Bool
same_list [] [] = true
same_list (x ∷ xs) (y ∷ ys) = x == y && same_list xs ys
same_list _ _ = false

abbrev pub shape_of : List ℕ → MergeConflictStageShape
shape_of numbers =
    if same_list numbers (1 ∷ 2 ∷ 3 ∷ [])
    then three_way
    else if same_list numbers (2 ∷ 3 ∷ [])
    then add_add
    else if same_list numbers (1 ∷ 2 ∷ [])
    then modify_delete
    else if same_list numbers (1 ∷ 3 ∷ [])
    then delete_modify
    else complex

unfoldable pub stage_shape : MergeConflictFile → MergeConflictStageShape
stage_shape file = shape_of (map (λ s. s.stage) file.stages)

abbrev pub shape_value : MergeConflictStageShape → String
shape_value three_way = "THREE_WAY"
shape_value add_add = "ADD_ADD"
shape_value modify_delete = "MODIFY_DELETE"
shape_value delete_modify = "DELETE_MODIFY"
shape_value complex = "COMPLEX"

abbrev pub is_three_way : MergeConflictStageShape → Bool
is_three_way three_way = true
is_three_way _ = false

-- The structured facts of conflict_evidence_fingerprint.
pub record FingerprintPayload : Type 0 where
  pub integration_head : String
  pub task_commit : String
  pub conflict_ref : String
  pub marker_commit : String
  pub conflicted_tree : String
  pub conflict_types : List String
  pub files : List (String × MergeConflictStageShape × List MergeConflictStage)

unfoldable pub conflict_evidence_fingerprint :
    (FingerprintPayload → String) → MergeConflictEvidence → String
conflict_evidence_fingerprint digest e = digest (record {
  integration_head = e.integration_head;
  task_commit = e.task_commit;
  conflict_ref = e.conflict_ref;
  marker_commit = e.marker_commit;
  conflicted_tree = e.conflicted_tree;
  conflict_types = e.conflict_types;
  files = map (λ f. (f.path, stage_shape f, f.stages)) e.files;
})
