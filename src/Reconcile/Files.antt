-- ===== src/Reconcile/Files.antt =====
-- The first half of src/agent_stack/reconcile/cas.py, and `FileState` of
-- src/agent_stack/reconcile/models.py: the complete observed state of a file. A file holds a text, its
-- bytes in UTF-8.
use Prim.Native.Char.{Char}
use agent_workflow_pack.Canonical.{canonical_null, normalize_mode, normalize_path}
use agent_workflow_pack.Canonical.Chars.{chars, of_chars, split}
use agent_workflow_pack.Json.{Value, bool, end, eq_value, field, num, obj, text}
use agent_workflow_pack.Platform.{Platform}
use agent_workflow_pack.Prelude.{
  Bool, List, String, [], false, if◌then◌else◌, is_empty, true, ℕ, ◌++◌, ◌||◌, ◌∷◌,
}
use agent_workflow_pack.Result.{
  Exn, Result, err, failure, map_result, ok, reject, require, ◌>>=◌, ◌>>◌,
}

pub data FileNode : Type 0 where
  absent symlink special : FileNode
  regular : ℕ → String → FileNode
  directory : ℕ → FileNode

-- The files under a root, by their normalized path.
pub record Tree : Type 0 where
  pub real_root : Bool
  pub node : String → FileNode

pub record FileState : Type 0 where
  pub path : String
  pub present_ : Bool
  pub file_type : String
  pub byte_hash : String
  pub mode : String
  pub non_symlink : Bool
  pub managed_block_hash : String

-- `FileState.to_document`
unfoldable pub state_document : FileState → Value
state_document s = obj (
    field "schema_id" (text "agent-workflow.file-state") (
      field "schema_version" (num 1) (
        field "path" (text s.path) (
          field "exists" (bool s.present_) (
            field "file_type" (text s.file_type) (
              field "byte_hash" (text s.byte_hash) (
                field "mode" (text s.mode) (
                  field "non_symlink" (bool s.non_symlink)
                    (field "managed_block_hash" (text s.managed_block_hash) end)))))))))

abbrev pub cas_failure : String → Exn
cas_failure message = failure "AWP_FILE_CAS_MISMATCH" message

-- The directories on the way to a path, outermost first.
abbrev pub parents_from : List Char → List (List Char) → List String
parents_from prefix [] = []
parents_from prefix (s ∷ []) = []
parents_from prefix (s ∷ t ∷ rest) =
    let here = if is_empty prefix then s else prefix ++ "/" ∷ s in
    of_chars here ∷ parents_from here (t ∷ rest)

abbrev pub parents : String → List String
parents path = parents_from [] (split "/" (chars path))

abbrev pub is_symlink : FileNode → Bool
is_symlink symlink = true
is_symlink _ = false

abbrev pub is_directory : FileNode → Bool
is_directory (directory m) = true
is_directory _ = false

abbrev pub is_absent : FileNode → Bool
is_absent absent = true
is_absent _ = false

abbrev pub check_parents : Tree → List String → Result (Unit {0})
check_parents tree [] = ok tt
check_parents tree (p ∷ ps) = do
  reject (is_symlink (tree.node p)) (cas_failure "CAS path contains a symlink")
  require (is_absent (tree.node p) || is_directory (tree.node p))
      (cas_failure "CAS path parent is not a directory")
  check_parents tree ps

-- The directory that holds a path is there, and is no link.
abbrev pub parent_available : Tree → List String → Bool
parent_available tree [] = true
parent_available tree (p ∷ []) = is_directory (tree.node p)
parent_available tree (p ∷ q ∷ ps) = parent_available tree (q ∷ ps)

module _ (py : Platform) where
  -- `_target`: the normalized path.
  unfoldable pub target : Tree → String → Result String
  target tree relative_path = do
    require tree.real_root (cas_failure "CAS root is not a real directory")
    normalized ← normalize_path py relative_path
    check_parents tree (parents normalized)
    ok normalized

  -- The state of a node, by its type.
  unfoldable pub state_of : String → String → FileNode → Result FileState
  state_of path managed_block_hash absent = ok (record {
    path = path;
    present_ = false;
    file_type = "absent";
    byte_hash = canonical_null;
    mode = canonical_null;
    non_symlink = true;
    managed_block_hash = managed_block_hash;
  })
  state_of path managed_block_hash symlink = err (cas_failure "CAS target is a symlink")
  state_of path managed_block_hash special = err (cas_failure "CAS target has an unsupported type")
  state_of path managed_block_hash (regular m content) =
      map_result
        (λ mode. record {
          path = path;
          present_ = true;
          file_type = "regular";
          byte_hash = py.sha256 content;
          mode = mode;
          non_symlink = true;
          managed_block_hash = managed_block_hash;
        })
        (normalize_mode py (num m))
  state_of path managed_block_hash (directory m) =
      map_result
        (λ mode. record {
          path = path;
          present_ = true;
          file_type = "directory";
          byte_hash = canonical_null;
          mode = mode;
          non_symlink = true;
          managed_block_hash = managed_block_hash;
        })
        (normalize_mode py (num m))

  unfoldable pub observe_file_state : String → String → Tree → Result FileState
  observe_file_state relative_path managed_block_hash tree = do
    path ← target tree relative_path
    state_of path managed_block_hash (tree.node path)

  unfoldable pub same_state : FileState → FileState → Bool
  same_state a b = eq_value (state_document a) (state_document b)
