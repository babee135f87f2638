-- ===== src/Runtime/TaskJournal/Store.antt =====
-- The files of src/agent_stack/runtime/task_journal.py: creation, reading and the advance of a journal.
-- The directories above the journals' are there, and `os.replace` does not fail but on a directory.
use mathlib.Core.Option
use agent_workflow_pack.Canonical.{canonical_json, digest}
use agent_workflow_pack.Io.{Io, asks, lift, pure, ◌>>=◌, ◌>>◌}
use agent_workflow_pack.Json.{
  Fields, Value, arr, as_text, end, field, get, lookup, nil, null, num, obj, put, text,
}
use agent_workflow_pack.Platform.{Platform}
use agent_workflow_pack.Prelude.{
  Bool, Option, String, false, if◌then◌else◌, leb, none, some, ℕ, ◌==◌,
}
use agent_workflow_pack.Reconcile.Files.{
  FileNode, Tree, absent, directory, is_absent, is_directory, regular, special, symlink,
}
use agent_workflow_pack.Result.{Result, err, key_error, ok, os_error, present, require}
use agent_workflow_pack.Runtime.TaskJournal.{
  is_some, journal_failure, phase_rank, phases, rank_of, validate_fields,
}
use agent_workflow_pack.Runtime.TaskJournal.Read.{journal_path, journal_root}

abbrev pub write_node : String → FileNode → Io Tree (Unit {0})
write_node path n tree = (ok tt, record tree { node = λ k. if k == path then n else tree.node k })

-- `path.parent.mkdir(parents=True, exist_ok=True)` and the test for a link: of a link that leads nowhere the source
-- raises `FileExistsError`, here it has the failure of a link.
unfoldable pub make_root : Io Tree (Unit {0})
make_root tree = elim (tree.node journal_root) [
  | directory m ↦ (ok tt, tree)
  | absent ↦ write_node journal_root (directory 493) tree
  | symlink ↦ (err (journal_failure "task transaction root is a symlink"), tree)
  | special ↦ (err os_error, tree)
  | regular m s ↦ (err os_error, tree)
]

-- `os.replace(temporary, path)` of a file with the mode 0600
unfoldable pub replace_journal : String → String → Io Tree (Unit {0})
replace_journal path payload tree =
    if is_directory (tree.node path)
    then (err os_error, tree)
    else write_node path (regular 384 payload) tree

-- The document of a new journal.
abbrev pub planned_document : String → String → String → String → Fields → String → Fields
planned_document transaction_id operation task_id task_ref header binding =
    field "schema_id" (text "agent-workflow.task-transaction") (
      field "schema_version" (num 1) (
        field "transaction_id" (text transaction_id) (
          field "operation" (text operation) (
            field "task_id" (text task_id) (
              field "task_ref" (text task_ref) (
                field "immutable_header" (obj header) (
                  field "journal_binding_digest" (text binding) (
                    field "phase" (text "planned") (
                      field "outcome" null (
                        field "diagnostics" (arr nil)
                          (field "rollback_state" (obj end) end)))))))))))

-- `candidate[k] = v`, where there is a value
abbrev pub put_optional : String → Option Value → Fields → Fields
put_optional k none document = document
put_optional k (some v) document = put k v document

-- The candidate of an advance.
unfoldable pub advanced : Fields → String → Option String → Option Fields → Fields
advanced document phase outcome rollback_state =
    put_optional "rollback_state" (Option.map obj rollback_state)
      (put_optional "outcome" (Option.map text outcome) (put "phase" (text phase) document))

-- `phase in _PHASES[operation]`, and its rank is not below the current one.
abbrev pub not_backward : Option ℕ → ℕ → Bool
not_backward none current = false
not_backward (some rank) current = leb current rank

-- The identity of a document whose fields are checked.
abbrev pub text_of : Fields → String → Result String
text_of document k = present (as_text (get document k)) key_error

module _ (py : Platform) where
  -- `_atomic_json`
  unfoldable pub atomic_json : String → Fields → Io Tree (Unit {0})
  atomic_json path document = do
    make_root
    payload ← lift (canonical_json py (obj document))
    replace_journal path payload

  unfoldable pub create_task_journal : String → String → String → String → Fields → Io Tree Fields
  create_task_journal transaction_id operation task_id task_ref header = do
    path ← lift (journal_path transaction_id)
    asks (λ tree.
        require (is_absent (tree.node path)) (journal_failure "task transaction already exists"))
    lift (
        require (is_some (lookup phases operation))
          (journal_failure "task journal operation is invalid"))
    binding ← lift (digest py "agent-workflow.task-transaction.v1" (obj header))
    let document = planned_document transaction_id operation task_id task_ref header binding
    _ ← lift (validate_fields py document (some transaction_id))
    atomic_json path document
    pure document

  unfoldable pub advance_task_journal :
      Fields → String → Option String → Option Fields → Io Tree Fields
  advance_task_journal document phase outcome rollback_state = do
    current ← lift (validate_fields py document none)
    operation ← lift (text_of current "operation")
    rank ← lift (phase_rank current)
    lift (
        require (not_backward (rank_of operation phase) rank)
          (journal_failure "task journal phase would move backward"))
    let candidate = advanced current phase outcome rollback_state
    transaction_id ← lift (text_of candidate "transaction_id")
    checked ← lift (validate_fields py candidate (some transaction_id))
    path ← lift (journal_path transaction_id)
    atomic_json path checked
    pure checked
