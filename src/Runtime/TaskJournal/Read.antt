-- ===== src/Runtime/TaskJournal/Read.antt =====
-- The reading of a journal, and of the unfinished ones, of src/agent_stack/runtime/task_journal.py.
use Prim.Native.String.{◌++◌ as append}
use mathlib.Core.Option
use Prim.Native.Char.{Char}
use agent_workflow_pack.Canonical.{canonical_json}
use agent_workflow_pack.Canonical.Chars.{chars, of_chars}
use agent_workflow_pack.Json.{Fields, Value, eq_value, get, text}
use agent_workflow_pack.Platform.{Platform}
use agent_workflow_pack.Prelude.{
  List, Option, String, [], if◌then◌else◌, keep_if, none, not, some, sorted_texts, ◌==◌, ◌∷◌,
}
use agent_workflow_pack.Reconcile.Files.{Tree, absent, directory, regular}
use agent_workflow_pack.Result.{Result, err, map_result, ok, present, require, ◌>>=◌, ◌>>◌}
use agent_workflow_pack.Runtime.TaskJournal.{check_transaction, journal_failure, validate_journal}

abbrev pub journal_root : String
journal_root = ".agent-workflow/task-transactions"

-- `journal_path`: the path under the root.
unfoldable pub journal_path : String → Result String
journal_path transaction_id = do
  check_transaction transaction_id
  ok (append journal_root (append "/" (append transaction_id ".json")))

-- `path.read_bytes()`, where the path is a file and no link
abbrev pub read_text : String → Tree → Result String
read_text path tree = elim (tree.node path) [
  | regular m s ↦ ok s
  | _ ↦ err (journal_failure "task journal is missing or has invalid type")
]

-- The name without its suffix ".json".
abbrev pub drop_json : List Char → Option (List Char)
drop_json [] = none
drop_json (c ∷ cs) =
    let rest = drop_json cs in
    if of_chars (c ∷ cs) == ".json" then some [] else Option.map (λ ds. c ∷ ds) rest

-- `path.stem`, where `path.suffix` is ".json".
abbrev pub json_stem : String → Option String
json_stem name = elim (drop_json (chars name)) [
  | none ↦ none
  | some [] ↦ none
  | some (c ∷ cs) ↦ some (of_chars (c ∷ cs))
]

module _ (py : Platform) where
  -- `json_loads` is `json.loads` of a text, where it is JSON.
  unfoldable pub read_task_journal : (String → Option Value) → String → Tree → Result Fields
  read_task_journal json_loads transaction_id tree = do
    path ← journal_path transaction_id
    payload ← read_text path tree
    document ← present (json_loads payload) (journal_failure "task journal is corrupt")
    canonical ← canonical_json py document
    require (canonical == payload) (journal_failure "task journal is not canonical")
    validate_journal py document (some transaction_id)

  abbrev pub keep_unfinished : Fields → List Fields → List Fields
  keep_unfinished journal journals =
      keep_if (not (eq_value (get journal "phase") (text "complete"))) journal journals

  -- The loop over the sorted names of the directory.
  unfoldable pub journals_from : (String → Option Value) → Tree → List String → Result (List Fields)
  journals_from json_loads tree [] = ok []
  journals_from json_loads tree (name ∷ names) = do
    stem ←
        present (json_stem name) (journal_failure "task transaction root contains an unknown entry")
    journal ← read_task_journal json_loads stem tree
    map_result (keep_unfinished journal) (journals_from json_loads tree names)

  -- `listing` is `directory.iterdir()`, by the names; a link in the place of the directory is not dangling.
  unfoldable pub unfinished_task_journals :
      (String → Option Value) → List String → Tree → Result (List Fields)
  unfinished_task_journals json_loads listing tree = elim (tree.node journal_root) [
    | absent ↦ ok []
    | directory m ↦ journals_from json_loads tree (sorted_texts listing)
    | _ ↦ err (journal_failure "task transaction root has invalid type")
  ]
