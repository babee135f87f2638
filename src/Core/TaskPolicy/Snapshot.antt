-- ===== src/Core/TaskPolicy/Snapshot.antt =====
-- The task snapshot of src/agent_stack/core/task_policy.py: `_task_facts` and
-- `_validate_snapshot_collections`.
use agent_workflow_pack.Canonical.{normalize_mode}
use agent_workflow_pack.Core.TaskPolicy.{
  TaskFact, check_in, is_bool, is_int, non_archived_statuses, policy_array, policy_mapping,
  policy_path, policy_sha256, policy_string, policy_uuid, schema_failure, surface_pins,
}
use agent_workflow_pack.Json.{Fields, Value, get, has_fields, int, pos}
use agent_workflow_pack.Platform.{Platform}
use agent_workflow_pack.Prelude.{Bool, List, String, [], false, mem, true, ◌||◌, ◌∷◌}
use agent_workflow_pack.Result.{
  Result, catching, map_result, ok, reject, require, traverse, ◌>>=◌, ◌>>◌,
}

abbrev pub task_fields : List String
task_fields =
    "task_id" ∷ "admission_task_ref" ∷ "current_path" ∷ "source_role" ∷ "target_role"
    ∷ "integration_byte_hash" ∷ "integration_mode" ∷ "integration_schema_id"
    ∷ "integration_schema_version" ∷ "lifecycle_status" ∷ "revision" ∷ "mode"
    ∷ "task_contract_digest" ∷ "task_contract_surfaces" ∷ []

abbrev pub task_roles : List String
task_roles = "absent" ∷ "active" ∷ "archive" ∷ []

abbrev pub task_modes : List String
task_modes = "trellis-native" ∷ "speckit-superpowers" ∷ []

-- `isinstance(revision, int) and not isinstance(revision, bool) and revision >= 0`
abbrev pub is_natural : Value → Bool
is_natural (int (pos n)) = true
is_natural _ = false

abbrev pub metadata_fields : List String
metadata_fields =
    "path" ∷ "byte_hash" ∷ "mode" ∷ "parser_id" ∷ "parser_version" ∷ "classifier_id"
    ∷ "classifier_version" ∷ "parsed_task_refs" ∷ "semantic_role" ∷ "classification" ∷ []

abbrev pub journal_fields : List String
journal_fields =
    "journal_path" ∷ "byte_hash" ∷ "mode" ∷ "schema_id" ∷ "schema_version" ∷ "operation" ∷ "phase"
    ∷ "task_id" ∷ "task_ref" ∷ "terminal" ∷ []

module _ (py : Platform) where
  -- One record of the snapshot, before the comparison with the others.
  unfoldable pub task_fact : Value → Result TaskFact
  task_fact raw = do
    task ← policy_mapping raw
    require (has_fields task task_fields)
        (schema_failure "task snapshot record fields are not closed")
    task_id ← policy_uuid (get task "task_id")
    current_path ← policy_path py (get task "current_path")
    _ ← policy_string (get task "admission_task_ref")
    check_in task_roles (get task "source_role")
        (schema_failure "task source/target roles are invalid")
    check_in task_roles (get task "target_role")
        (schema_failure "task source/target roles are invalid")
    _ ← policy_sha256 (get task "integration_byte_hash")
    _ ←
        catching (normalize_mode py (get task "integration_mode"))
          (schema_failure "integration mode is invalid")
    _ ← policy_string (get task "integration_schema_id")
    require (is_int (get task "integration_schema_version"))
        (schema_failure "integration schema version must be an integer")
    status ← policy_string (get task "lifecycle_status")
    require (mem status ("archived" ∷ non_archived_statuses))
        (schema_failure "task lifecycle status is invalid")
    require (is_natural (get task "revision"))
        (schema_failure "task revision must be a nonnegative integer")
    mode ← policy_string (get task "mode")
    require (mem mode task_modes) (schema_failure "task mode is invalid")
    _ ← policy_sha256 (get task "task_contract_digest")
    pins ← surface_pins (get task "task_contract_surfaces")
    ok (record {
      task_id = task_id;
      current_path = current_path;
      lifecycle_status = status;
      mode = mode;
      pinned_surfaces = pins;
    })

  -- The loop of `_task_facts`, with the identities and the paths so far.
  unfoldable pub task_facts_from : List String → List String → List Value → Result (List TaskFact)
  task_facts_from ids paths [] = ok []
  task_facts_from ids paths (raw ∷ rest) = do
    fact ← task_fact raw
    reject (mem fact.task_id ids || mem fact.current_path paths)
        (schema_failure "task identity or current path is duplicated")
    map_result (λ facts. fact ∷ facts)
        (task_facts_from (fact.task_id ∷ ids) (fact.current_path ∷ paths) rest)

  unfoldable pub task_facts : Fields → Result (List TaskFact)
  task_facts snapshot = do raws ← policy_array (get snapshot "tasks"); task_facts_from [] [] raws

  abbrev pub check_metadata : Value → Result (Unit {0})
  check_metadata raw = do
    metadata ← policy_mapping raw
    require (has_fields metadata metadata_fields)
        (schema_failure "metadata snapshot record fields are not closed")
    _ ← policy_path py (get metadata "path")
    _ ← policy_sha256 (get metadata "byte_hash")
    ok tt

  abbrev pub check_journal_record : Value → Result (Unit {0})
  check_journal_record raw = do
    journal ← policy_mapping raw
    require (has_fields journal journal_fields)
        (schema_failure "task-journal snapshot record fields are not closed")
    _ ← policy_path py (get journal "journal_path")
    _ ← policy_sha256 (get journal "byte_hash")
    _ ← policy_uuid (get journal "task_id")
    require (is_bool (get journal "terminal"))
        (schema_failure "task journal terminal flag must be boolean")

  unfoldable pub validate_snapshot_collections : Fields → Result (Unit {0})
  validate_snapshot_collections snapshot = do
    _ ← policy_sha256 (get snapshot "source_layout_digest")
    _ ← policy_sha256 (get snapshot "target_layout_digest")
    _ ← policy_sha256 (get snapshot "source_schema_bundle_digest")
    _ ← policy_sha256 (get snapshot "target_schema_bundle_digest")
    metadata ← policy_array (get snapshot "metadata")
    _ ← traverse check_metadata metadata
    journals ← policy_array (get snapshot "task_journals")
    _ ← traverse check_journal_record journals
    ok tt
