-- ===== src/Core/TaskPolicy/Findings.antt =====
-- `_parse_findings` of src/agent_stack/core/task_policy.py.
pub mod Laws
-- The fields of a finding besides its kind and its identity.
use agent_workflow_pack.Core.TaskPolicy.{
  FindingFact, SurfacePin, non_archived_statuses, policy_array, policy_mapping, policy_path,
  policy_string, policy_uuid, schema_failure, surface_pins,
}
use agent_workflow_pack.Json.{Fields, Value, eq_value, find, get, has_fields, num, text}
use agent_workflow_pack.Platform.{Platform}
use agent_workflow_pack.Prelude.{
  Bool, List, Option, String, [], false, if◌then◌else◌, leb_text, mem, none, some, ◌&&◌, ◌==◌, ◌∷◌,
}
use agent_workflow_pack.Result.{Result, map_result, ok, reject, require, traverse, ◌>>=◌, ◌>>◌}

abbrev pub kind_fields : String → Option (List String)
kind_fields kind =
    if kind == "layout-ambiguous"
    then some (
        "normalized_path" ∷ "evidence_class" ∷ "parser_id" ∷ "parser_version" ∷ "evidence_schema_id"
        ∷ "evidence_schema_version" ∷ [])
    else if kind == "unknown-entry"
    then some ("normalized_path" ∷ "root_contract_id" ∷ [])
    else if kind == "collision"
    then some ("normalized_aliases" ∷ "collision_class" ∷ [])
    else if kind == "scan-limit"
    then some ("contract_id" ∷ "limit_kind" ∷ "configured_limit" ∷ [])
    else if kind == "interpretation-conflict"
    then some ("task_id" ∷ "task_ref" ∷ "current_path" ∷ "conflicting_fields" ∷ [])
    else if kind == "unfinished-task-transaction"
    then some ("journal_path" ∷ "task_id" ∷ "task_ref" ∷ "operation" ∷ "phase" ∷ [])
    else if kind == "non-archived-task"
    then some ("task_id" ∷ "current_path" ∷ "lifecycle_status" ∷ "mode" ∷ "pinned_surfaces" ∷ [])
    else if kind == "layout-state-stranded"
    then some ("normalized_path" ∷ "semantic_role" ∷ "source_visibility" ∷ "target_visibility" ∷ [])
    else none

-- `set(finding) == _FINDING_FIELDS[kind]`, where the kind is known
abbrev pub closed_finding : Fields → Option (List String) → Bool
closed_finding finding none = false
closed_finding finding (some names) = has_fields finding ("kind" ∷ "finding_id" ∷ names)

-- `min(aliases) if aliases else None`
unfoldable pub least : List String → Option String
least [] = none
least (x ∷ xs) = elim (least xs) [ none ↦ some x | some y ↦ some (if leb_text x y then x else y) ]

-- `_f(finding.get(k)) if k in finding else None`
abbrev pub optional_field : {A : Type 0} → (Value → Result A) → Option Value → Result (Option A)
optional_field f none = ok none
optional_field f (some v) = map_result (λ a. some a) (f v)

-- The first of the three fields that the finding has.
abbrev pub first_of : Option Value → Option Value → Option Value → Option Value
first_of (some v) o p = some v
first_of none (some v) p = some v
first_of none none p = p

-- What a non-archived task adds.
pub record TaskPart : Type 0 where
  pub status : Option String
  pub part_mode : Option String
  pub pins : List SurfacePin

module _ (py : Platform) where
  abbrev pub finding_path : String → Fields → Result (Option String)
  finding_path kind finding = do
    path ← optional_field (policy_path py) (
        first_of (find finding "current_path") (find finding "journal_path")
          (find finding "normalized_path"))
    if kind == "collision"
        then (do
          raws ← policy_array (get finding "normalized_aliases")
          map_result least (traverse (policy_path py) raws))
        else ok path

  abbrev pub task_part : String → Fields → Result TaskPart
  task_part kind finding =
      if kind == "non-archived-task"
      then (do
        status ← policy_string (get finding "lifecycle_status")
        require (mem status non_archived_statuses)
            (schema_failure "non-archived finding has an archived/invalid status")
        mode ← policy_string (get finding "mode")
        pins ← surface_pins (get finding "pinned_surfaces")
        ok (record { status = some status; part_mode = some mode; pins = pins }))
      else ok (record { status = none; part_mode = none; pins = [] })

  -- One finding, with the identities so far.
  unfoldable pub finding_fact : List String → Value → Result FindingFact
  finding_fact ids raw = do
    finding ← policy_mapping raw
    kind ← policy_string (get finding "kind")
    require (closed_finding finding (kind_fields kind))
        (schema_failure "finding branch fields are not closed")
    finding_id ← policy_string (get finding "finding_id")
    reject (mem finding_id ids) (schema_failure "finding id is duplicated")
    task_id ← optional_field policy_uuid (find finding "task_id")
    path ← finding_path kind finding
    part ← task_part kind finding
    ok (record {
      kind = kind;
      finding_id = finding_id;
      task_id = task_id;
      path = path;
      lifecycle_status = part.status;
      mode = part.part_mode;
      pinned_surfaces = part.pins;
    })

  -- The loop of `_parse_findings`.
  unfoldable pub findings_from : List String → List Value → Result (List FindingFact)
  findings_from ids [] = ok []
  findings_from ids (raw ∷ rest) = do
    fact ← finding_fact ids raw
    map_result (λ facts. fact ∷ facts) (findings_from (fact.finding_id ∷ ids) rest)

  unfoldable pub parse_findings : Fields → Result (List FindingFact)
  parse_findings document = do
    require (has_fields document ("schema_id" ∷ "schema_version" ∷ "findings" ∷ []))
        (schema_failure "task findings fields are not closed")
    require
        (eq_value (get document "schema_id") (text "agent-workflow.task-findings")
          && eq_value (get document "schema_version") (num 1))
        (schema_failure "task findings schema identity/version is invalid")
    raws ← policy_array (get document "findings")
    findings_from [] raws
