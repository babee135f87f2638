-- ===== src/Core/TaskPolicy/Evidence.antt =====
-- `_validated_evidence` of src/agent_stack/core/task_policy.py: a snapshot and findings that agree.
pub mod Laws
use agent_workflow_pack.Canonical.{digest}
use agent_workflow_pack.Core.TaskPolicy.{
  FindingFact, TaskFact, policy_array, policy_sha256, same_pins, schema_failure,
}
use agent_workflow_pack.Core.TaskPolicy.Findings.{parse_findings}
use agent_workflow_pack.Core.TaskPolicy.Snapshot.{task_facts, validate_snapshot_collections}
use agent_workflow_pack.Json.{
  Fields, Value, as_texts, bool, end, eq_value, field, get, has_fields, mem_value, num, obj, text,
}
use agent_workflow_pack.Platform.{Platform}
use agent_workflow_pack.Prelude.{
  Bool, List, Option, String, [], eq_texts, false, if◌then◌else◌, map, none, not, some,
  sorted_texts, ◌&&◌, ◌==◌, ◌||◌, ◌∷◌,
}
use agent_workflow_pack.Result.{Result, ok, present, require, ◌>>=◌, ◌>>◌}

abbrev pub snapshot_fields : List String
snapshot_fields =
    "schema_id" ∷ "schema_version" ∷ "source_layout_digest" ∷ "target_layout_digest"
    ∷ "source_schema_bundle_digest" ∷ "target_schema_bundle_digest" ∷ "tasks" ∷ "metadata"
    ∷ "task_journals" ∷ "finding_ids" ∷ "task_quiescence_digest" ∷ []

-- `del d[k]`
abbrev pub delete : String → Fields → Fields
delete k end = end
delete k (field j v d) = let rest = delete k d in if j == k then rest else field j v rest

-- `tasks.get(task_id)`
abbrev pub task_at : List TaskFact → String → Option TaskFact
task_at [] id = none
task_at (t ∷ tasks) id = if t.task_id == id then some t else task_at tasks id

-- `journals.get(path)`, of the dictionary by `journal_path`: the last record of a path stands.
abbrev pub journal_at : List Value → String → Option Fields
journal_at [] path = none
journal_at (raw ∷ rest) path = elim (journal_at rest path) [
  | some d ↦ some d
  | none ↦ elim raw [
    | obj d ↦ if mem_value (get d "journal_path") (path ∷ []) then some d else none
    | _ ↦ none
  ]
]

-- `finding.task_id or ""`
abbrev pub or_empty : Option String → String
or_empty none = ""
or_empty (some s) = s

abbrev pub is_text_of : Option String → String → Bool
is_text_of none s = false
is_text_of (some t) s = s == t

-- The task is the one that the finding describes.
abbrev pub describes : FindingFact → Option TaskFact → Bool
describes finding none = false
describes finding (some task) =
    is_text_of finding.path task.current_path
    && is_text_of finding.lifecycle_status task.lifecycle_status
    && is_text_of finding.mode task.mode
    && same_pins task.pinned_surfaces finding.pinned_surfaces

-- `journal is not None and journal.get("terminal") is False`
abbrev pub is_open : Option Fields → Bool
is_open none = false
is_open (some journal) = elim (get journal "terminal") [ bool b ↦ not b | _ ↦ false ]

unfoldable pub check_finding : List TaskFact → List Value → FindingFact → Result (Unit {0})
unfolding same_pins
check_finding tasks journals finding = do
  require
      (not (finding.kind == "non-archived-task")
        || describes finding (task_at tasks (or_empty finding.task_id)))
      (schema_failure "non-archived finding disagrees with task snapshot")
  require
      (not (finding.kind == "unfinished-task-transaction")
        || is_open (journal_at journals (or_empty finding.path)))
      (schema_failure "unfinished transaction finding disagrees with journal snapshot")

abbrev pub check_findings : List TaskFact → List Value → List FindingFact → Result (Unit {0})
check_findings tasks journals [] = ok tt
check_findings tasks journals (finding ∷ rest) = do
  check_finding tasks journals finding
  check_findings tasks journals rest

abbrev pub finding_ids : List FindingFact → List String
finding_ids findings = map (λ (f : FindingFact). f.finding_id) findings

unfoldable pub validated_evidence :
    Platform → Fields → Fields → Result (List TaskFact × List FindingFact)
unfolding eq_texts
validated_evidence py snapshot findings_document = do
  require (has_fields snapshot snapshot_fields)
      (schema_failure "task snapshot fields are not closed")
  require
      (eq_value (get snapshot "schema_id") (text "agent-workflow.task-quiescence-snapshot")
        && eq_value (get snapshot "schema_version") (num 1))
      (schema_failure "task snapshot schema identity/version is invalid")
  expected_digest ← policy_sha256 (get snapshot "task_quiescence_digest")
  actual ←
      digest py "agent-workflow.task-quiescence.v1" (obj (delete "task_quiescence_digest" snapshot))
  require (actual == expected_digest)
      (schema_failure "task snapshot digest does not match its canonical projection")
  tasks ← task_facts py snapshot
  validate_snapshot_collections py snapshot
  findings ← parse_findings py findings_document
  raw_ids ← policy_array (get snapshot "finding_ids")
  ids ← present (as_texts raw_ids) (schema_failure "snapshot finding_ids must contain strings")
  require (eq_texts ids (sorted_texts ids) && eq_texts ids (sorted_texts (finding_ids findings)))
      (schema_failure "snapshot and finding identity sets disagree")
  journals ← policy_array (get snapshot "task_journals")
  check_findings tasks journals findings
  ok (tasks, findings)
