-- ===== src/Tests/Policy.antt =====
-- Runs of core/task_policy.py.
use agent_workflow_pack.Canonical.{
  canonical_json, digest, normalize_json_value, normalize_mode, normalize_nfc, normalize_path,
  serialize,
}
use agent_workflow_pack.Canonical.Chars.{decimal, decimal_from, join, split}
use agent_workflow_pack.Core.Impact.{CandidateImpact, SurfaceChange}
use agent_workflow_pack.Core.TaskPolicy.{FindingFact, ambiguous_kinds, same_pins, surface_pins}
use agent_workflow_pack.Core.TaskPolicy.Evidence.{check_finding, validated_evidence}
use agent_workflow_pack.Core.TaskPolicy.Findings.{
  finding_fact, findings_from, least, parse_findings,
}
use agent_workflow_pack.Core.TaskPolicy.Gate.{
  TaskGateResult, blockers_of, change_at, evaluate_task_gate, finding_blocker, gate_result,
  leb_blocker, leb_texts, pin_at, pin_conflict, pins_blocker, task_blocker,
}
use agent_workflow_pack.Core.TaskPolicy.Gate.Open.{evaluate_task_gate-quiescent}
use agent_workflow_pack.Core.TaskPolicy.Gate.Pins.{evaluate_task_gate-pinned}
use agent_workflow_pack.Core.TaskPolicy.Quiescence.{
  WorkspaceTaskState, evaluate_workspace_state_quiescence, quiescence_of,
}
use agent_workflow_pack.Core.TaskPolicy.Quiescence.Laws.{evaluate_workspace_state_quiescence_iff}
use agent_workflow_pack.Core.TaskPolicy.Snapshot.{
  task_fact, task_facts, task_facts_from, validate_snapshot_collections,
}
use agent_workflow_pack.Ident.{is_sha256, is_uuid}
use agent_workflow_pack.Json.{
  Fields, Value, end, eq_value, eq_ℤ, field, list, num, obj, text, texts,
}
use agent_workflow_pack.Prelude.{
  List, String, [], any, eq_texts, false, get_elem?, mem, none, refl, some, true, ◌↔◌, ◌∷◌, ◌≡◌,
}
use agent_workflow_pack.Prelude.Sort.{insert, sorted}
use agent_workflow_pack.Result.{ok}
use agent_workflow_pack.Tests.Samples.{sample_digest, sample_py, sample_uuid, value_of}

abbrev pin : Value
pin =
    list
      (obj (field "surface_id" (text "a") (field "surface_digest" (text sample_digest) end)) ∷ [])

abbrev task : Value
task = obj (
    field "task_id" (text sample_uuid) (
      field "admission_task_ref" (text "ref") (
        field "current_path" (text "tasks/one") (
          field "source_role" (text "active") (
            field "target_role" (text "active") (
              field "integration_byte_hash" (text sample_digest) (
                field "integration_mode" (text "0600") (
                  field "integration_schema_id" (text "schema") (
                    field "integration_schema_version" (num 1) (
                      field "lifecycle_status" (text "active") (
                        field "revision" (num 0) (
                          field "mode" (text "trellis-native") (
                            field "task_contract_digest" (text sample_digest)
                              (field "task_contract_surfaces" pin end))))))))))))))

abbrev snapshot_of : List Value → List String → Fields
snapshot_of tasks ids = field "schema_id" (text "agent-workflow.task-quiescence-snapshot") (
    field "schema_version" (num 1) (
      field "source_layout_digest" (text sample_digest) (
        field "target_layout_digest" (text sample_digest) (
          field "source_schema_bundle_digest" (text sample_digest) (
            field "target_schema_bundle_digest" (text sample_digest) (
              field "tasks" (list tasks) (
                field "metadata" (list []) (
                  field "task_journals" (list []) (
                    field "finding_ids" (texts ids)
                      (field "task_quiescence_digest" (text sample_digest) end))))))))))

abbrev findings_of : List Value → Fields
findings_of raws =
    field "schema_id" (text "agent-workflow.task-findings")
      (field "schema_version" (num 1) (field "findings" (list raws) end))

-- The task is live.
abbrev live : Value
live = obj (
    field "kind" (text "non-archived-task") (
      field "finding_id" (text "f") (
        field "task_id" (text sample_uuid) (
          field "current_path" (text "tasks/one") (
            field "lifecycle_status" (text "active")
              (field "mode" (text "trellis-native") (field "pinned_surfaces" pin end)))))))

abbrev busy_snapshot : Fields
busy_snapshot = snapshot_of (task ∷ []) ("f" ∷ [])

abbrev busy : Fields
busy = findings_of (live ∷ [])

abbrev idle_snapshot : Fields
idle_snapshot = snapshot_of [] []

abbrev idle : Fields
idle = findings_of []

-- Surface "a" is repaired to what the task pins.
abbrev change : SurfaceChange
change = record {
  surface_id = "a";
  change_kind = "repair";
  contract_before_digest = sample_digest;
  observed_before_digest = "other";
  after_digest = sample_digest;
}

abbrev impact : CandidateImpact
impact = record {
  impact_kind = "runtime-visible";
  authority_changes = [];
  surface_changes = change ∷ [];
  contract_changing = false;
  candidate_impact_digest = sample_digest;
}

abbrev no_state : WorkspaceTaskState
no_state = record {
  evaluator_id = "";
  evaluator_version = 0;
  task_quiescence = "";
  evidence_kinds = [];
}

abbrev no_gate : TaskGateResult
no_gate = gate_result "" []

unfoldable busy_state : WorkspaceTaskState
busy_state = value_of no_state (evaluate_workspace_state_quiescence sample_py busy_snapshot busy)

unfoldable idle_state : WorkspaceTaskState
idle_state = value_of no_state (evaluate_workspace_state_quiescence sample_py idle_snapshot idle)

unfoldable idle_gate : TaskGateResult
idle_gate = value_of no_gate (evaluate_task_gate sample_py "init" impact idle_snapshot idle)

unfoldable repair_gate : TaskGateResult
repair_gate = value_of no_gate (evaluate_task_gate sample_py "repair" impact busy_snapshot busy)

unfoldable facts : List FindingFact
facts = value_of [] (parse_findings sample_py busy)

unfoldable fact : FindingFact
fact =
    value_of
      (record {
        kind = "";
        finding_id = "";
        task_id = none;
        path = none;
        lifecycle_status = none;
        mode = none;
        pinned_surfaces = [];
      })
      (finding_fact sample_py [] live)

busy_state_run : evaluate_workspace_state_quiescence sample_py busy_snapshot busy ≡ ok busy_state
unfolding busy_state evaluate_workspace_state_quiescence evaluate_task_gate validated_evidence
    check_finding quiescence_of task_fact task_facts_from task_facts validate_snapshot_collections
    finding_fact findings_from parse_findings surface_pins same_pins least change_at pin_at
    pin_conflict pins_blocker task_blocker finding_blocker blockers_of leb_texts leb_blocker digest
    canonical_json normalize_json_value normalize_nfc normalize_path normalize_mode serialize
    decimal decimal_from sorted insert split join is_uuid is_sha256 eq_texts eq_value eq_ℤ
busy_state_run = refl

idle_state_run : evaluate_workspace_state_quiescence sample_py idle_snapshot idle ≡ ok idle_state
unfolding idle_state evaluate_workspace_state_quiescence evaluate_task_gate validated_evidence
    check_finding quiescence_of task_fact task_facts_from task_facts validate_snapshot_collections
    finding_fact findings_from parse_findings surface_pins same_pins least change_at pin_at
    pin_conflict pins_blocker task_blocker finding_blocker blockers_of leb_texts leb_blocker digest
    canonical_json normalize_json_value normalize_nfc normalize_path normalize_mode serialize
    decimal decimal_from sorted insert split join is_uuid is_sha256 eq_texts eq_value eq_ℤ
idle_state_run = refl

idle_gate_run : evaluate_task_gate sample_py "init" impact idle_snapshot idle ≡ ok idle_gate
unfolding idle_gate evaluate_workspace_state_quiescence evaluate_task_gate validated_evidence
    check_finding quiescence_of task_fact task_facts_from task_facts validate_snapshot_collections
    finding_fact findings_from parse_findings surface_pins same_pins least change_at pin_at
    pin_conflict pins_blocker task_blocker finding_blocker blockers_of leb_texts leb_blocker digest
    canonical_json normalize_json_value normalize_nfc normalize_path normalize_mode serialize
    decimal decimal_from sorted insert split join is_uuid is_sha256 eq_texts eq_value eq_ℤ
idle_gate_run = refl

repair_gate_run : evaluate_task_gate sample_py "repair" impact busy_snapshot busy ≡ ok repair_gate
unfolding repair_gate evaluate_workspace_state_quiescence evaluate_task_gate validated_evidence
    check_finding quiescence_of task_fact task_facts_from task_facts validate_snapshot_collections
    finding_fact findings_from parse_findings surface_pins same_pins least change_at pin_at
    pin_conflict pins_blocker task_blocker finding_blocker blockers_of leb_texts leb_blocker digest
    canonical_json normalize_json_value normalize_nfc normalize_path normalize_mode serialize
    decimal decimal_from sorted insert split join is_uuid is_sha256 eq_texts eq_value eq_ℤ
repair_gate_run = refl

repair_clear : repair_gate.blockers ≡ []
unfolding repair_gate evaluate_workspace_state_quiescence evaluate_task_gate validated_evidence
    check_finding quiescence_of task_fact task_facts_from task_facts validate_snapshot_collections
    finding_fact findings_from parse_findings surface_pins same_pins least change_at pin_at
    pin_conflict pins_blocker task_blocker finding_blocker blockers_of leb_texts leb_blocker digest
    canonical_json normalize_json_value normalize_nfc normalize_path normalize_mode serialize
    decimal decimal_from sorted insert split join is_uuid is_sha256 eq_texts eq_value eq_ℤ
repair_clear = refl

busy-facts : parse_findings sample_py busy ≡ ok facts
unfolding facts evaluate_workspace_state_quiescence evaluate_task_gate validated_evidence
    check_finding quiescence_of task_fact task_facts_from task_facts validate_snapshot_collections
    finding_fact findings_from parse_findings surface_pins same_pins least change_at pin_at
    pin_conflict pins_blocker task_blocker finding_blocker blockers_of leb_texts leb_blocker digest
    canonical_json normalize_json_value normalize_nfc normalize_path normalize_mode serialize
    decimal decimal_from sorted insert split join is_uuid is_sha256 eq_texts eq_value eq_ℤ
busy-facts = refl

fact_live : fact.kind ≡ "non-archived-task"
unfolding fact evaluate_workspace_state_quiescence evaluate_task_gate validated_evidence
    check_finding quiescence_of task_fact task_facts_from task_facts validate_snapshot_collections
    finding_fact findings_from parse_findings surface_pins same_pins least change_at pin_at
    pin_conflict pins_blocker task_blocker finding_blocker blockers_of leb_texts leb_blocker digest
    canonical_json normalize_json_value normalize_nfc normalize_path normalize_mode serialize
    decimal decimal_from sorted insert split join is_uuid is_sha256 eq_texts eq_value eq_ℤ
fact_live = refl

fact_here : get_elem? facts 0 ≡ some fact
unfolding facts fact evaluate_workspace_state_quiescence evaluate_task_gate validated_evidence
    check_finding quiescence_of task_fact task_facts_from task_facts validate_snapshot_collections
    finding_fact findings_from parse_findings surface_pins same_pins least change_at pin_at
    pin_conflict pins_blocker task_blocker finding_blocker blockers_of leb_texts leb_blocker digest
    canonical_json normalize_json_value normalize_nfc normalize_path normalize_mode serialize
    decimal decimal_from sorted insert split join is_uuid is_sha256 eq_texts eq_value eq_ℤ
fact_here = refl

fact_pin : pin_at fact.pinned_surfaces "a" ≡ some sample_digest
unfolding fact evaluate_workspace_state_quiescence evaluate_task_gate validated_evidence
    check_finding quiescence_of task_fact task_facts_from task_facts validate_snapshot_collections
    finding_fact findings_from parse_findings surface_pins same_pins least change_at pin_at
    pin_conflict pins_blocker task_blocker finding_blocker blockers_of leb_texts leb_blocker digest
    canonical_json normalize_json_value normalize_nfc normalize_path normalize_mode serialize
    decimal decimal_from sorted insert split join is_uuid is_sha256 eq_texts eq_value eq_ℤ
fact_pin = refl

change_here : change_at impact.surface_changes "a" ≡ some change
unfolding change_at
change_here = refl

evaluate_workspace_state_quiescence_iff_example :
    ((busy_state.task_quiescence ≡ "quiescent") ↔ (parse_findings sample_py busy ≡ ok []))
    × ((busy_state.task_quiescence ≡ "ambiguous")
        ↔ (any (λ k. mem k ambiguous_kinds) busy_state.evidence_kinds ≡ true))
evaluate_workspace_state_quiescence_iff_example =
    evaluate_workspace_state_quiescence_iff sample_py busy_snapshot busy busy_state busy_state_run

evaluate_task_gate-quiescent_example :
    (idle_gate.blockers ≡ []) ↔ (idle_state.task_quiescence ≡ "quiescent")
evaluate_task_gate-quiescent_example =
    evaluate_task_gate-quiescent sample_py "init" impact idle_snapshot idle idle_gate idle_state
      refl idle_gate_run idle_state_run

evaluate_task_gate-pinned_example :
    (change.contract_before_digest ≡ sample_digest) × (change.after_digest ≡ sample_digest)
evaluate_task_gate-pinned_example =
    evaluate_task_gate-pinned sample_py "repair" impact busy_snapshot busy repair_gate facts 0 fact
      "a" sample_digest change repair_gate_run repair_clear busy-facts fact_here fact_live fact_pin
      change_here refl
