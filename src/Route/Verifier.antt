-- ===== src/Route/Verifier.antt =====
-- src/agent_stack/route/verifier.py: the replay of a Route Decision by its consumer.
pub mod Replay
pub mod Accepts
pub mod Light
use agent_workflow_pack.Canonical.{canonical_json, digest}
use agent_workflow_pack.Json.{
  Fields, Value, as_arr, as_text, eq_value, get, has_fields, is_unhashable, lookup, mem_value, num,
  optional_text, put, text, texts,
}
use agent_workflow_pack.Platform.{Platform}
use agent_workflow_pack.Prelude.{List, String, [], if◌then◌else◌, mem, ◌&&◌, ◌++◌, ◌==◌, ◌∷◌}
use agent_workflow_pack.Result.{
  Exn, Result, err, failure, ok, present, reject, require, type_error, ◌>>=◌, ◌>>◌,
}
use agent_workflow_pack.Route.Calculator.{
  RouteAuthorities, decision_payload, finalize_decision, operations, surface_closure,
  surface_values, task_inventory_sets, validate_authorities,
}
use agent_workflow_pack.Route.Signals.{PolicyResult, evaluate_compiled_policy}

abbrev pub common_fields : List String
common_fields =
    "schema_id" ∷ "schema_version" ∷ "operation" ∷ "route" ∷ "project_id" ∷ "workspace_instance_id"
    ∷ "manifest_generation" ∷ "manifest_digest" ∷ "profile_digest" ∷ "lock_digest"
    ∷ "artifact_bundle_digest" ∷ "policy_digest" ∷ "platform" ∷ "adapter_id" ∷ "adapter_version"
    ∷ "router_contract_version" ∷ "entry_owner" ∷ "matched_rule_ids" ∷ "signals" ∷ "explicit_modes"
    ∷ "reasons" ∷ "task_state_digest" ∷ "route_payload_digest" ∷ "decision_id" ∷ "decision_digest"
    ∷ []

abbrev pub intent_part : List String
intent_part = "intent_id" ∷ "intent_digest" ∷ "requested_mode" ∷ []

abbrev pub task_creation_part : List String
task_creation_part =
    "requested_task_id" ∷ "requested_task_ref" ∷ "task_ref_precondition" ∷ "task_id_precondition"
    ∷ "task_contract_surfaces" ∷ "task_contract_surfaces_digest" ∷ "approval_challenge"
    ∷ "task_creation_approval" ∷ []

abbrev pub invalid : String → Exn
invalid message = failure "AWP_ROUTE_DECISION_INVALID" message

abbrev pub mismatch : String → Exn
mismatch message = failure "AWP_ROUTE_POLICY_MISMATCH" message

abbrev pub stale : String → Exn
stale message = failure "AWP_ROUTE_TASK_STATE_STALE" message

-- `_sequence`
abbrev pub sequence : Value → Result (List Value)
sequence v = present (as_arr v) (invalid "Decision array is invalid")

-- The fields of an operation's Decision.
abbrev pub decision_fields : String → List String
decision_fields operation =
    if operation == "classify-only"
    then common_fields
    else if operation == "execute-light"
    then common_fields ++ intent_part
    else common_fields ++ intent_part ++ task_creation_part

-- The operation, where it is one of the three.
unfoldable pub operation_of : Value → Result String
operation_of (text operation) =
    if mem operation operations then ok operation else err (invalid "Decision operation is invalid")
operation_of _ = err (invalid "Decision operation is invalid")

-- `_validate_shape`
unfoldable pub validate_shape : Fields → Result String
validate_shape decision = do
  operation ← operation_of (get decision "operation")
  require (has_fields decision (decision_fields operation))
      (invalid "Decision branch fields are not closed")
  require
      (eq_value (get decision "schema_id") (text "agent-workflow.route-decision")
        && eq_value (get decision "schema_version") (num 1))
      (invalid "Decision schema is unsupported")
  ok operation

-- `for field, value in expected.items(): if decision.get(field) != value: raise e`
unfoldable pub check_equal : Fields → Exn → List (String × Value) → Result (Unit {0})
check_equal decision e [] = ok tt
check_equal decision e ((k, v) ∷ expected) = do
  require (eq_value (get decision k) v) e
  check_equal decision e expected

abbrev pub authority_values : RouteAuthorities → List (String × Value)
authority_values a =
    ("project_id", text a.project_id)
    ∷ ("workspace_instance_id", text a.workspace_instance_id)
    ∷ ("manifest_generation", num a.manifest_generation)
    ∷ ("manifest_digest", text a.manifest_digest)
    ∷ ("profile_digest", text a.profile_digest)
    ∷ ("lock_digest", text a.lock_digest)
    ∷ ("artifact_bundle_digest", text a.artifact_bundle_digest)
    ∷ ("policy_digest", text a.policy_digest)
    ∷ ("platform", text a.platform)
    ∷ ("adapter_id", text a.adapter_id)
    ∷ ("adapter_version", text a.adapter_version)
    ∷ ("router_contract_version", num a.router_contract_version)
    ∷ []

-- `_verify_authority`
unfoldable pub verify_authority : Fields → RouteAuthorities → Result (Unit {0})
verify_authority decision a =
    check_equal decision (mismatch "Decision authority is stale") (authority_values a)

-- The values that the policy gives, in the order of their comparison.
abbrev pub policy_values : PolicyResult → RouteAuthorities → List (String × Value)
policy_values result a =
    ("route", text result.route)
    ∷ ("entry_owner", optional_text (lookup a.entry_owners result.route))
    ∷ ("matched_rule_ids", texts result.matched_rule_ids)
    ∷ ("signals", texts result.signals)
    ∷ ("reasons", texts result.reasons)
    ∷ []

abbrev pub derived_values : Fields → List (String × Value)
derived_values expected =
    ("route_payload_digest", get expected "route_payload_digest")
    ∷ ("decision_id", get expected "decision_id")
    ∷ ("decision_digest", get expected "decision_digest")
    ∷ []

-- A member of the inventory's texts: a value that cannot be hashed raises `TypeError`.
abbrev pub check_free : Value → List String → Result (Unit {0})
check_free v names =
    if is_unhashable v
    then err type_error
    else reject (mem_value v names) (stale "Decision task identity is no longer available")

-- The route of a Decision whose policy was replayed is a text.
abbrev pub route_text : Value → Result String
route_text v = present (as_text v) type_error

abbrev pub consumer_of : String → String
consumer_of operation = if operation == "execute-light" then "execute-light" else "task-admit"

abbrev pub verification_kind : String → String
verification_kind operation =
    if operation == "execute-light"
    then "verified-execute-light"
    else "verified-create-integrated-task"

module _ (py : Platform) where
  -- `_verify_identity`
  unfoldable pub verify_identity : Fields → Result (Unit {0})
  verify_identity decision = do
    expected ← finalize_decision py (decision_payload decision)
    check_equal decision (invalid "Decision derived identity is invalid") (derived_values expected)

  -- `canonical_json_bytes(v) != canonical_json_bytes(w)`
  unfoldable pub check_canonical : Value → Value → Exn → Result (Unit {0})
  check_canonical v w e = do
    left ← canonical_json py v
    right ← canonical_json py w
    require (left == right) e

  unfoldable pub check_replay : Fields → List (String × Value) → Result (Unit {0})
  check_replay decision [] = ok tt
  check_replay decision ((k, v) ∷ expected) = do
    check_canonical (get decision k) v (mismatch "Decision policy replay differs")
    check_replay decision expected

  -- `_verify_policy`
  unfoldable pub verify_policy : Fields → RouteAuthorities → Result (Unit {0})
  verify_policy decision a = do
    signals ← sequence (get decision "signals")
    explicit ← sequence (get decision "explicit_modes")
    result ← evaluate_compiled_policy signals explicit a.policy
    check_replay decision (policy_values result a)

  -- The rest of `_verify_task_state`, for the creation of a task.
  unfoldable pub verify_creation : Fields → RouteAuthorities → Result (Unit {0})
  verify_creation decision a = do
    sets ← task_inventory_sets a.task_inventory
    check_free (get decision "requested_task_id") sets.0
    check_free (get decision "requested_task_ref") sets.1
    route ← route_text (get decision "route")
    surfaces ← surface_closure route a
    check_canonical (get decision "task_contract_surfaces") (surface_values surfaces)
        (stale "Decision task surfaces are stale")
    actual ← digest py "agent-workflow.task-surfaces.v1" (surface_values surfaces)
    require (eq_value (get decision "task_contract_surfaces_digest") (text actual))
        (stale "Decision task surfaces are stale")

  -- `_verify_task_state`
  unfoldable pub verify_task_state : String → Fields → RouteAuthorities → Result (Unit {0})
  verify_task_state operation decision a = do
    require (eq_value (get decision "task_state_digest") (text a.task_state_digest))
        (stale "Decision task state is stale")
    if operation == "create-integrated-task" then verify_creation decision a else ok tt

  unfoldable pub verify_route_decision : Fields → RouteAuthorities → String → Result Fields
  verify_route_decision decision a consumer = do
    operation ← validate_shape decision
    reject (operation == "classify-only")
        (failure "AWP_ROUTE_OPERATION_MISMATCH" "classify-only is not executable")
    require (consumer == consumer_of operation)
        (failure "AWP_ROUTE_OPERATION_MISMATCH" "Decision consumer is invalid")
    validate_authorities py a
    verify_identity decision
    verify_authority decision a
    verify_policy decision a
    verify_task_state operation decision a
    ok (put "verification_kind" (text (verification_kind operation)) decision)
