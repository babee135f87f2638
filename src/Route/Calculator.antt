-- ===== src/Route/Calculator.antt =====
-- src/agent_stack/route/calculator.py: the unsigned Route Decision. What Python draws at random is an
-- argument: `uuids` is the stream of `uuid.uuid4()`, `challenge` is `secrets.token_hex(32)`.
pub mod Decision
pub mod Laws
pub mod Fresh
pub mod Creation
pub mod Outcome
use Prim.Native.Char.{code}
use agent_workflow_pack.Canonical.{digest, normalize_path}
use agent_workflow_pack.Json.{
  Fields, Value, as_arr, as_obj, as_text, as_texts, end, field, get, has_fields, list, lookup, num,
  obj, optional_text, put, text, texts,
}
use agent_workflow_pack.Platform.{Platform}
use agent_workflow_pack.Prelude.{
  Bool, List, Option, String, [], all, eq_texts, false, if◌then◌else◌, is_empty, length, map, mem,
  no_repeat, none, not, some, subset, suc, true, zero, ℕ, ◌&&◌, ◌==◌, ◌∷◌,
}
use agent_workflow_pack.Prelude.Sort.{sorted}
use agent_workflow_pack.Result.{
  Exn, Result, catching, err, failure, ok, out_of_fuel, present, reject, require, traverse,
  type_error, ◌>>=◌, ◌>>◌,
}
use agent_workflow_pack.Route.Intent.{VerifiedTaskIntent}
use agent_workflow_pack.Route.Signals.{
  CompiledRoutePolicy, PolicyResult, evaluate_compiled_policy, explicit_routes, is_sorted,
  normalize_signals,
}

abbrev pub route_failure : String → String → Exn
route_failure code message = failure code message

abbrev pub operations : List String
operations = "classify-only" ∷ "execute-light" ∷ "create-integrated-task" ∷ []

pub record RouteCalculationInputs : Type 0 where
  pub intent : Option VerifiedTaskIntent
  pub candidate_signals : List String
  pub explicit_modes : List String
  pub requested_task_ref : Option String

-- `extra_authorities`, which the calculator and the verifier do not read, is left out.
pub record RouteAuthorities : Type 0 where
  pub project_id : String
  pub workspace_instance_id : String
  pub manifest_generation : ℕ
  pub manifest_digest : String
  pub profile_digest : String
  pub lock_digest : String
  pub artifact_bundle_digest : String
  pub policy : CompiledRoutePolicy
  pub policy_digest : String
  pub platform : String
  pub adapter_id : String
  pub adapter_version : String
  pub router_contract_version : ℕ
  pub entry_owners : List (String × String)
  pub task_inventory : Fields
  pub task_state_digest : String
  pub task_surface_closures : List (String × List Fields)
  pub maintenance : Bool
  pub unfinished_task_transaction : Bool

abbrev pub is_none {ℓ} : {A : Type ℓ} → Option A → Bool
is_none none = true
is_none (some a) = false

module _ (py : Platform) where
  unfoldable pub validate_authorities : RouteAuthorities → Result (Unit {0})
  validate_authorities a = do
    require (a.policy_digest == a.policy.policy_digest)
        (route_failure "AWP_ROUTE_POLICY_MISMATCH" "compiled policy digest is inconsistent")
    actual ← digest py "agent-workflow.route-task-state.v1" (obj a.task_inventory)
    require (a.task_state_digest == actual)
        (route_failure "AWP_ROUTE_TASK_STATE_STALE" "task-state digest is inconsistent")
    reject a.maintenance
        (route_failure "AWP_ROUTE_POLICY_MISMATCH" "maintenance blocks Route Decision calculation")
    reject a.unfinished_task_transaction (
        route_failure "AWP_ROUTE_TASK_STATE_STALE"
          "unfinished task transaction blocks Route Decision calculation")
    ok tt

-- The result of the policy, the intent and the explicit modes of an operation.
pub record PolicyInputs : Type 0 where
  pub result : PolicyResult
  pub intent : Option VerifiedTaskIntent
  pub explicit : List String

abbrev pub explicit_of : Option String → List String
explicit_of none = []
explicit_of (some mode) = if mem mode explicit_routes then mode ∷ [] else []

abbrev pub classify_inputs : RouteCalculationInputs → CompiledRoutePolicy → Result PolicyInputs
classify_inputs inputs policy = do
  require (is_none inputs.intent && is_none inputs.requested_task_ref)
      (route_failure "AWP_ROUTE_DECISION_INVALID" "classify-only cannot contain executable fields")
  normalized ← normalize_signals (map text inputs.candidate_signals) policy
  result ← evaluate_compiled_policy (map text normalized) (map text inputs.explicit_modes) policy
  ok (record { result = result; intent = none; explicit = inputs.explicit_modes })

abbrev pub executable_inputs : RouteCalculationInputs → CompiledRoutePolicy → Result PolicyInputs
executable_inputs inputs policy = do
  intent ←
      present inputs.intent
        (route_failure "AWP_ROUTE_DECISION_INVALID" "executable operation requires TaskIntent")
  require (is_empty inputs.candidate_signals)
      (route_failure "AWP_ROUTE_SIGNAL_INVALID" "TaskIntent is the sole executable signal source")
  let explicit = explicit_of intent.requested_mode
  result ← evaluate_compiled_policy (map text intent.signals) (map text explicit) policy
  ok (record { result = result; intent = some intent; explicit = explicit })

unfoldable pub policy_inputs :
    String → RouteCalculationInputs → CompiledRoutePolicy → Result PolicyInputs
policy_inputs operation inputs policy =
    if operation == "classify-only"
    then classify_inputs inputs policy
    else executable_inputs inputs policy

-- The document of a payload whose entry owner is known.
abbrev pub common_document :
    String → PolicyResult → List String → RouteAuthorities → String → Fields
common_document operation result explicit_modes a owner =
    field "schema_id" (text "agent-workflow.route-decision") (
      field "schema_version" (num 1) (
        field "operation" (text operation) (
          field "route" (text result.route) (
            field "project_id" (text a.project_id) (
              field "workspace_instance_id" (text a.workspace_instance_id) (
                field "manifest_generation" (num a.manifest_generation) (
                  field "manifest_digest" (text a.manifest_digest) (
                    field "profile_digest" (text a.profile_digest) (
                      field "lock_digest" (text a.lock_digest) (
                        field "artifact_bundle_digest" (text a.artifact_bundle_digest) (
                          field "policy_digest" (text a.policy_digest) (
                            field "platform" (text a.platform) (
                              field "adapter_id" (text a.adapter_id) (
                                field "adapter_version" (text a.adapter_version) (
                                  field "router_contract_version" (num a.router_contract_version) (
                                    field "entry_owner" (text owner) (
                                      field "matched_rule_ids" (texts result.matched_rule_ids) (
                                        field "signals" (texts result.signals) (
                                          field "explicit_modes" (texts explicit_modes) (
                                            field "reasons" (texts result.reasons) (
                                              field "task_state_digest" (text a.task_state_digest)
                                                end)))))))))))))))))))))

unfoldable pub common_payload :
    String → PolicyResult → List String → RouteAuthorities → Result Fields
common_payload operation result explicit_modes a = do
  owner ←
      present (lookup a.entry_owners result.route)
        (route_failure "AWP_ROUTE_POLICY_MISMATCH" "calculated route has no entry owner")
  ok (common_document operation result explicit_modes a owner)

abbrev pub text_fields : String → List Fields → List String
text_fields k [] = []
text_fields k (d ∷ ds) = elim (as_text (get d k)) [
  | none ↦ text_fields k ds
  | some s ↦ s ∷ text_fields k ds
]

-- The task identities and the task refs of the inventory.
unfoldable pub task_inventory_sets : Fields → Result (List String × List String)
task_inventory_sets inventory = do
  raw_tasks ←
      present (as_arr (get inventory "tasks"))
        (route_failure "AWP_ROUTE_TASK_STATE_STALE" "task inventory tasks are invalid")
  tasks ←
      traverse
        (λ raw.
          present (as_obj raw)
            (route_failure "AWP_ROUTE_TASK_STATE_STALE" "task inventory entry is invalid"))
        raw_tasks
  ok (text_fields "task_id" tasks, text_fields "task_ref" tasks)

abbrev pub mandatory_surfaces : List String
mandatory_surfaces = "runtime-control-plane" ∷ "surface-registry" ∷ []

-- The surfaces of an integrated route. A stable sort by `surface_id` leaves the list as it is exactly
-- when the identities ascend. An identity that is no text fails in Python too, by `TypeError` or by
-- one of the later checks.
unfoldable pub surface_closure : String → RouteAuthorities → Result (List Fields)
unfolding eq_texts sorted
surface_closure route a = do
  raw ← present (lookup a.task_surface_closures route) (
      route_failure "AWP_ROUTE_SURFACE_CLOSURE_INVALID"
        "integrated route has no verified surface closure")
  require (all (λ surface. has_fields surface ("surface_id" ∷ "surface_digest" ∷ [])) raw)
      (route_failure "AWP_ROUTE_SURFACE_CLOSURE_INVALID" "task surface fields are not closed")
  identifiers ← present (as_texts (map (λ surface. get surface "surface_id") raw)) type_error
  require (is_sorted identifiers)
      (route_failure "AWP_ROUTE_SURFACE_CLOSURE_INVALID" "task surfaces are not sorted")
  require (no_repeat identifiers)
      (route_failure "AWP_ROUTE_SURFACE_CLOSURE_INVALID" "task surfaces contain duplicates")
  require (subset mandatory_surfaces identifiers) (
      route_failure "AWP_ROUTE_SURFACE_CLOSURE_INVALID"
        "task surfaces omit mandatory meta-surfaces")
  ok raw

abbrev pub derived_fields : List String
derived_fields =
    "route_payload_digest" ∷ "decision_id" ∷ "decision_digest" ∷ "verification_kind" ∷ []

unfoldable pub decision_payload : Fields → Fields
decision_payload end = end
decision_payload (field k v d) =
    let rest = decision_payload d in if mem k derived_fields then rest else field k v rest

module _ (py : Platform) where
  unfoldable pub finalize_decision : Fields → Result Fields
  finalize_decision payload = do
    payload_digest ← digest py "agent-workflow.route-decision-payload.v1" (obj payload)
    let final_projection =
        (put "decision_id" (text (py.uuid5 payload_digest))
          (put "route_payload_digest" (text payload_digest) payload))
    decision_digest ← digest py "agent-workflow.route-decision.v1" (obj final_projection)
    ok (put "decision_digest" (text decision_digest) final_projection)

-- `task_id = uuid4()`, and again while the identity is taken.
unfoldable pub fresh_task_id : ℕ → (ℕ → String) → List String → Result String
fresh_task_id zero uuids taken = err out_of_fuel
fresh_task_id (suc rounds) uuids taken =
    let again = fresh_task_id rounds (λ n. uuids (suc n)) taken in
    if mem (uuids 0) taken then again else ok (uuids 0)

abbrev pub with_intent : Option VerifiedTaskIntent → Fields → Fields
with_intent none payload = payload
with_intent (some intent) payload = put "requested_mode" (optional_text intent.requested_mode) (
    put "intent_digest" (text intent.intent_digest)
      (put "intent_id" (text intent.intent_id) payload))

abbrev pub surface_values : List Fields → Value
surface_values surfaces = list (map obj surfaces)

module _ (py : Platform) (uuids : ℕ → String) (challenge : String) where
  -- The branch `if operation == "create-integrated-task"`. One more round than there are tasks is
  -- enough for distinct UUIDs (`Fresh`).
  unfoldable pub creation_payload :
      String → Option String → RouteAuthorities → Fields → Result Fields
  creation_payload route requested_task_ref a payload = do
    requested ←
        present requested_task_ref
          (route_failure "AWP_ROUTE_DECISION_INVALID" "task creation requires a task ref")
    task_ref ←
        catching (normalize_path py requested)
          (route_failure "AWP_ROUTE_DECISION_INVALID" "requested task ref is invalid")
    sets ← task_inventory_sets a.task_inventory
    reject (mem task_ref sets.1)
        (route_failure "AWP_ROUTE_TASK_STATE_STALE" "requested task ref already exists")
    task_id ← fresh_task_id (suc (length sets.0)) uuids sets.0
    surfaces ← surface_closure route a
    surfaces_digest ← digest py "agent-workflow.task-surfaces.v1" (surface_values surfaces)
    ok (
        put "task_creation_approval" (text "required") (
          put "approval_challenge" (text challenge) (
            put "task_contract_surfaces_digest" (text surfaces_digest) (
              put "task_contract_surfaces" (surface_values surfaces) (
                put "task_id_precondition" (text "unique") (
                  put "task_ref_precondition" (text "absent") (
                    put "requested_task_ref" (text task_ref)
                      (put "requested_task_id" (text task_id) payload))))))))

  unfoldable pub calculate_route :
      String → RouteCalculationInputs → RouteAuthorities → Result Fields
  calculate_route operation inputs a = do
    require (mem operation operations)
        (route_failure "AWP_ROUTE_DECISION_INVALID" "route operation is invalid")
    validate_authorities py a
    calculated ← policy_inputs operation inputs a.policy
    reject (operation == "execute-light" && not (calculated.result.route == "native-light")) (
        route_failure "AWP_ROUTE_OPERATION_MISMATCH" "execute-light calculated an integrated route")
    reject
        (operation == "create-integrated-task" && not (mem calculated.result.route explicit_routes))
        (route_failure "AWP_ROUTE_OPERATION_MISMATCH" "task creation calculated native-light")
    common ← common_payload operation calculated.result calculated.explicit a
    let payload = with_intent calculated.intent common
    full ←
        (if operation == "create-integrated-task"
          then creation_payload calculated.result.route inputs.requested_task_ref a payload
          else ok payload)
    finalize_decision py full
