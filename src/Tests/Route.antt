-- ===== src/Tests/Route.antt =====
-- Runs of route/intent.py and route/calculator.py.
use agent_workflow_pack.Canonical.{
  canonical_json, digest, normalize_json_value, normalize_nfc, normalize_path,
}
use agent_workflow_pack.Canonical.Chars.{join, split, strip}
use agent_workflow_pack.Json.{
  Fields, as_texts, end, eq_value, eq_ℤ, field, get, has_fields, list, lookup, null, num, obj, text,
  texts,
}
use agent_workflow_pack.Prelude.{
  List, String, [], all, eq_texts, false, leb_text, map, mem, no_repeat, none, refl, some, suc,
  true, zero, ℕ, ◌∷◌, ◌≡◌,
}
use agent_workflow_pack.Prelude.Sort.{IsAscending, insert, sorted}
use agent_workflow_pack.Result.{ok}
use agent_workflow_pack.Route.Calculator.{
  RouteAuthorities, RouteCalculationInputs, calculate_route, common_payload, creation_payload,
  decision_payload, finalize_decision, fresh_task_id, operations, policy_inputs, surface_closure,
  task_inventory_sets, validate_authorities,
}
use agent_workflow_pack.Route.Calculator.Decision.{decision_payload-finalize}
use agent_workflow_pack.Route.Calculator.Fresh.{fresh_task_id-total}
use agent_workflow_pack.Route.Calculator.Laws.{calculate_route-admitted}
use agent_workflow_pack.Route.Calculator.Outcome.{
  calculate_route-creates, calculate_route-light, surface_closure-ok,
}
use agent_workflow_pack.Route.Intent.{
  VerifiedTaskIntent, intent_text, intent_texts, validate_task_intent, verified_intent,
}
use agent_workflow_pack.Route.Intent.Stable.{validate_task_intent-stable}
use agent_workflow_pack.Route.Signals.{
  evaluate_compiled_policy, explicit_routes, normalize_signals, policy_result,
}
use agent_workflow_pack.Tests.Samples.{
  other_uuid, sample_digest, sample_policy, sample_py, sample_uuid, value_of,
}

abbrev intent_document : Fields
intent_document = field "schema_id" (text "agent-workflow.task-intent") (
    field "schema_version" (num 1) (
      field "intent_id" (text "intent-1") (
        field "title" (text " A title ") (
          field "objective" (text "An objective") (
            field "requested_mode" (text "trellis-native") (
              field "acceptance_summary" (text "Done")
                (field "signals" (texts ("db" ∷ "api" ∷ [])) end)))))))

abbrev no_intent : VerifiedTaskIntent
no_intent = record {
  document = end;
  intent_id = "";
  requested_mode = none;
  signals = [];
  intent_digest = "";
}

abbrev sample_intent : VerifiedTaskIntent
unfolding validate_task_intent intent_texts intent_text verified_intent normalize_nfc
    normalize_signals eq_value eq_ℤ digest canonical_json normalize_json_value sorted insert strip
sample_intent =
    value_of no_intent (validate_task_intent sample_py intent_document sample_policy none)

intent_run : validate_task_intent sample_py intent_document sample_policy none ≡ ok sample_intent
unfolding sample_intent validate_task_intent intent_texts intent_text verified_intent normalize_nfc
    normalize_signals eq_value eq_ℤ digest canonical_json normalize_json_value sorted insert strip
intent_run = refl

validate_task_intent-stable_example :
    validate_task_intent sample_py sample_intent.document sample_policy none ≡ ok sample_intent
validate_task_intent-stable_example =
    validate_task_intent-stable sample_py (λ s. refl) intent_document sample_policy sample_intent
      intent_run

abbrev pub inventory : Fields
inventory =
    field "tasks"
      (list (obj (field "task_id" (text other_uuid) (field "task_ref" (text "docs/old") end)) ∷ []))
      end

abbrev pub surfaces : List Fields
surfaces =
    field "surface_id" (text "runtime-control-plane")
      (field "surface_digest" (text sample_digest) end)
    ∷ field "surface_id" (text "surface-registry") (field "surface_digest" (text sample_digest) end)
    ∷ []

abbrev pub sample_authorities : RouteAuthorities
sample_authorities = record {
  project_id = sample_uuid;
  workspace_instance_id = other_uuid;
  manifest_generation = 1;
  manifest_digest = sample_digest;
  profile_digest = sample_digest;
  lock_digest = sample_digest;
  artifact_bundle_digest = sample_digest;
  policy = sample_policy;
  policy_digest = sample_digest;
  platform = "linux";
  adapter_id = "adapter";
  adapter_version = "1";
  router_contract_version = 1;
  entry_owners = ("native-light", "light") ∷ ("trellis-native", "trellis") ∷ [];
  task_inventory = inventory;
  task_state_digest = sample_digest;
  task_surface_closures = ("trellis-native", surfaces) ∷ [];
  maintenance = false;
  unfinished_task_transaction = false;
}

-- The first UUID that is drawn is taken.
abbrev pub sample_uuids : ℕ → String
sample_uuids zero = other_uuid
sample_uuids (suc n) = sample_uuid

fresh_task_id-total_example :
    (id : String) × (fresh_task_id 2 sample_uuids (other_uuid ∷ []) ≡ ok id)
    × (mem id (other_uuid ∷ []) ≡ false)
fresh_task_id-total_example = fresh_task_id-total sample_uuids (other_uuid ∷ []) refl

surface_closure_run : surface_closure "trellis-native" sample_authorities ≡ ok surfaces
unfolding surface_closure eq_texts sorted insert
surface_closure_run = refl

surface_closure-ok_example :
    (identifiers : List String) × (lookup sample_authorities.task_surface_closures "trellis-native"
      ≡ some surfaces)
    × (as_texts (map (λ surface. get surface "surface_id") surfaces) ≡ some identifiers)
    × IsAscending leb_text identifiers
    × (no_repeat identifiers ≡ true)
    × (mem "runtime-control-plane" identifiers ≡ true)
    × (mem "surface-registry" identifiers ≡ true)
    × (all (λ surface. has_fields surface ("surface_id" ∷ "surface_digest" ∷ [])) surfaces ≡ true)
surface_closure-ok_example =
    surface_closure-ok "trellis-native" sample_authorities surface_closure_run

abbrev pub creating : RouteCalculationInputs
creating = record {
  intent = some (record {
    document = end;
    intent_id = "intent-1";
    requested_mode = some "trellis-native";
    signals = "api" ∷ "db" ∷ [];
    intent_digest = sample_digest;
  });
  candidate_signals = [];
  explicit_modes = [];
  requested_task_ref = some "docs/new";
}

abbrev pub light : RouteCalculationInputs
light = record {
  intent = some (record {
    document = end;
    intent_id = "intent-1";
    requested_mode = none;
    signals = "db" ∷ [];
    intent_digest = sample_digest;
  });
  candidate_signals = [];
  explicit_modes = [];
  requested_task_ref = none;
}

abbrev classifying : RouteCalculationInputs
classifying = record {
  intent = none;
  candidate_signals = "db" ∷ [];
  explicit_modes = [];
  requested_task_ref = none;
}

unfoldable pub decision : String → RouteCalculationInputs → Fields
decision operation inputs =
    value_of end
      (calculate_route sample_py sample_uuids "challenge" operation inputs sample_authorities)

pub creating_run :
    calculate_route sample_py sample_uuids "challenge" "create-integrated-task" creating
      sample_authorities
    ≡ ok (decision "create-integrated-task" creating)
unfolding decision calculate_route validate_authorities policy_inputs evaluate_compiled_policy
    policy_result common_payload creation_payload fresh_task_id finalize_decision surface_closure
    task_inventory_sets normalize_path normalize_signals normalize_nfc eq_texts eq_value eq_ℤ digest
    canonical_json normalize_json_value sorted insert split join
creating_run = refl

pub light_run :
    calculate_route sample_py sample_uuids "challenge" "execute-light" light sample_authorities
    ≡ ok (decision "execute-light" light)
unfolding decision calculate_route validate_authorities policy_inputs evaluate_compiled_policy
    policy_result common_payload finalize_decision normalize_signals normalize_nfc digest
    canonical_json normalize_json_value sorted insert
light_run = refl

classifying_run :
    calculate_route sample_py sample_uuids "challenge" "classify-only" classifying
      sample_authorities
    ≡ ok (decision "classify-only" classifying)
unfolding decision calculate_route validate_authorities policy_inputs evaluate_compiled_policy
    policy_result common_payload finalize_decision normalize_signals normalize_nfc digest
    canonical_json normalize_json_value sorted insert
classifying_run = refl

calculate_route-creates_example :
    (route asked task_id task_ref : String) × (ids : List String) × (refs : List String)
    × (task_inventory_sets inventory ≡ ok (ids, refs))
    × (creating.requested_task_ref ≡ some asked)
    × (normalize_path sample_py asked ≡ ok task_ref)
    × (mem route explicit_routes ≡ true)
    × (mem task_id ids ≡ false)
    × (mem task_ref refs ≡ false)
    × (get (decision "create-integrated-task" creating) "route" ≡ text route)
    × (get (decision "create-integrated-task" creating) "requested_task_id" ≡ text task_id)
    × (get (decision "create-integrated-task" creating) "requested_task_ref" ≡ text task_ref)
calculate_route-creates_example =
    calculate_route-creates sample_py sample_uuids "challenge" creating sample_authorities
      creating_run

calculate_route-light_example :
    (owner : String) × (lookup sample_authorities.entry_owners "native-light" ≡ some owner)
    × (get (decision "execute-light" light) "route" ≡ text "native-light")
    × (get (decision "execute-light" light) "entry_owner" ≡ text owner)
    × (get (decision "execute-light" light) "requested_task_id" ≡ null)
calculate_route-light_example =
    calculate_route-light sample_py sample_uuids "challenge" light sample_authorities light_run

calculate_route-admitted_example :
    (mem "execute-light" operations ≡ true)
    × (sample_authorities.policy_digest ≡ sample_policy.policy_digest)
    × (digest sample_py "agent-workflow.route-task-state.v1" (obj inventory)
        ≡ ok sample_authorities.task_state_digest)
    × (sample_authorities.maintenance ≡ false)
    × (sample_authorities.unfinished_task_transaction ≡ false)
calculate_route-admitted_example =
    calculate_route-admitted sample_py sample_uuids "challenge" "execute-light" light
      sample_authorities light_run

abbrev payload : Fields
payload = field "route" (text "native-light") end

unfoldable finalized : Fields
finalized = value_of end (finalize_decision sample_py payload)

finalized_run : finalize_decision sample_py payload ≡ ok finalized
unfolding finalized finalize_decision normalize_nfc digest canonical_json normalize_json_value
    sorted insert
finalized_run = refl

decision_payload-finalize_example : decision_payload finalized ≡ payload
decision_payload-finalize_example =
    decision_payload-finalize sample_py payload finalized refl finalized_run
