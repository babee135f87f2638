-- ===== src/Tests/Verifier.antt =====
-- Runs of route/verifier.py on the Decisions that route/calculator.py makes.
use agent_workflow_pack.Canonical.{
  canonical_json, digest, normalize_json_value, normalize_nfc, normalize_path, serialize,
}
use agent_workflow_pack.Canonical.Chars.{decimal, decimal_from, join, split}
use agent_workflow_pack.Json.{Fields, end, eq_value, eq_ℤ, get, put, text}
use agent_workflow_pack.Prelude.{eq_texts, false, refl, true, ◌≡◌}
use agent_workflow_pack.Prelude.Sort.{insert, sorted}
use agent_workflow_pack.Result.{ok}
use agent_workflow_pack.Route.Calculator.{
  calculate_route, common_payload, creation_payload, decision_payload, finalize_decision,
  fresh_task_id, policy_inputs, surface_closure, task_inventory_sets, validate_authorities,
}
use agent_workflow_pack.Route.Signals.{evaluate_compiled_policy, normalize_signals, policy_result}
use agent_workflow_pack.Route.Verifier.{
  check_canonical, check_equal, check_replay, operation_of, validate_shape, verify_authority,
  verify_creation, verify_identity, verify_policy, verify_route_decision, verify_task_state,
}
use agent_workflow_pack.Route.Verifier.Light.{verify_route_decision-calculated}
use agent_workflow_pack.Route.Verifier.Replay.{Creation, verify_route_decision-creates}
use agent_workflow_pack.Tests.Route.{
  creating, decision, light, light_run, sample_authorities, sample_uuids,
}
use agent_workflow_pack.Tests.Samples.{sample_digest, sample_py, value_of}

verify_route_decision-calculated_example :
    verify_route_decision sample_py
      (decision "execute-light" light)
      sample_authorities
      "execute-light"
    ≡ ok (put "verification_kind" (text "verified-execute-light") (decision "execute-light" light))
verify_route_decision-calculated_example =
    verify_route_decision-calculated sample_py sample_uuids "challenge" light sample_authorities
      (decision "execute-light" light) light_run

unfoldable made : Fields
made = decision "create-integrated-task" creating

unfoldable verified : Fields
verified = value_of end (verify_route_decision sample_py made sample_authorities "task-admit")

verified_run : verify_route_decision sample_py made sample_authorities "task-admit" ≡ ok verified
unfolding verified made verify_route_decision validate_shape operation_of verify_identity
    verify_authority verify_policy verify_task_state verify_creation check_equal check_replay
    check_canonical decision_payload decision calculate_route validate_authorities policy_inputs
    evaluate_compiled_policy policy_result common_payload creation_payload fresh_task_id
    finalize_decision surface_closure task_inventory_sets normalize_path normalize_signals
    normalize_nfc eq_texts eq_value eq_ℤ digest canonical_json normalize_json_value serialize
    decimal decimal_from sorted insert split join
verified_run = refl

verify_route_decision-creates_example :
    (get made "operation" ≡ text "create-integrated-task")
    × Creation sample_py made sample_authorities
    × (get made "policy_digest" ≡ text sample_digest)
    × (get made "lock_digest" ≡ text sample_digest)
    × (get made "manifest_digest" ≡ text sample_digest)
    × (get made "task_state_digest" ≡ text sample_digest)
    × (sample_authorities.maintenance ≡ false)
    × (sample_authorities.unfinished_task_transaction ≡ false)
    × ((e : Fields) × (finalize_decision sample_py (decision_payload made) ≡ ok e)
        × (eq_value (get made "decision_digest") (get e "decision_digest") ≡ true))
verify_route_decision-creates_example =
    verify_route_decision-creates sample_py made sample_authorities verified verified_run
