-- ===== src/Providers/Attempts/Receipts.antt =====
-- The release receipts of src/agent_stack/providers/attempts.py: their checks.
use agent_workflow_pack.Json.{
  Fields, end, eq_value, field, get, has_fields, is_text, keys, num, obj, text,
}
use agent_workflow_pack.Prelude.{
  Bool, List, Option, String, [], false, none, not, some, true, ◌&&◌, ◌∷◌,
}
use agent_workflow_pack.Providers.Attempts.{Plan, agree, corrupt}
use agent_workflow_pack.Result.{Result, ok, require, ◌>>◌}

abbrev pub receipt_fields : List String
receipt_fields =
    "schema_id" ∷ "schema_version" ∷ "workspace_instance_id" ∷ "provider_plan_digest"
    ∷ "prospective_transaction_id" ∷ "attempt_id" ∷ "release_token_digest"
    ∷ "broker_liveness_identity" ∷ "released_at" ∷ []

abbrev pub expected_receipt : Plan → Fields → Fields
expected_receipt p attempt = field "schema_id" (text "agent-workflow.provider-release-receipt") (
    field "schema_version" (num 1) (
      field "workspace_instance_id" (text p.workspace_instance_id) (
        field "provider_plan_digest" (text p.provider_plan_digest) (
          field "prospective_transaction_id" (text p.prospective_transaction_id) (
            field "attempt_id" (get attempt "attempt_id") (
              field "release_token_digest" (get attempt "release_token_digest") (
                field "broker_liveness_identity" (get attempt "broker_liveness_identity") end)))))))

unfoldable pub validate_receipt : Plan → Fields → Fields → Result (Unit {0})
unfolding eq_value
validate_receipt p attempt receipt = do
  require (has_fields receipt receipt_fields) (corrupt "release receipt fields are not closed")
  require
      (agree receipt (expected_receipt p attempt) (keys (expected_receipt p attempt))
        && is_text (get receipt "released_at"))
      (corrupt "release receipt identity mismatch")

-- `receipt or stored_receipt`: an empty dictionary is false.
abbrev pub effective : Option Fields → Option Fields → Option Fields
effective none stored = stored
effective (some end) stored = stored
effective (some (field k v d)) stored = some (field k v d)

abbrev pub disagree : Option Fields → Option Fields → Bool
disagree (some d) (some e) = not (eq_value (obj d) (obj e))
disagree _ _ = false

abbrev pub check_effective : Plan → Fields → Option Fields → Option Fields → Result (Unit {0})
check_effective p attempt none stored = ok tt
check_effective p attempt (some receipt) stored = do
  validate_receipt p attempt receipt
  require (elim stored [ none ↦ false | some d ↦ true ])
      (corrupt "recovery receipt was not durably present")
