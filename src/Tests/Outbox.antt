-- ===== src/Tests/Outbox.antt =====
-- Runs of runtime/outbox.py.
use agent_workflow_pack.Canonical.{
  canonical_json, digest, normalize_json_value, normalize_mode, normalize_nfc, normalize_path,
  serialize,
}
use agent_workflow_pack.Canonical.Chars.{decimal, decimal_from, join, split}
use agent_workflow_pack.Ident.{is_sha256, is_uuid}
use agent_workflow_pack.Json.{Fields, Value, end, eq_value, eq_ℤ, field, null, num, obj, text}
use agent_workflow_pack.Prelude.{
  Option, String, if◌then◌else◌, none, refl, some, true, ◌==◌, ◌||◌, ◌↔◌, ◌≡◌, ◌⊎◌,
}
use agent_workflow_pack.Prelude.Sort.{insert, sorted}
use agent_workflow_pack.Reconcile.Cas.{assert_state, compare_and_swap, replace_file}
use agent_workflow_pack.Reconcile.Files.{
  FileNode, FileState, Tree, absent, directory, observe_file_state, regular, same_state,
  state_document, state_of, target,
}
use agent_workflow_pack.Result.{Result, ok}
use agent_workflow_pack.Runtime.Outbox.{
  OutboxItem, check_delivery, check_effect, count_of, evidence_agrees, outbox_path, read_item,
  state_name, validate_item,
}
use agent_workflow_pack.Runtime.Outbox.Attempt.{Attempted, deliver_effect-delivers}
use agent_workflow_pack.Runtime.Outbox.Deliver.{
  Handler, attempt_effect, deliver_effect, settle_attempt, store_item,
}
use agent_workflow_pack.Runtime.Outbox.Laws.{validate_item-pending}
use agent_workflow_pack.Tests.Samples.{other_uuid, sample_digest, sample_py, sample_uuid, value_of}

abbrev pending : Fields
pending = field "state" (text "pending") (
    field "attempt_count" (num 0)
      (field "last_attempt_at" null (field "delivered_at" null (field "failure" null end))))

abbrev queued_effect : Fields
queued_effect = field "schema_id" (text "agent-workflow.task-outbox") (
    field "schema_version" (num 1) (
      field "effect_id" (text sample_digest) (
        field "operation" (text "claim") (
          field "task_id" (text sample_uuid) (
            field "transaction_id" (text other_uuid) (
              field "effect_kind" (text "notify") (
                field "handler_id" (text "mail") (
                  field "handler_version" (text "1") (
                    field "payload_digest" (text sample_digest) (
                      field "payload" null (
                        field "idempotency_key" (text sample_digest) (
                          field "created_at" (text "1Z")
                            (field "delivery" (obj pending) end)))))))))))))

abbrev item_file : String
item_file =
    ".agent-workflow/local/task-outbox/aaaaaaaaaaaaaaaaaaaaaaaaaaaaaaaaaaaaaaaaaaaaaaaaaaaaaaaaaaaaaaaa.json"

unfoldable item_bytes : String
item_bytes = value_of "" (canonical_json sample_py (obj queued_effect))

unfoldable nodes : String → FileNode
nodes path =
    if path == item_file
    then regular 384 item_bytes
    else (if path == ".agent-workflow"
          || path == ".agent-workflow/local"
          || path == ".agent-workflow/local/task-outbox"
        then directory 448
        else absent)

abbrev tree : Tree
tree = record { real_root = true; node = nodes }

abbrev loads : String → Option Value
loads s = some (obj queued_effect)

-- A handler that returns.
abbrev handler : Handler
handler document files = (none, files)

abbrev no_item : OutboxItem
no_item = record {
  effect_id = "";
  idempotency_key = "";
  delivery_state = "";
  attempt_count = 0;
  document = end;
}

unfoldable delivered : Result OutboxItem × Tree
delivered = deliver_effect sample_py loads sample_digest (some "2Z") handler tree

delivered_run :
    deliver_effect sample_py loads sample_digest (some "2Z") handler tree
    ≡ (ok (value_of no_item delivered.0), delivered.1)
unfolding delivered deliver_effect attempt_effect settle_attempt store_item read_item validate_item
    check_effect check_delivery state_name count_of evidence_agrees outbox_path compare_and_swap
    replace_file assert_state same_state state_document observe_file_state state_of target digest
    canonical_json normalize_json_value normalize_nfc normalize_path normalize_mode serialize
    decimal decimal_from sorted insert split join is_uuid is_sha256 eq_value eq_ℤ nodes item_bytes
delivered_run = refl

deliver_effect-delivers_example :
    ((value_of no_item delivered.0).delivery_state ≡ "delivered")
    × ((item : OutboxItem) × (observed : FileState) × (read_item sample_py loads sample_digest tree
          ≡ ok (item, observed))
        × (((item.delivery_state ≡ "delivered")
              × (value_of no_item delivered.0 ≡ item)
              × (delivered.1 ≡ tree))
            ⊎ Attempted sample_py item observed handler tree
                (value_of no_item delivered.0)
                delivered.1))
deliver_effect-delivers_example =
    deliver_effect-delivers sample_py loads sample_digest (some "2Z") handler tree
      (value_of no_item delivered.0) delivered.1 delivered_run

unfoldable item : OutboxItem
item = value_of no_item (validate_item sample_py queued_effect sample_digest)

item_run : validate_item sample_py queued_effect sample_digest ≡ ok item
unfolding item validate_item check_effect check_delivery state_name count_of evidence_agrees digest
    canonical_json normalize_json_value normalize_nfc serialize decimal decimal_from sorted insert
    is_uuid is_sha256 eq_value eq_ℤ
item_run = refl

validate_item-pending_example : (item.delivery_state ≡ "pending") ↔ (item.attempt_count ≡ 0)
validate_item-pending_example =
    validate_item-pending sample_py queued_effect sample_digest item item_run
