-- ===== src/Runtime/Outbox/Queue.antt =====
-- The document of an effect, and the item that is there already, in `enqueue_effect` of
-- src/agent_stack/runtime/outbox.py.
-- An effect that is put forward.
use agent_workflow_pack.Canonical.{canonical_json, digest}
use agent_workflow_pack.Json.{Fields, Value, end, field, null, num, obj, text}
use agent_workflow_pack.Platform.{Platform}
use agent_workflow_pack.Prelude.{Option, String, ◌==◌}
use agent_workflow_pack.Reconcile.Files.{Tree}
use agent_workflow_pack.Result.{Result, ok, require, ◌>>=◌, ◌>>◌}
use agent_workflow_pack.Runtime.Outbox.{
  OutboxItem, format_time, outbox_failure, outbox_token, outbox_uuid, read_item,
}

pub record Effect : Type 0 where
  pub operation : String
  pub task_id : String
  pub transaction_id : String
  pub effect_kind : String
  pub handler_id : String
  pub handler_version : String
  pub payload : Value
  pub created_at : Option String

-- `identity`
abbrev pub identity_document : Effect → String → Fields → Fields
identity_document e payload_digest rest = field "operation" (text e.operation) (
    field "task_id" (text e.task_id) (
      field "transaction_id" (text e.transaction_id) (
        field "effect_kind" (text e.effect_kind) (
          field "handler_id" (text e.handler_id) (
            field "handler_version" (text e.handler_version)
              (field "payload_digest" (text payload_digest) rest))))))

abbrev pub pending_delivery : Fields
pending_delivery = field "state" (text "pending") (
    field "attempt_count" (num 0)
      (field "last_attempt_at" null (field "delivered_at" null (field "failure" null end))))

abbrev pub effect_document : Effect → String → String → String → String → Fields
effect_document e payload_digest effect_id idempotency_key created_at =
    field "schema_id" (text "agent-workflow.task-outbox") (
      field "schema_version" (num 1) (
        field "effect_id" (text effect_id) (
          identity_document e payload_digest (
            field "payload" e.payload (
              field "idempotency_key" (text idempotency_key) (
                field "created_at" (text created_at)
                  (field "delivery" (obj pending_delivery) end)))))))

abbrev pub idempotency_document : Effect → String → Fields
idempotency_document e effect_id =
    field "effect_id" (text effect_id) (
      field "handler_id" (text e.handler_id) (field "handler_version" (text e.handler_version) end))

-- The identity of an effect and its document.
pub record Queued : Type 0 where
  pub effect_id : String
  pub queued : Fields

module _ (py : Platform) where
  -- The identity of an effect, and its document.
  unfoldable pub queue_effect : Effect → Result Queued
  queue_effect e = do
    _ ← outbox_token (text e.operation)
    _ ← outbox_uuid (text e.task_id)
    _ ← outbox_uuid (text e.transaction_id)
    _ ← outbox_token (text e.effect_kind)
    _ ← outbox_token (text e.handler_id)
    _ ← outbox_token (text e.handler_version)
    payload_digest ← digest py "agent-workflow.task-outbox-payload.v1" e.payload
    effect_id ←
        digest py "agent-workflow.task-outbox.v1" (obj (identity_document e payload_digest end))
    idempotency_key ←
        digest py "agent-workflow.task-outbox-idempotency.v1"
          (obj (idempotency_document e effect_id))
    created_at ← format_time e.created_at
    ok (record {
      effect_id = effect_id;
      queued = effect_document e payload_digest effect_id idempotency_key created_at;
    })

  -- The item that is there has to be the very one that is put forward.
  unfoldable pub existing_item :
      (String → Option Value) → String → String → Tree → Result OutboxItem
  existing_item json_loads effect_id payload tree = do
    read ← read_item py json_loads effect_id tree
    canonical ← canonical_json py (obj read.0.document)
    require (canonical == payload)
        (outbox_failure "deterministic outbox identity collides with different bytes")
    ok read.0
