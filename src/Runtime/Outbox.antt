-- ===== src/Runtime/Outbox.antt =====
-- src/agent_stack/runtime/outbox.py: the items of the outbox and their checks. An effect that is delivered
-- leaves its evidence in the item's file. The `details` of a failure are left out, and an instant is
-- its ISO text, or `none` where it has no zone.
use Prim.Native.String.{◌++◌ as append}
pub mod Queue
pub mod Deliver
pub mod Laws
pub mod Attempt
use Prim.Native.Char.{code}
use agent_workflow_pack.Canonical.{canonical_json, canonical_null, digest}
use agent_workflow_pack.Canonical.Chars.{chars}
use agent_workflow_pack.Ident.{is_sha256, is_uuid}
use agent_workflow_pack.Json.{
  Fields, Value, as_obj, eq_value, get, has_fields, int, is_null, is_unhashable, null, num, pos,
  text,
}
use agent_workflow_pack.Platform.{Platform}
use agent_workflow_pack.Prelude.{
  Bool, List, Option, String, [], any, eqb, false, if◌then◌else◌, leb, ltb, mem, not, true, ℕ, ◌&&◌,
  ◌==◌, ◌||◌, ◌∷◌,
}
use agent_workflow_pack.Reconcile.Files.{FileNode, FileState, Tree, observe_file_state, regular}
use agent_workflow_pack.Result.{
  Exn, Result, err, failure, ok, present, require, type_error, ◌>>=◌, ◌>>◌,
}
use agent_workflow_pack.Runtime.Replay.Ledger.{recast_result}
use agent_workflow_pack.Runtime.TaskJournal.{is_some}

-- `_failure`
abbrev pub outbox_failure : String → Exn
outbox_failure message = failure "AWP_TASK_TRANSITION_INVALID" message

pub record OutboxItem : Type 0 where
  pub effect_id : String
  pub idempotency_key : String
  pub delivery_state : String
  pub attempt_count : ℕ
  pub document : Fields

-- `_uuid` of a field: of a value that is neither text nor `None`, `uuid.UUID` raises an
-- `AttributeError`, which is caught; of `None` a `TypeError`, which is not. A text that is no UUID at all
-- gets the message of one that is not canonical.
abbrev pub outbox_uuid : Value → Result String
outbox_uuid (text s) =
    if is_uuid s then ok s else err (outbox_failure "outbox UUID is not canonical")
outbox_uuid null = err type_error
outbox_uuid _ = err (outbox_failure "outbox UUID is invalid")

-- `_token`
abbrev pub outbox_token : Value → Result String
outbox_token (text s) =
    if s == "" || any (λ c. ltb (code c) 0x20) (chars s)
    then err (outbox_failure "outbox token is invalid")
    else ok s
outbox_token _ = err (outbox_failure "outbox token is invalid")

-- `_sha256`
abbrev pub outbox_sha256 : Value → Result String
outbox_sha256 (text s) =
    if is_sha256 s then ok s else err (outbox_failure "outbox digest is invalid")
outbox_sha256 _ = err (outbox_failure "outbox digest is invalid")

-- `_format`
abbrev pub format_time : Option String → Result String
format_time instant = present instant (outbox_failure "outbox timestamp is not timezone aware")

-- `_path`: the path under the root.
unfoldable pub outbox_path : String → Result String
outbox_path effect_id = do
  key ← outbox_sha256 (text effect_id)
  ok (append ".agent-workflow/local/task-outbox/" (append key ".json"))

abbrev pub outbox_fields : List String
outbox_fields =
    "schema_id" ∷ "schema_version" ∷ "effect_id" ∷ "operation" ∷ "task_id" ∷ "transaction_id"
    ∷ "effect_kind" ∷ "handler_id" ∷ "handler_version" ∷ "payload" ∷ "payload_digest"
    ∷ "idempotency_key" ∷ "created_at" ∷ "delivery" ∷ []

abbrev pub delivery_fields : List String
delivery_fields = "state" ∷ "attempt_count" ∷ "last_attempt_at" ∷ "delivered_at" ∷ "failure" ∷ []

abbrev pub delivery_states : List String
delivery_states = "pending" ∷ "delivered" ∷ "failed" ∷ []

-- `state not in {...}`
unfoldable pub state_name : Value → Result String
state_name (text s) =
    if mem s delivery_states then ok s else err (outbox_failure "outbox delivery state is invalid")
state_name v =
    if is_unhashable v
    then err type_error
    else err (outbox_failure "outbox delivery state is invalid")

-- A count that is an integer, no Boolean, and not below zero.
unfoldable pub count_of : Value → Result ℕ
count_of (int (pos n)) = ok n
count_of _ = err (outbox_failure "outbox attempt count is invalid")

-- The evidence that belongs to a state.
unfoldable pub evidence_agrees : String → ℕ → Fields → Bool
evidence_agrees state count delivery =
    let attempted = not (is_null (get delivery "last_attempt_at")) in
    let delivered = not (is_null (get delivery "delivered_at")) in
    let failed = not (is_null (get delivery "failure")) in
    if state == "pending"
    then eqb count 0 && not attempted && not delivered && not failed
    else if state == "delivered"
    then leb 1 count && attempted && delivered && not failed
    else leb 1 count && attempted && not delivered && is_some (as_obj (get delivery "failure"))

abbrev pub disagreement : String → String
disagreement state =
    if state == "pending"
    then "pending outbox item contains delivery evidence"
    else if state == "delivered"
    then "delivered outbox item is incomplete"
    else "failed outbox item is incomplete"

-- The delivery of an item, as `_validate` checks it: its state and the number of attempts.
unfoldable pub check_delivery : Value → Result (String × ℕ)
check_delivery value = do
  delivery ← present (as_obj value) (outbox_failure "outbox delivery fields are invalid")
  require (has_fields delivery delivery_fields)
      (outbox_failure "outbox delivery fields are invalid")
  state ← state_name (get delivery "state")
  count ← count_of (get delivery "attempt_count")
  require (evidence_agrees state count delivery) (outbox_failure (disagreement state))
  ok (state, count)

-- The identity of an item, as `_validate` checks it: its idempotency key.
unfoldable pub check_effect : Platform → Fields → String → Result String
check_effect py document effect_id = do
  require (has_fields document outbox_fields) (outbox_failure "outbox item fields are invalid")
  require
      (eq_value (get document "schema_id") (text "agent-workflow.task-outbox")
        && eq_value (get document "schema_version") (num 1))
      (outbox_failure "outbox item schema is unsupported")
  require (eq_value (get document "effect_id") (text effect_id))
      (outbox_failure "outbox item path identity differs")
  _ ← outbox_uuid (get document "task_id")
  _ ← outbox_uuid (get document "transaction_id")
  _ ← outbox_token (get document "operation")
  _ ← outbox_token (get document "effect_kind")
  _ ← outbox_token (get document "handler_id")
  _ ← outbox_token (get document "handler_version")
  _ ← outbox_token (get document "created_at")
  payload_digest ← outbox_sha256 (get document "payload_digest")
  actual ← digest py "agent-workflow.task-outbox-payload.v1" (get document "payload")
  require (actual == payload_digest) (outbox_failure "outbox payload digest is stale")
  outbox_sha256 (get document "idempotency_key")

-- `_validate` of a mapping
unfoldable pub validate_item : Platform → Fields → String → Result OutboxItem
validate_item py document effect_id = do
  idempotency_key ← check_effect py document effect_id
  delivery ← check_delivery (get document "delivery")
  ok (record {
    effect_id = effect_id;
    idempotency_key = idempotency_key;
    delivery_state = delivery.0;
    attempt_count = delivery.1;
    document = document;
  })

-- `_state`
abbrev pub item_state : Platform → String → String → FileState
item_state py relative payload = record {
  path = relative;
  present_ = true;
  file_type = "regular";
  byte_hash = py.sha256 payload;
  mode = "0600";
  non_symlink = true;
  managed_block_hash = canonical_null;
}

-- `_absent`
abbrev pub absent_state : String → FileState
absent_state relative = record {
  path = relative;
  present_ = false;
  file_type = "absent";
  byte_hash = canonical_null;
  mode = canonical_null;
  non_symlink = true;
  managed_block_hash = canonical_null;
}

-- `path.read_bytes()` of a file
abbrev pub item_text : FileNode → Result String
item_text (regular m s) = ok s
item_text _ = err (outbox_failure "outbox item is corrupt")

-- `_read`: the item, the state of its file, and its document.
unfoldable pub read_item :
    Platform → (String → Option Value) → String → Tree → Result (OutboxItem × FileState)
read_item py json_loads effect_id tree = do
  path ← outbox_path effect_id
  observed ←
      recast_result (observe_file_state py path canonical_null tree)
        (outbox_failure "outbox item metadata is invalid")
  require (observed.present_ && observed.file_type == "regular" && observed.mode == "0600")
      (outbox_failure "outbox item is missing or has invalid metadata")
  payload ← item_text (tree.node path)
  parsed ← present (json_loads payload) (outbox_failure "outbox item is corrupt")
  document ← present (as_obj parsed) (outbox_failure "outbox item is not canonical")
  canonical ← canonical_json py parsed
  require (canonical == payload) (outbox_failure "outbox item is not canonical")
  item ← validate_item py document effect_id
  ok (item, observed)
