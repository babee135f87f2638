-- ===== src/Runtime/Outbox/Deliver.antt =====
-- `enqueue_effect` and `deliver_effect` of src/agent_stack/runtime/outbox.py. A handler is a parameter: a call on
-- the files that returns, or raises an exception with a type and a message; it does not change the
-- document that it is given.
-- An exception of a handler: the name of its type, and its text.
use Prim.Native.Char.{Char}
use agent_workflow_pack.Canonical.{canonical_json, canonical_null}
use agent_workflow_pack.Canonical.Chars.{chars, of_chars}
use agent_workflow_pack.Io.{Io, asks, lift, pure, ◌>>=◌, ◌>>◌}
use agent_workflow_pack.Json.{Fields, Value, end, field, get, null, num, obj, put, text}
use agent_workflow_pack.Platform.{Platform}
use agent_workflow_pack.Prelude.{
  List, Option, String, [], if◌then◌else◌, none, some, suc, zero, ℕ, ◌+◌, ◌==◌, ◌∷◌,
}
use agent_workflow_pack.Reconcile.Cas.{compare_and_swap}
use agent_workflow_pack.Reconcile.Files.{
  FileState, Tree, absent, directory, is_directory, is_symlink, observe_file_state, regular,
  special, symlink,
}
use agent_workflow_pack.Result.{err, ok, os_error, reject, require}
use agent_workflow_pack.Route.Calculator.{is_none}
use agent_workflow_pack.Runtime.Outbox.{
  OutboxItem, absent_state, format_time, item_state, outbox_failure, outbox_path, read_item,
  validate_item,
}
use agent_workflow_pack.Runtime.Outbox.Queue.{Effect, Queued, existing_item, queue_effect}
use agent_workflow_pack.Runtime.Replay.Ledger.{rethrow}
use agent_workflow_pack.Runtime.TaskJournal.Store.{write_node}

pub record HandlerError : Type 0 where
  pub error_type : String
  pub message : String

abbrev pub Handler : Type 0
Handler = Fields → Tree → Option HandlerError × Tree

-- `try: handler(...) except Exception as error: failure = error`
abbrev pub call_handler : Handler → Fields → Io Tree (Option HandlerError)
call_handler handler document tree =
    let (outcome, after) = handler document tree in (ok outcome, after)

-- `str(failure)[:1024]`
abbrev pub first_chars : ℕ → List Char → List Char
first_chars n [] = []
first_chars zero (c ∷ cs) = []
first_chars (suc n) (c ∷ cs) = c ∷ first_chars n cs

abbrev pub failure_document : Option HandlerError → Value
failure_document none = null
failure_document (some e) = obj (
    field "error_type" (text e.error_type)
      (field "message" (text (of_chars (first_chars 1024 (chars e.message)))) end))

abbrev pub outcome_state : Option HandlerError → String
outcome_state none = "delivered"
outcome_state (some e) = "failed"

abbrev pub delivered_time : Option HandlerError → String → Value
delivered_time none time = text time
delivered_time (some e) time = null

-- `delivery.update(...)`
abbrev pub settled_delivery : Fields → String → ℕ → Option HandlerError → Fields
settled_delivery delivery time count outcome = put "failure" (failure_document outcome) (
    put "delivered_at" (delivered_time outcome time) (
      put "last_attempt_at" (text time)
        (put "attempt_count" (num count) (put "state" (text (outcome_state outcome)) delivery))))

abbrev pub delivery_of : Fields → Fields
delivery_of document = elim (get document "delivery") [ obj d ↦ d | _ ↦ end ]

-- The document after an attempt.
abbrev pub settled_document : OutboxItem → String → Option HandlerError → Fields
settled_document item time outcome =
    put "delivery"
      (obj (settled_delivery (delivery_of item.document) time (item.attempt_count + 1) outcome))
      item.document

-- `mkdir` of one directory, where it may be there: a link above the outbox is followed.
abbrev pub make_directory : String → Io Tree (Unit {0})
make_directory path tree = elim (tree.node path) [
  | directory m ↦ (ok tt, tree)
  | symlink ↦ (ok tt, tree)
  | absent ↦ write_node path (directory 493) tree
  | special ↦ (err os_error, tree)
  | regular m s ↦ (err os_error, tree)
]

abbrev pub outbox_root : String
outbox_root = ".agent-workflow/local/task-outbox"

-- The directory of the outbox, made where it is missing.
unfoldable pub make_outbox : Io Tree (Unit {0})
make_outbox = do
  asks (λ tree.
      reject (is_symlink (tree.node outbox_root)) (outbox_failure "outbox root is a symlink"))
  make_directory ".agent-workflow"
  make_directory ".agent-workflow/local"
  make_directory outbox_root
  asks (λ tree.
      require (is_directory (tree.node outbox_root)) (outbox_failure "outbox root is unavailable"))

module _ (py : Platform) where
  unfoldable pub store_item : FileState → FileState → String → String → Io Tree (Unit {0})
  store_item before after payload message = do
    _ ← rethrow (compare_and_swap py before after (some payload)) (outbox_failure message)
    pure tt

  -- What follows the call of the handler.
  unfoldable pub settle_attempt :
      OutboxItem → FileState → String → Option HandlerError → Io Tree OutboxItem
  settle_attempt item observed time outcome = do
    let document = settled_document item time outcome
    payload ← lift (canonical_json py (obj document))
    store_item observed (item_state py observed.path payload) payload
        "outbox item changed during delivery CAS"
    result ← lift (validate_item py document item.effect_id)
    lift (
        require (is_none outcome)
          (outbox_failure "outbox handler failed; effect remains retryable"))
    pure result

  -- An attempt at an effect that is not delivered.
  unfoldable pub attempt_effect :
      OutboxItem → FileState → Option String → Handler → Io Tree OutboxItem
  attempt_effect item observed attempted_at handler = do
    time ← lift (format_time attempted_at)
    outcome ← call_handler handler item.document
    settle_attempt item observed time outcome

  module _ (json_loads : String → Option Value) where
    -- The branches `if observed.exists` and its other one.
    unfoldable pub settle_effect : Queued → String → String → FileState → Io Tree OutboxItem
    settle_effect q path payload observed =
        if observed.present_
        then asks (λ tree. existing_item py json_loads q.effect_id payload tree)
        else (do
          store_item (absent_state path) (item_state py path payload) payload
              "outbox item changed during CAS"
          lift (validate_item py q.queued q.effect_id))

    unfoldable pub enqueue_effect : Effect → Io Tree OutboxItem
    enqueue_effect e = do
      q ← lift (queue_effect py e)
      path ← lift (outbox_path q.effect_id)
      make_outbox
      payload ← lift (canonical_json py (obj q.queued))
      observed ← asks (observe_file_state py path canonical_null)
      settle_effect q path payload observed

    unfoldable pub deliver_effect : String → Option String → Handler → Io Tree OutboxItem
    deliver_effect effect_id attempted_at handler = do
      read ← asks (read_item py json_loads effect_id)
      if read.0.delivery_state == "delivered"
          then pure read.0
          else attempt_effect read.0 read.1 attempted_at handler
