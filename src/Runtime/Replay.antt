-- ===== src/Runtime/Replay.antt =====
-- src/agent_stack/runtime/replay.py: the ledger of approval proofs, its entries and their checks. An
-- instant is a number of microseconds in UTC.
use Prim.Native.String.{◌++◌ as append}
pub mod Ledger
pub mod Writes
pub mod Laws
use Prim.Native.Char.{Char, code}
use agent_workflow_pack.Canonical.{canonical_json, canonical_null}
use agent_workflow_pack.Canonical.Chars.{chars}
use agent_workflow_pack.Ident.{is_sha256, is_uuid}
use agent_workflow_pack.Json.{
  Fields, Value, as_obj, end, entries, eq_value, field, get, has_fields, is_null, is_unhashable,
  null, num, obj, optional_text, put, text,
}
use agent_workflow_pack.Platform.{Platform}
use agent_workflow_pack.Prelude.{
  Bool, List, Option, String, [], eqb, false, if◌then◌else◌, ltb, mem, none, some, true, ℕ, ◌&&◌,
  ◌==◌, ◌∷◌,
}
use agent_workflow_pack.Reconcile.Files.{FileNode, FileState, Tree, observe_file_state, regular}
use agent_workflow_pack.Result.{
  Exn, Result, err, failure, map_result, ok, present, reject, require, type_error, ◌>>=◌, ◌>>◌,
}

abbrev pub replay_failure : String → Exn
replay_failure message = failure "AWP_APPROVAL_REPLAY_BLOCKED" message

-- What the ledger takes from Python's `json` and `datetime`.
pub record Clock : Type 0 where
  -- `json.loads` of a text, where it is JSON
  pub json_loads : String → Option Value
  -- `datetime.fromisoformat(value[:-1] + "+00:00")` of a text that ends in "Z"
  pub from_isoformat : String → Option ℕ
  -- `value.astimezone(UTC).isoformat().replace("+00:00", "Z")`
  pub isoformat : ℕ → String

pub record ReplayEntry : Type 0 where
  pub proof_key : String
  pub bound_transaction_id : String
  pub state : String
  pub validated_at : String
  pub proof_expires_at : String
  pub consumed_at : Option String

-- `_canonical_uuid` of a text. A text that is no UUID and one that is spelled otherwise fail with the
-- same code, and the two messages are not told apart.
abbrev pub canonical_uuid : String → Result String
canonical_uuid value =
    if is_uuid value then ok value else err (replay_failure "approval replay UUID is not canonical")

-- `_canonical_uuid` of a field of a document: `uuid.UUID(None)` raises a `TypeError`, which is not
-- caught; of any other value that is no text, an `AttributeError`, which is.
abbrev pub uuid_field : Value → Result String
uuid_field (text s) = canonical_uuid s
uuid_field null = err type_error
uuid_field _ = err (replay_failure "approval replay UUID is invalid")

-- `_sha256`
abbrev pub sha256_text : String → Result String
sha256_text value =
    if is_sha256 value then ok value else err (replay_failure "approval replay digest is invalid")

-- `_utc`: a time without a zone is `none`.
abbrev pub utc : Option ℕ → Result ℕ
utc value = present value (replay_failure "approval replay time is not timezone aware")

abbrev pub ends_in_z : List Char → Bool
ends_in_z [] = false
ends_in_z (c ∷ []) = eqb (code c) b'Z'
ends_in_z (c ∷ d ∷ cs) = ends_in_z (d ∷ cs)

-- `_parse`
unfoldable pub parse_time : Clock → Value → Result ℕ
parse_time clock (text s) = do
  require (ends_in_z (chars s)) (replay_failure "approval replay timestamp is invalid")
  present (clock.from_isoformat s) (replay_failure "approval replay timestamp is invalid")
parse_time clock _ = err (replay_failure "approval replay timestamp is invalid")

unfoldable pub proof_key_of : Platform → String → String → String → String → Result String
proof_key_of py approval_id approval_challenge route_decision_digest workspace_instance_id = do
  approval ← canonical_uuid approval_id
  challenge ← sha256_text approval_challenge
  route ← sha256_text route_decision_digest
  workspace ← canonical_uuid workspace_instance_id
  map_result py.sha256 (
      canonical_json py (
        obj (
          field "approval_id" (text approval) (
            field "approval_challenge" (text challenge) (
              field "route_decision_digest" (text route)
                (field "workspace_instance_id" (text workspace) end))))))

abbrev pub entry_fields : List String
entry_fields =
    "bound_transaction_id" ∷ "state" ∷ "validated_at" ∷ "proof_expires_at" ∷ "consumed_at" ∷ []

-- `state not in {"reserved", "consumed"}`
abbrev pub entry_state : Value → Result String
entry_state (text s) =
    if mem s ("reserved" ∷ "consumed" ∷ [])
    then ok s
    else err (replay_failure "approval replay state is invalid")
entry_state v =
    if is_unhashable v
    then err type_error
    else err (replay_failure "approval replay state is invalid")

-- The time of consumption that belongs to the state.
abbrev pub consumed_time : Clock → String → Value → Result (Option String)
consumed_time clock state value =
    if state == "reserved"
    then (do
      require (is_null value) (replay_failure "reserved replay entry has consumed_at")
      ok none)
    else map_result (λ t. some (clock.isoformat t)) (parse_time clock value)

-- `_entry`
unfoldable pub entry_of : Clock → String → Value → Result ReplayEntry
entry_of clock key (obj raw) = do
  require (has_fields raw entry_fields) (replay_failure "approval replay entry is invalid")
  transaction_id ← uuid_field (get raw "bound_transaction_id")
  state ← entry_state (get raw "state")
  validated ← parse_time clock (get raw "validated_at")
  expires ← parse_time clock (get raw "proof_expires_at")
  consumed ← consumed_time clock state (get raw "consumed_at")
  reject (ltb expires validated) (replay_failure "approval proof expires before validation")
  ok (record {
    proof_key = key;
    bound_transaction_id = transaction_id;
    state = state;
    validated_at = clock.isoformat validated;
    proof_expires_at = clock.isoformat expires;
    consumed_at = consumed;
  })
entry_of clock key _ = err (replay_failure "approval replay entry is invalid")

abbrev pub entry_document : ReplayEntry → Value
entry_document e = obj (
    field "bound_transaction_id" (text e.bound_transaction_id) (
      field "state" (text e.state) (
        field "validated_at" (text e.validated_at) (
          field "proof_expires_at" (text e.proof_expires_at)
            (field "consumed_at" (optional_text e.consumed_at) end)))))

abbrev pub eq_optional : Option String → Option String → Bool
eq_optional none none = true
eq_optional (some s) (some t) = s == t
eq_optional _ _ = false

-- `entry == expected` for the dataclass
unfoldable pub same_entry : ReplayEntry → ReplayEntry → Bool
same_entry d e =
    d.proof_key == e.proof_key
    && d.bound_transaction_id == e.bound_transaction_id
    && d.state == e.state
    && d.validated_at == e.validated_at
    && d.proof_expires_at == e.proof_expires_at
    && eq_optional d.consumed_at e.consumed_at

abbrev pub ledger_fields : List String
ledger_fields =
    "schema_id" ∷ "schema_version" ∷ "project_id" ∷ "workspace_instance_id" ∷ "entries" ∷ []

-- An identity that the caller names is the ledger's.
abbrev pub same_identity : Option String → String → String → Result (Unit {0})
same_identity none actual message = ok tt
same_identity (some id) actual message = do
  named ← canonical_uuid id
  require (actual == named) (replay_failure message)

abbrev pub check_entries : Clock → List (String × Value) → Result (Unit {0})
check_entries clock [] = ok tt
check_entries clock ((key, raw) ∷ rest) = do
  _ ← sha256_text key
  _ ← entry_of clock key raw
  check_entries clock rest

-- The checks of `_load`, once the text of the file is read.
unfoldable pub check_ledger :
    Platform → Clock → Option String → Option String → String → Result (Fields × Fields)
check_ledger py clock project_id workspace_id payload = do
  parsed ←
      present (clock.json_loads payload)
        (replay_failure "registered approval replay ledger is corrupt")
  document ←
      present (as_obj parsed) (replay_failure "registered approval replay ledger is not canonical")
  canonical ← canonical_json py (obj document)
  require (canonical == payload)
      (replay_failure "registered approval replay ledger is not canonical")
  require (has_fields document ledger_fields)
      (replay_failure "approval replay ledger fields are not closed")
  require
      (eq_value (get document "schema_id") (text "agent-workflow.approval-replay")
        && eq_value (get document "schema_version") (num 1))
      (replay_failure "approval replay ledger schema is unsupported")
  actual_project ← uuid_field (get document "project_id")
  actual_workspace ← uuid_field (get document "workspace_instance_id")
  same_identity project_id actual_project "approval replay project identity differs"
  same_identity workspace_id actual_workspace "approval replay workspace identity differs"
  entries_ ←
      present (as_obj (get document "entries"))
        (replay_failure "approval replay entries are invalid")
  check_entries clock (entries entries_)
  ok (document, entries_)

abbrev pub replay_path : String
replay_path = ".agent-workflow/local/approval-replay.json"

abbrev pub content_of : FileNode → Option String
content_of (regular m content) = some content
content_of _ = none

module _ (py : Platform) (clock : Clock) where
  -- `_load`: the document, its entries and the observed state of the file.
  unfoldable pub load_ledger :
      Option String → Option String → Tree → Result ((Fields × Fields) × FileState)
  load_ledger project_id workspace_id tree = do
    state ← observe_file_state py replay_path canonical_null tree
    require (state.present_ && state.file_type == "regular" && state.mode == "0600")
        (replay_failure "registered approval replay ledger is missing or has invalid metadata")
    payload ←
        present (content_of (tree.node state.path))
          (replay_failure "registered approval replay ledger is corrupt")
    checked ← check_ledger py clock project_id workspace_id payload
    ok (checked, state)

  -- `_candidate`
  unfoldable pub candidate_state : FileState → String → FileState
  candidate_state state payload = record {
    path = state.path;
    present_ = true;
    file_type = "regular";
    byte_hash = py.sha256 payload;
    mode = "0600";
    non_symlink = true;
    managed_block_hash = canonical_null;
  }

abbrev pub with_entry : Fields → Fields → ReplayEntry → Fields
with_entry document entries_ e =
    put "entries" (obj (put e.proof_key (entry_document e) entries_)) document
