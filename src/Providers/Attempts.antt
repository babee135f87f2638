-- ===== src/Providers/Attempts.antt =====
-- src/agent_stack/providers/attempts.py: the whole-file journal of provider attempts and the immutable
-- release receipts. The lock of the provider plan makes each method one step, so a method is a function
-- of the store. A file is what its bytes parse to: `canonical_json_bytes`, read back by `json.loads`,
-- gives the normalised document.
pub mod Receipts
pub mod Methods
pub mod Validate
pub mod Write
pub mod Moves
pub mod Steps
pub mod Progress
pub mod Recovery
use agent_workflow_pack.Canonical.{canonical_null, int_text}
use agent_workflow_pack.Ident.{is_sha256, is_uuid}
use agent_workflow_pack.Json.{
  Fields, Value, arr, as_arr, bool, end, eq_value, field, find, get, has_fields, int, is_unhashable,
  keys, mem_value, nil, null, num, obj, text, to_list,
}
use agent_workflow_pack.Prelude.{
  Bool, List, Option, String, [], all, false, if◌then◌else◌, ltb, mem, none, some, suc, true, ℕ,
  ◌&&◌, ◌++◌, ◌==◌, ◌||◌, ◌∷◌,
}
use agent_workflow_pack.Result.{
  Exn, Result, assertion_error, err, failure, key_error, ok, present, reject, require, type_error,
  ◌>>=◌, ◌>>◌,
}

abbrev pub corrupt : String → Exn
corrupt message = failure "AWP_PROVIDER_ATTEMPT_CORRUPT" message

-- What stands at a path: a link, a directory or a device; bytes that are no JSON; a document.
pub data Node : Type 0 where
  irregular : Node
  unreadable : Node
  json : Value → Node

pub record Store : Type 0 where
  pub journal : Option Node
  pub receipts : String → Option Node

-- The immutable arguments of an `AttemptStore`.
pub record Plan : Type 0 where
  pub workspace_instance_id : String
  pub provider_plan_digest : String
  pub prospective_transaction_id : String
  pub approval_digest : String

pub record AttemptRecord : Type 0 where
  pub attempt_id : String
  pub state : String
  pub release_token_digest : String
  pub broker_liveness_identity : String
  pub document : Fields

abbrev pub terminal_states : List String
terminal_states = "succeeded" ∷ "failed" ∷ "interrupted" ∷ []

abbrev pub live_states : List String
live_states = "prepared" ∷ "released" ∷ []

abbrev pub attempt_states : List String
attempt_states = live_states ++ terminal_states

-- `_uuid` and `_digest`. The label with which their messages begin is left out.
abbrev pub check_uuid : String → Result String
check_uuid value =
    if is_uuid value then ok value else err (corrupt "identity is not a canonical UUID")

abbrev pub check_digest : String → Result String
check_digest value =
    if is_sha256 value then ok value else err (corrupt "digest is not lowercase SHA-256")

-- `_digest(value, label, allow_null=True)`
abbrev pub check_digest_or_null : String → Result String
check_digest_or_null value = if value == canonical_null then ok value else check_digest value

-- `AttemptStore.__init__`: the checks of the arguments, in their order.
unfoldable pub open_store : String → String → String → String → Result Plan
open_store workspace plan transaction approval = do
  workspace_instance_id ← check_uuid workspace
  provider_plan_digest ← check_digest plan
  prospective_transaction_id ← check_uuid transaction
  approval_digest ← check_digest_or_null approval
  ok (record {
    workspace_instance_id = workspace_instance_id;
    provider_plan_digest = provider_plan_digest;
    prospective_transaction_id = prospective_transaction_id;
    approval_digest = approval_digest;
  })

-- `str(value)`. A list or a dictionary prints in brackets, so that it is no identity; what stands
-- inside them is left out.
unfoldable pub str_of : Value → String
str_of null = "None"
str_of (bool true) = "True"
str_of (bool false) = "False"
str_of (int n) = int_text n
str_of (text s) = s
str_of (arr vs) = "[]"
str_of (obj d) = "{}"

-- `raw.get("state") in {...}`; after validation the state can be hashed.
abbrev pub state_in : List String → Value → Bool
state_in states (obj raw) = mem_value (get raw "state") states
state_in states _ = false

abbrev pub is_live : Value → Bool
is_live = state_in live_states

abbrev pub check_state : Value → Result (Unit {0})
check_state state =
    if is_unhashable state
    then err type_error
    else require (mem_value state attempt_states) (corrupt "attempt state is invalid")

-- The loop of `_validate_attempts`, with the identities, the tokens and the live attempts so far.
unfoldable pub validate_from : List String → List String → ℕ → List Value → Result (Unit {0})
validate_from ids tokens live [] =
    reject (ltb 1 live) (corrupt "multiple provider attempts overlap")
validate_from ids tokens live (obj raw ∷ rest) = do
  attempt_id ← check_uuid (str_of (get raw "attempt_id"))
  token ← check_digest (str_of (get raw "release_token_digest"))
  check_state (get raw "state")
  reject (mem attempt_id ids || mem token tokens) (corrupt "attempt id or release token repeats")
  validate_from (attempt_id ∷ ids) (token ∷ tokens) (if is_live (obj raw) then suc live else live)
      rest
validate_from ids tokens live (_ ∷ rest) = err (corrupt "attempt record must be an object")

unfoldable pub validate_attempts : Value → Result (Unit {0})
unfolding validate_from
validate_attempts (arr vs) = validate_from [] [] 0 (to_list vs)
validate_attempts _ = err (corrupt "attempts must be an array")

unfoldable pub empty_journal : Plan → Fields
empty_journal p = field "schema_id" (text "agent-workflow.provider-attempts") (
    field "schema_version" (num 1) (
      field "workspace_instance_id" (text p.workspace_instance_id) (
        field "provider_plan_digest" (text p.provider_plan_digest) (
          field "prospective_transaction_id" (text p.prospective_transaction_id)
            (field "approval_digest" (text p.approval_digest) (field "attempts" (arr nil) end))))))

abbrev pub identity_fields : List String
identity_fields =
    "schema_id" ∷ "schema_version" ∷ "workspace_instance_id" ∷ "provider_plan_digest"
    ∷ "prospective_transaction_id" ∷ "approval_digest" ∷ []

-- All the named fields of two documents are equal.
abbrev pub agree : Fields → Fields → List String → Bool
agree d e names = all (λ name. eq_value (get d name) (get e name)) names

abbrev pub is_arr : Value → Bool
is_arr (arr vs) = true
is_arr _ = false

unfoldable pub check_journal : Plan → Value → Result Fields
unfolding eq_value empty_journal validate_attempts
check_journal p (obj document) = do
  require (agree document (empty_journal p) identity_fields)
      (corrupt "attempt journal identity mismatch")
  require (has_fields document (keys (empty_journal p)) && is_arr (get document "attempts"))
      (corrupt "attempt journal fields are not closed")
  validate_attempts (get document "attempts")
  ok document
check_journal p _ = err (corrupt "attempt journal must be an object")

abbrev pub read_journal : Plan → Option Node → Result Fields
read_journal p none = ok (empty_journal p)
read_journal p (some irregular) = err (corrupt "attempt journal is not a regular file")
read_journal p (some unreadable) = err (corrupt "attempt journal is corrupt JSON")
read_journal p (some (json document)) = check_journal p document

unfoldable pub load : Plan → Store → Result Fields
load p s = read_journal p s.journal

-- `document["attempts"]`, with the assertion that it is a list.
abbrev pub attempts_of : Fields → Result (List Value)
attempts_of document = present (as_arr (get document "attempts")) assertion_error

-- The list that `_find` searches.
abbrev pub listed_attempts : Fields → Result (List Value)
listed_attempts document =
    present (as_arr (get document "attempts")) (corrupt "attempt journal has no attempts array")

abbrev pub named : String → Value → Bool
named attempt_id (obj raw) = eq_value (get raw "attempt_id") (text attempt_id)
named attempt_id _ = false

-- `_find`: the first attempt of that identity, with its index.
unfoldable pub find_from : ℕ → List Value → String → Result (ℕ × Fields)
unfolding eq_value
find_from index [] attempt_id = err (corrupt "attempt id does not exist")
find_from index (obj raw ∷ rest) attempt_id =
    let later = find_from (suc index) rest attempt_id in
    if named attempt_id (obj raw) then ok (index, raw) else later
find_from index (_ ∷ rest) attempt_id = find_from (suc index) rest attempt_id

-- `AttemptRecord(...)` of a raw record: a missing field is a `KeyError`.
unfoldable pub attempt_record : Fields → Result AttemptRecord
unfolding str_of
attempt_record raw = do
  attempt_id ← present (find raw "attempt_id") key_error
  state ← present (find raw "state") key_error
  token ← present (find raw "release_token_digest") key_error
  liveness ← present (find raw "broker_liveness_identity") key_error
  ok (record {
    attempt_id = str_of attempt_id;
    state = str_of state;
    release_token_digest = str_of token;
    broker_liveness_identity = str_of liveness;
    document = raw;
  })
