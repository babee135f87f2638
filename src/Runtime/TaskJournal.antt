-- ===== src/Runtime/TaskJournal.antt =====
-- src/agent_stack/runtime/task_journal.py: the journals of task transactions, and what a journal has to
-- be. The `details` of a failure are left out.
pub mod Read
pub mod Store
pub mod Check
pub mod Final
pub mod Advance
pub mod History
pub mod Complete
pub mod Run
use agent_workflow_pack.Canonical.{digest}
use agent_workflow_pack.Ident.{is_uuid}
use agent_workflow_pack.Json.{
  Fields, Value, as_arr, as_obj, as_text, eq_value, get, has_fields, is_null, is_unhashable, lookup,
  mem_value, num, obj, text,
}
use agent_workflow_pack.Platform.{Platform}
use agent_workflow_pack.Prelude.{
  Bool, List, Option, String, [], false, none, some, true, ℕ, ◌&&◌, ◌==◌, ◌||◌, ◌∷◌,
}
use agent_workflow_pack.Result.{
  Exn, Result, failure, ok, present, reject, require, type_error, ◌>>=◌, ◌>>◌,
}

-- `_failure`
abbrev pub journal_failure : String → Exn
journal_failure message = failure "AWP_TASK_TRANSACTION_RECOVERY_REQUIRED" message

abbrev pub short_phases : List (String × ℕ)
short_phases =
    ("planned", 0) ∷ ("integration_committed", 1) ∷ ("cleanup_pending", 2) ∷ ("complete", 3) ∷ []

-- `_PHASES`
abbrev pub phases : List (String × List (String × ℕ))
phases =
    (
      "admit",
      ("planned", 0)
          ∷ ("staged", 1)
          ∷ ("task_moved", 2)
          ∷ ("metadata_applied", 3)
          ∷ ("admission_committed", 4)
          ∷ ("cleanup_pending", 5)
          ∷ ("complete", 6)
          ∷ [],
    )
    ∷ ("claim", short_phases)
    ∷ ("transition", short_phases)
    ∷ ("release", short_phases)
    ∷ (
      "archive",
      ("planned", 0)
          ∷ ("state_marked", 1)
          ∷ ("task_moved", 2)
          ∷ ("metadata_applied", 3)
          ∷ ("archive_committed", 4)
          ∷ ("cleanup_pending", 5)
          ∷ ("complete", 6)
          ∷ [],
    )
    ∷ []

-- `_PHASES[operation][phase]`, where both are known.
unfoldable pub rank_of : String → String → Option ℕ
rank_of operation phase = elim (lookup phases operation) [
  | none ↦ none
  | some ranks ↦ lookup ranks phase
]

abbrev pub transaction_fields : List String
transaction_fields =
    "schema_id" ∷ "schema_version" ∷ "transaction_id" ∷ "operation" ∷ "task_id" ∷ "task_ref"
    ∷ "immutable_header" ∷ "journal_binding_digest" ∷ "phase" ∷ "outcome" ∷ "diagnostics"
    ∷ "rollback_state" ∷ []

-- The identity of a transaction, as `journal_path` takes it.
abbrev pub check_transaction : String → Result (Unit {0})
check_transaction transaction_id =
    require (is_uuid transaction_id) (journal_failure "task transaction ID is not canonical")

abbrev pub is_expected : Option String → String → Bool
is_expected none transaction_id = true
is_expected (some expected) transaction_id = transaction_id == expected

-- `_validate`, as far as the identity of the path.
unfoldable pub check_identity : Fields → Option String → Result (Unit {0})
check_identity document expected = do
  require (has_fields document transaction_fields)
      (journal_failure "task journal fields are not closed")
  require
      (eq_value (get document "schema_id") (text "agent-workflow.task-transaction")
        && eq_value (get document "schema_version") (num 1))
      (journal_failure "task journal schema is unsupported")
  transaction_id ←
      present (as_text (get document "transaction_id"))
        (journal_failure "task journal transaction ID is invalid")
  check_transaction transaction_id
  require (is_expected expected transaction_id)
      (journal_failure "task journal path identity differs")

-- The rank of the phase among the operation's.
unfoldable pub phase_rank : Fields → Result ℕ
phase_rank document = do
  operation ←
      present (as_text (get document "operation"))
        (journal_failure "task journal operation is invalid")
  ranks ← present (lookup phases operation) (journal_failure "task journal operation is invalid")
  phase ← present (as_text (get document "phase")) (journal_failure "task journal phase is invalid")
  present (lookup ranks phase) (journal_failure "task journal phase is invalid")

unfoldable pub check_header : Platform → Fields → Result (Unit {0})
check_header py document = do
  header ←
      present (as_obj (get document "immutable_header"))
        (journal_failure "task journal immutable header is invalid")
  actual ← digest py "agent-workflow.task-transaction.v1" (obj header)
  require (eq_value (get document "journal_binding_digest") (text actual))
      (journal_failure "task journal immutable binding changed")
  require
      (eq_value (get document "task_id") (get header "task_id")
        && eq_value (get document "task_ref") (get header "task_ref"))
      (journal_failure "task journal identity differs from immutable header")

abbrev pub outcomes : List String
outcomes = "committed" ∷ "rolled-back" ∷ []

abbrev pub is_some {ℓ} : {A : Type ℓ} → Option A → Bool
is_some none = false
is_some (some a) = true

unfoldable pub check_outcome : Fields → Result (Unit {0})
check_outcome document = do
  require
      (is_some (as_arr (get document "diagnostics"))
        && is_some (as_obj (get document "rollback_state")))
      (journal_failure "task journal mutable state is invalid")
  reject (is_unhashable (get document "outcome")) type_error
  require (is_null (get document "outcome") || mem_value (get document "outcome") outcomes)
      (journal_failure "task journal outcome is invalid")
  reject (eq_value (get document "phase") (text "complete") && is_null (get document "outcome"))
      (journal_failure "complete task journal has no outcome")

-- `_validate` of a mapping
unfoldable pub validate_fields : Platform → Fields → Option String → Result Fields
validate_fields py document expected = do
  check_identity document expected
  _ ← phase_rank document
  check_header py document
  check_outcome document
  ok document

-- `_validate`
abbrev pub validate_journal : Platform → Value → Option String → Result Fields
validate_journal py document expected = do
  fields ← present (as_obj document) (journal_failure "task journal fields are not closed")
  validate_fields py fields expected
