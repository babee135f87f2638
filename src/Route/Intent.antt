-- ===== src/Route/Intent.antt =====
-- src/agent_stack/route/intent.py: the closed executable TaskIntent.
use Prim.Native.String
pub mod Laws
pub mod Stable
use agent_workflow_pack.Canonical.{digest, normalize_nfc}
use agent_workflow_pack.Canonical.Chars.{strip}
use agent_workflow_pack.Json.{
  Fields, Value, as_arr, end, eq_value, field, get, has_fields, is_unhashable, null, num, obj,
  optional_text, text, texts,
}
use agent_workflow_pack.Platform.{Platform}
use agent_workflow_pack.Prelude.{
  List, Option, String, [], false, if◌then◌else◌, ltb, mem, none, some, true, ◌&&◌, ◌==◌, ◌||◌, ◌∷◌,
}
use agent_workflow_pack.Result.{
  Exn, Result, err, failure, ok, present, require, type_error, ◌>>=◌, ◌>>◌,
}
use agent_workflow_pack.Route.Signals.{CompiledRoutePolicy, normalize_signals}

abbrev pub intent_failure : String → Exn
intent_failure message = failure "AWP_ROUTE_SIGNAL_INVALID" message

abbrev pub intent_fields : List String
intent_fields =
    "schema_id" ∷ "schema_version" ∷ "intent_id" ∷ "title" ∷ "objective" ∷ "requested_mode"
    ∷ "acceptance_summary" ∷ "signals" ∷ []

abbrev pub intent_modes : List String
intent_modes = "native-light" ∷ "trellis-native" ∷ "speckit-superpowers" ∷ []

pub record VerifiedTaskIntent : Type 0 where
  pub document : Fields
  pub intent_id : String
  pub requested_mode : Option String
  pub signals : List String
  pub intent_digest : String

-- `requested not in _MODES`: a list or an object cannot be hashed.
abbrev pub requested_mode_of : Value → Result (Option String)
requested_mode_of null = ok none
requested_mode_of (text mode) =
    if mem mode intent_modes
    then ok (some mode)
    else err (intent_failure "TaskIntent requested mode is invalid")
requested_mode_of value =
    if is_unhashable value
    then err type_error
    else err (intent_failure "TaskIntent requested mode is invalid")

module _ (py : Platform) where
  unfoldable pub intent_text : Value → Result String
  unfolding normalize_nfc
  intent_text (text value) =
      let normalized = strip (normalize_nfc py value) in
      if normalized == "" || ltb 4096 (String.len normalized)
      then err (intent_failure "TaskIntent text is empty or oversized")
      else ok normalized
  intent_text value = err (intent_failure "TaskIntent text is invalid")

  abbrev pub normalized_intent :
      Option String → List String → String → String → String → String → Fields
  normalized_intent requested signals intent_id title objective acceptance_summary =
      field "schema_id" (text "agent-workflow.task-intent") (
        field "schema_version" (num 1) (
          field "intent_id" (text intent_id) (
            field "title" (text title) (
              field "objective" (text objective) (
                field "requested_mode" (optional_text requested) (
                  field "acceptance_summary" (text acceptance_summary)
                    (field "signals" (texts signals) end)))))))

  -- `VerifiedTaskIntent(...)` of the normalized document, with its digest.
  unfoldable pub verified_intent :
      Option String → List String → String → String → String → String → Result VerifiedTaskIntent
  verified_intent requested signals intent_id title objective acceptance_summary = do
    let normalized =
        normalized_intent requested signals intent_id title objective acceptance_summary
    intent_digest ← digest py "agent-workflow.task-intent.v1" (obj normalized)
    ok (record {
      document = normalized;
      intent_id = intent_id;
      requested_mode = requested;
      signals = signals;
      intent_digest = intent_digest;
    })

  -- The four texts, in the order of the normalized document.
  unfoldable pub intent_texts : Option String → List String → Fields → Result VerifiedTaskIntent
  intent_texts requested signals document = do
    intent_id ← intent_text (get document "intent_id")
    title ← intent_text (get document "title")
    objective ← intent_text (get document "objective")
    acceptance_summary ← intent_text (get document "acceptance_summary")
    verified_intent requested signals intent_id title objective acceptance_summary

  unfoldable pub validate_task_intent :
      Fields → CompiledRoutePolicy → Option (List String) → Result VerifiedTaskIntent
  unfolding eq_value
  validate_task_intent document policy separate_signals = do
    require (elim separate_signals [ none ↦ true | some s ↦ false ])
        (intent_failure "executable operations reject a separate --signals option")
    require (has_fields document intent_fields) (intent_failure "TaskIntent fields are not closed")
    require
        (eq_value (get document "schema_id") (text "agent-workflow.task-intent")
          && eq_value (get document "schema_version") (num 1))
        (intent_failure "TaskIntent schema is unsupported")
    requested ← requested_mode_of (get document "requested_mode")
    raw_signals ←
        present (as_arr (get document "signals")) (intent_failure "TaskIntent signals are invalid")
    signals ← normalize_signals raw_signals policy
    intent_texts requested signals document
