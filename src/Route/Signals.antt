-- ===== src/Route/Signals.antt =====
-- src/agent_stack/route/signals.py: the compiled route policy and its evaluation.
use mathlib.Core.Option
use Prim.Native.String.{◌++◌ as append}
pub mod Laws
pub mod Order
pub mod Boundary
pub mod Load
use package.text.Mathlib.Text.{starts_with}
use agent_workflow_pack.Canonical.{digest}
use agent_workflow_pack.Json.{
  Value, as_arr, as_obj, as_text, as_texts, eq_value, get, has_fields, num, obj, text,
}
use agent_workflow_pack.Platform.{Platform}
use agent_workflow_pack.Prelude.{
  Bool, List, Option, String, [], any, eq_texts, if◌then◌else◌, keep, length, ltb, map, mem,
  no_repeat, none, not, some, sorted_texts, subset, ℕ, ◌&&◌, ◌++◌, ◌==◌, ◌||◌, ◌∷◌,
}
use agent_workflow_pack.Prelude.Sort.{sorted}
use agent_workflow_pack.Result.{
  Exn, Result, err, failure, ok, present, reject, require, traverse, ◌>>=◌, ◌>>◌,
}

abbrev pub signal_failure : String → Exn
signal_failure message = failure "AWP_ROUTE_SIGNAL_INVALID" message

pub record CompoundRule : Type 0 where
  pub rule_id : String
  pub all_signals : List String

pub record CompiledRoutePolicy : Type 0 where
  pub policy_version : ℕ
  pub default_route : String
  pub hard_signals : List String
  pub compound_rules : List CompoundRule
  pub known_signals : List String
  pub policy_digest : String

pub record PolicyResult : Type 0 where
  pub route : String
  pub matched_rule_ids : List String
  pub signals : List String
  pub reasons : List String

-- `all(isinstance(item, str) and item for item in value)`, with the texts.
abbrev pub nonempty_texts : List Value → Option (List String)
nonempty_texts vs = elim (as_texts vs) [
  | none ↦ none
  | some ss ↦ if any (λ s. s == "") ss then none else some ss
]

abbrev pub string_array : Value → Result (List String)
string_array value = do
  items ← present (as_arr value) (signal_failure "compiled policy string array is invalid")
  result ← present (nonempty_texts items) (signal_failure "compiled policy string array is invalid")
  require (no_repeat result) (signal_failure "compiled policy string array contains duplicates")
  ok result

abbrev pub is_sorted : List String → Bool
is_sorted xs = eq_texts xs (sorted_texts xs)

abbrev pub compound_rule : Value → Result CompoundRule
compound_rule (obj raw) = do
  require (has_fields raw ("rule_id" ∷ "all" ∷ []))
      (signal_failure "compound rule fields are not closed")
  rule_id ← present (as_text (get raw "rule_id")) (signal_failure "compound rule ID is invalid")
  require (starts_with rule_id "compound:") (signal_failure "compound rule ID is invalid")
  all_signals ← string_array (get raw "all")
  reject (ltb (length all_signals) 2 || not (is_sorted all_signals))
      (signal_failure "compound signal set is invalid")
  ok (record { rule_id = rule_id; all_signals = all_signals })
compound_rule _ = err (signal_failure "compound rule fields are not closed")

abbrev pub rule_ids : List CompoundRule → List String
rule_ids rules = map (λ (r : CompoundRule). r.rule_id) rules

abbrev pub signals_of : List CompoundRule → List String
signals_of [] = []
signals_of (r ∷ rules) = r.all_signals ++ signals_of rules

abbrev pub policy_fields : List String
policy_fields =
    "schema_id" ∷ "schema_version" ∷ "policy_version" ∷ "default_route" ∷ "hard_signals"
    ∷ "compound_rules" ∷ []

module _ (py : Platform) where
  -- `document` is what `yaml.safe_load` gives, or `none` where the file cannot be read or parsed.
  unfoldable pub load_compiled_policy : Option Value → Result CompiledRoutePolicy
  unfolding eq_texts eq_value sorted
  load_compiled_policy document = do
    loaded ← present document (signal_failure "compiled route policy cannot be loaded")
    d ← present (as_obj loaded) (signal_failure "compiled route policy fields are not closed")
    require (has_fields d policy_fields)
        (signal_failure "compiled route policy fields are not closed")
    require
        (eq_value (get d "schema_id") (text "agent-workflow.route-policy")
          && eq_value (get d "schema_version") (num 1)
          && eq_value (get d "policy_version") (num 1))
        (signal_failure "compiled route policy version is unsupported")
    require (eq_value (get d "default_route") (text "native-light"))
        (signal_failure "compiled route policy default is invalid")
    hard ← string_array (get d "hard_signals")
    require (is_sorted hard) (signal_failure "hard signal list is not sorted")
    raw_compounds ←
        present (as_arr (get d "compound_rules")) (signal_failure "compound rules are invalid")
    compounds ← traverse compound_rule raw_compounds
    require (is_sorted (rule_ids compounds)) (signal_failure "compound rules are not sorted")
    policy_digest ← digest py "agent-workflow.route-policy.v1" loaded
    ok (record {
      policy_version = 1;
      default_route = "native-light";
      hard_signals = hard;
      compound_rules = compounds;
      known_signals = hard ++ signals_of compounds;
      policy_digest = policy_digest;
    })

unfoldable pub normalize_signals : List Value → CompiledRoutePolicy → Result (List String)
normalize_signals signals policy = do
  supplied ← present (nonempty_texts signals) (signal_failure "signal set is not a string sequence")
  require (no_repeat supplied) (signal_failure "signal set contains duplicate IDs")
  require (subset supplied policy.known_signals) (signal_failure "signal set contains unknown IDs")
  ok (sorted_texts supplied)

-- The rule identities that a signal set matches: the hard signals, then the compound rules.
abbrev pub matched : List String → CompiledRoutePolicy → List String
matched normalized policy =
    map (λ signal. append "hard:" signal) (keep (λ s. mem s policy.hard_signals) normalized)
    ++ rule_ids (keep (λ r. subset r.all_signals normalized) policy.compound_rules)

abbrev pub choose_route : List String → List String → CompiledRoutePolicy → String
choose_route (mode ∷ modes) ordered policy = mode
choose_route [] (rule ∷ ordered) policy = "speckit-superpowers"
choose_route [] [] policy = policy.default_route

abbrev pub explicit_routes : List String
explicit_routes = "trellis-native" ∷ "speckit-superpowers" ∷ []

-- `PolicyResult(...)`, at the end of the evaluation.
unfoldable pub policy_result : List String → List String → CompiledRoutePolicy → PolicyResult
policy_result normalized modes policy =
    let ordered = sorted_texts (matched normalized policy) in
    record {
      route = choose_route modes ordered policy;
      matched_rule_ids = ordered;
      signals = normalized;
      reasons = map (λ rule_id. append "matched:" rule_id) ordered;
    }

unfoldable pub evaluate_compiled_policy :
    List Value → List Value → CompiledRoutePolicy → Result PolicyResult
evaluate_compiled_policy signals explicit_modes policy = do
  normalized ← normalize_signals signals policy
  modes ← present (as_texts explicit_modes) (signal_failure "explicit mode set is invalid")
  require (no_repeat modes) (signal_failure "explicit mode set contains duplicates")
  require (subset modes explicit_routes)
      (signal_failure "explicit mode set contains an unknown route")
  reject (ltb 1 (length modes)) (signal_failure "conflicting explicit modes are forbidden")
  ok (policy_result normalized modes policy)
