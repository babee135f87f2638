-- ===== src/Tests/Signals.antt =====
-- Runs of route/signals.py.
use mathlib.Core.List.Perm
use agent_workflow_pack.Canonical.{canonical_json, digest, normalize_json_value, normalize_nfc}
use agent_workflow_pack.Json.{Value, end, eq_value, eq_ℤ, field, list, num, obj, text, texts}
use agent_workflow_pack.Prelude.{
  List, String, [], any, arith, eq_texts, false, if◌then◌else◌, map, mem, no_repeat, refl, some,
  sorted_texts, subset, true, ◌==◌, ◌↔◌, ◌∷◌, ◌≡◌,
}
use agent_workflow_pack.Prelude.Sort.{insert, sorted}
use agent_workflow_pack.Result.{ok}
use agent_workflow_pack.Route.Signals.{
  PolicyResult, evaluate_compiled_policy, load_compiled_policy, normalize_signals, policy_result,
}
use agent_workflow_pack.Route.Signals.Boundary.{crosses, evaluate-route, evaluate_mono}
use agent_workflow_pack.Route.Signals.Laws.{normalize_signals_iff}
use agent_workflow_pack.Route.Signals.Load.{evaluate-closed}
use agent_workflow_pack.Route.Signals.Order.{SamePolicy, evaluate-perm}
use agent_workflow_pack.Tests.Samples.{other_policy, sample_policy, sample_py, sample_rule}

abbrev pair : List String
pair = "db" ∷ "api" ∷ []

abbrev heavy : PolicyResult
heavy = record {
  route = "speckit-superpowers";
  matched_rule_ids = "compound:pair" ∷ [];
  signals = "api" ∷ "db" ∷ [];
  reasons = "matched:compound:pair" ∷ [];
}

pair_normal : normalize_signals (map text pair) sample_policy ≡ ok ("api" ∷ "db" ∷ [])
unfolding normalize_signals sorted insert
pair_normal = refl

pair_run : evaluate_compiled_policy (map text pair) [] sample_policy ≡ ok heavy
unfolding evaluate_compiled_policy normalize_signals policy_result sorted insert
pair_run = refl

normalize_signals_iff_example :
    (normalize_signals (map text pair) sample_policy ≡ ok ("api" ∷ "db" ∷ [])) ↔ (
      (any (λ s. s == "") pair ≡ false)
      × (no_repeat pair ≡ true)
      × (subset pair sample_policy.known_signals ≡ true)
      × (("api" ∷ "db" ∷ []) ≡ sorted_texts pair))
normalize_signals_iff_example = normalize_signals_iff pair sample_policy ("api" ∷ "db" ∷ [])

evaluate-route_example :
    heavy.route
    ≡ (if crosses pair sample_policy then "speckit-superpowers" else sample_policy.default_route)
evaluate-route_example = evaluate-route pair sample_policy heavy pair_run

abbrev three : PolicyResult
three = record {
  route = "speckit-superpowers";
  matched_rule_ids = "compound:pair" ∷ "hard:auth" ∷ [];
  signals = "api" ∷ "auth" ∷ "db" ∷ [];
  reasons = "matched:compound:pair" ∷ "matched:hard:auth" ∷ [];
}

three_run : evaluate_compiled_policy (map text ("auth" ∷ pair)) [] sample_policy ≡ ok three
unfolding evaluate_compiled_policy normalize_signals policy_result sorted insert
three_run = refl

evaluate_mono_example : three.route ≡ "speckit-superpowers"
evaluate_mono_example =
    evaluate_mono pair ("auth" ∷ pair) sample_policy heavy three refl pair_run three_run (λ e. cc)

abbrev asked : PolicyResult
asked = record heavy { route = "trellis-native" }

asked_run :
    evaluate_compiled_policy (map text pair) (text "trellis-native" ∷ []) sample_policy ≡ ok asked
unfolding evaluate_compiled_policy normalize_signals policy_result sorted insert
asked_run = refl

evaluate-perm_example :
    evaluate_compiled_policy (map text pair) [] sample_policy
    ≡ evaluate_compiled_policy (map text ("api" ∷ "db" ∷ [])) [] sample_policy
evaluate-perm_example = evaluate-perm [] sample_policy (Perm.swap "api" "db" [])

same_policy : SamePolicy sample_policy other_policy
same_policy = record {
  default = refl;
  hard = Perm.refl ("auth" ∷ []);
  compound = Perm.refl (sample_rule ∷ []);
  known = known;
}
  where
    known :
        (xs : List String)
        → subset xs sample_policy.known_signals ≡ subset xs other_policy.known_signals
    known [] = refl
    known (x ∷ xs) = ground (arith, known xs)

-- The document of the sample policy.
abbrev policy_document : Value
policy_document = obj (
    field "schema_id" (text "agent-workflow.route-policy") (
      field "schema_version" (num 1) (
        field "policy_version" (num 1) (
          field "default_route" (text "native-light") (
            field "hard_signals" (texts ("auth" ∷ [])) (
              field "compound_rules"
                (list (
                  obj (
                    field "rule_id" (text "compound:pair")
                      (field "all" (texts ("api" ∷ "db" ∷ [])) end))
                  ∷ []))
                end))))))

policy_run : load_compiled_policy sample_py (some policy_document) ≡ ok sample_policy
unfolding load_compiled_policy eq_value eq_texts digest canonical_json normalize_json_value
    normalize_nfc sorted insert eq_ℤ
policy_run = refl

evaluate-closed_example :
    mem heavy.route ("native-light" ∷ "trellis-native" ∷ "speckit-superpowers" ∷ []) ≡ true
evaluate-closed_example =
    evaluate-closed sample_py (some policy_document) sample_policy pair [] heavy policy_run pair_run
