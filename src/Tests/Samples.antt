-- ===== src/Tests/Samples.antt =====
-- The sample data of the tests: a platform, a policy, identities.
use agent_workflow_pack.Platform.{Platform}
use agent_workflow_pack.Prelude.{String, [], ◌∷◌}
use agent_workflow_pack.Result.{Result, err, ok}
use agent_workflow_pack.Route.Signals.{CompiledRoutePolicy, CompoundRule}

-- A stand-in for the standard library: no text needs normalisation, and every digest is the same.
abbrev pub sample_digest : String
sample_digest = "aaaaaaaaaaaaaaaaaaaaaaaaaaaaaaaaaaaaaaaaaaaaaaaaaaaaaaaaaaaaaaaa"

abbrev pub sample_uuid : String
sample_uuid = "11111111-1111-4111-8111-111111111111"

abbrev pub other_uuid : String
other_uuid = "22222222-2222-4222-8222-222222222222"

abbrev pub sample_py : Platform
sample_py = record { nfc = λ s. s; sha256 = λ s. sample_digest; uuid5 = λ s. sample_uuid }

abbrev pub sample_rule : CompoundRule
sample_rule = record { rule_id = "compound:pair"; all_signals = "api" ∷ "db" ∷ [] }

abbrev pub sample_policy : CompiledRoutePolicy
sample_policy = record {
  policy_version = 1;
  default_route = "native-light";
  hard_signals = "auth" ∷ [];
  compound_rules = sample_rule ∷ [];
  known_signals = "auth" ∷ "api" ∷ "db" ∷ [];
  policy_digest = sample_digest;
}

-- The same policy with its known signals in another order.
abbrev pub other_policy : CompiledRoutePolicy
other_policy = record sample_policy { known_signals = "db" ∷ "api" ∷ "auth" ∷ [] }

-- The value of a run that succeeds.
abbrev pub value_of : {A : Type 0} → A → Result A → A
value_of a (ok x) = x
value_of a (err e) = a
