-- ===== src/Route/Verifier/Light.antt =====
-- That route/verifier.py accepts every Decision to execute lightly that route/calculator.py makes.
-- The payload of such a Decision.
use agent_workflow_pack.Json.{Fields, eq_value, eq_ℤ, get, lookup, optional_text, put, text}
use agent_workflow_pack.Json.Laws.{to_list-of_list}
use agent_workflow_pack.Platform.{Platform}
use agent_workflow_pack.Prelude.{
  List, String, ap, arith, eq_refl, eqb, is_empty, map, refl, some, subst, sym, true, ℕ, ◌==◌, ◌∙◌,
  ◌≡◌,
}
use agent_workflow_pack.Result.{
  >>=-eq-ok, >>=-run, Result, ok, ok-injective, present-ok, require, require-ok, require-run, ◌>>=◌,
}
use agent_workflow_pack.Route.Calculator.{
  PolicyInputs, RouteAuthorities, RouteCalculationInputs, calculate_route, common_document,
  common_payload, decision_payload, executable_inputs, explicit_of, finalize_decision,
  policy_inputs, validate_authorities, with_intent,
}
use agent_workflow_pack.Route.Calculator.Decision.{decision_payload-finalize, finalize_decision-ok}
use agent_workflow_pack.Route.Calculator.Laws.{calculate_route-ok}
use agent_workflow_pack.Route.Intent.{VerifiedTaskIntent}
use agent_workflow_pack.Route.Signals.{CompiledRoutePolicy, PolicyResult, evaluate_compiled_policy}
use agent_workflow_pack.Route.Verifier.{
  authority_values, check_canonical, check_replay, derived_values, mismatch, operation_of,
  policy_values, sequence, validate_shape, verify_authority, verify_identity, verify_policy,
  verify_route_decision, verify_task_state,
}
use agent_workflow_pack.Route.Verifier.Accepts.{
  check_equal-run, check_replay-run, evaluate-normal, same_text, same_texts,
}

abbrev light_payload :
    PolicyResult → List String → RouteAuthorities → String → VerifiedTaskIntent → Fields
light_payload result explicit a owner intent =
    with_intent (some intent) (common_document "execute-light" result explicit a owner)

-- The Decision, with its derived fields.
abbrev light_decision :
    Platform
    → PolicyResult
    → List String
    → RouteAuthorities
    → String
    → VerifiedTaskIntent
    → String
    → String
    → Fields
light_decision py result explicit a owner intent payload_digest decision_digest =
    put "decision_digest" (text decision_digest) (
      put "decision_id" (text (py.uuid5 payload_digest)) (
        put "route_payload_digest" (text payload_digest)
          (light_payload result explicit a owner intent)))

-- What a Decision to execute lightly was calculated from.
record Light (py : Platform) (a : RouteAuthorities) (d : Fields) : Type 0 where
  result : PolicyResult
  explicit : List String
  owner : String
  intent : VerifiedTaskIntent
  payload_digest : String
  decision_digest : String
  shape : d ≡ light_decision py result explicit a owner intent payload_digest decision_digest
  final : finalize_decision py (light_payload result explicit a owner intent) ≡ ok d
  owned : lookup a.entry_owners result.route ≡ some owner
  admitted : validate_authorities py a ≡ ok tt
  evaluated :
      evaluate_compiled_policy (map text intent.signals) (map text explicit) a.policy ≡ ok result

executable_inputs-ok :
    (inputs : RouteCalculationInputs) (policy : CompiledRoutePolicy) (p : PolicyInputs)
    → executable_inputs inputs policy ≡ ok p
    → (intent : VerifiedTaskIntent) × (p.intent ≡ some intent)
      × (evaluate_compiled_policy (map text intent.signals) (map text p.explicit) policy
          ≡ ok p.result)
executable_inputs-ok inputs policy p h =
    let (intent, _, h₁) = present-ok inputs.intent _ _ h in
    let (_, h₂) = require-ok (is_empty inputs.candidate_signals) _ _ h₁ in
    let (result, evaluated, h₃) =
      >>=-eq-ok
        (evaluate_compiled_policy (map text intent.signals)
          (map text (explicit_of intent.requested_mode)) policy)
        _ h₂ in
    subst
      (λ (q : PolicyInputs).
        (i : VerifiedTaskIntent) × (q.intent ≡ some i)
        × (evaluate_compiled_policy (map text i.signals) (map text q.explicit) policy
            ≡ ok q.result))
      (ok-injective h₃) (intent, refl, evaluated)

common_payload-document :
    (operation : String) (result : PolicyResult) (explicit : List String) (a : RouteAuthorities)
    (p : Fields)
    → common_payload operation result explicit a ≡ ok p
    → (owner : String) × (lookup a.entry_owners result.route ≡ some owner)
      × (p ≡ common_document operation result explicit a owner)
unfolding common_payload
common_payload-document operation result explicit a p h =
    let (owner, found, h₁) = present-ok (lookup a.entry_owners result.route) _ _ h in
    (owner, found, sym (ok-injective h₁))

calculate_route-Light :
    (py : Platform) (uuids : ℕ → String) (challenge : String) (inputs : RouteCalculationInputs)
    (a : RouteAuthorities) (d : Fields)
    → calculate_route py uuids challenge "execute-light" inputs a ≡ ok d
    → Light py a d
unfolding policy_inputs
calculate_route-Light py uuids challenge inputs a d h =
    let c = calculate_route-ok py uuids challenge "execute-light" inputs a h in
    let (intent, given, evaluated) = executable_inputs-ok inputs a.policy c.calculated c.policy in
    let (owner, owned, document) =
      common_payload-document "execute-light" c.calculated.result c.calculated.explicit a c.common
        c.common_ok in
    let payload : c.full ≡ light_payload c.calculated.result c.calculated.explicit a owner intent =
      sym (ok-injective c.full_ok)
      ∙ ap (λ i. with_intent i c.common) given
      ∙ ap (with_intent (some intent)) document in
    let final = ap (finalize_decision py) (sym payload) ∙ c.final in
    let (payload_digest, decision_digest, _, shape) = finalize_decision-ok py _ final in
    record {
      result = c.calculated.result;
      explicit = c.calculated.explicit;
      owner = owner;
      intent = intent;
      payload_digest = payload_digest;
      decision_digest = decision_digest;
      shape = shape;
      final = final;
      owned = owned;
      admitted = c.admitted;
      evaluated = evaluated;
    }

module _ (py : Platform) (a : RouteAuthorities) (result : PolicyResult) (explicit : List String)
    (owner : String) (intent : VerifiedTaskIntent) (payload_digest decision_digest : String) where
  abbrev D : Fields
  D = light_decision py result explicit a owner intent payload_digest decision_digest

  shape_run : validate_shape D ≡ ok "execute-light"
  unfolding validate_shape operation_of eq_value eq_ℤ
  shape_run = refl

  identity_run :
      finalize_decision py (light_payload result explicit a owner intent) ≡ ok D
      → verify_identity py D ≡ ok tt
  unfolding verify_identity eq_value
  identity_run final =
      >>=-run (finalize_decision py (decision_payload D)) _ (
        ap (finalize_decision py)
          (decision_payload-finalize py (light_payload result explicit a owner intent) D refl final)
        ∙ final)
      ∙ check_equal-run D _ (derived_values D) (
        eq_refl payload_digest,
        (eq_refl (py.uuid5 payload_digest), (eq_refl decision_digest, tt)),
      )

  eqb_refl : (n : ℕ) → eqb n n ≡ true
  eqb_refl n = ground arith

  authority_run : verify_authority D a ≡ ok tt
  unfolding verify_authority eq_value eq_ℤ
  authority_run = check_equal-run D _ (authority_values a) (
    eq_refl a.project_id,
    (
      eq_refl a.workspace_instance_id,
      (
        eqb_refl a.manifest_generation,
        (
          eq_refl a.manifest_digest,
          (
            eq_refl a.profile_digest,
            (
              eq_refl a.lock_digest,
              (
                eq_refl a.artifact_bundle_digest,
                (
                  eq_refl a.policy_digest,
                  (
                    eq_refl a.platform,
                    (
                      eq_refl a.adapter_id,
                      (eq_refl a.adapter_version, (eqb_refl a.router_contract_version, tt)),
                    ),
                  ),
                ),
              ),
            ),
          ),
        ),
      ),
    ),
  )

  policy_run :
      lookup a.entry_owners result.route ≡ some owner
      → evaluate_compiled_policy (map text intent.signals) (map text explicit) a.policy ≡ ok result
      → verify_policy py D a ≡ ok tt
  unfolding verify_policy
  policy_run owned evaluated =
      >>=-run (sequence (get D "signals"))
        (λ signals. sequence (get D "explicit_modes") >>= λ modes.
          evaluate_compiled_policy signals modes a.policy >>= replay)
        (ap (λ x. ok x) (to_list-of_list (map text result.signals)))
      ∙ >>=-run (sequence (get D "explicit_modes"))
          (λ modes. evaluate_compiled_policy (map text result.signals) modes a.policy >>= replay)
          (ap (λ x. ok x) (to_list-of_list (map text explicit)))
      ∙ >>=-run (evaluate_compiled_policy (map text result.signals) (map text explicit) a.policy)
          replay (evaluate-normal intent.signals explicit a.policy result evaluated)
      ∙ check_replay-run py D (policy_values result a) (
        same_text py result.route _,
        (
          subst
              (λ o.
                check_canonical py (text owner) (optional_text o)
                  (mismatch "Decision policy replay differs")
                ≡ ok tt)
              (sym owned) (same_text py owner _),
          (
            same_texts py result.matched_rule_ids _,
            (same_texts py result.signals _, (same_texts py result.reasons _, tt)),
          ),
        ),
      )
    where
      replay : PolicyResult → Result (Unit {0})
      replay r = check_replay py D (policy_values r a)

  state_run : verify_task_state py "execute-light" D a ≡ ok tt
  unfolding verify_task_state eq_value
  state_run =
      >>=-run (require (a.task_state_digest == a.task_state_digest) _) _
        (require-run _ _ (eq_refl a.task_state_digest))

  accept :
      finalize_decision py (light_payload result explicit a owner intent) ≡ ok D
      → lookup a.entry_owners result.route ≡ some owner
      → validate_authorities py a ≡ ok tt
      → evaluate_compiled_policy (map text intent.signals) (map text explicit) a.policy ≡ ok result
      → verify_route_decision py D a "execute-light"
        ≡ ok (put "verification_kind" (text "verified-execute-light") D)
  unfolding verify_route_decision
  accept final owned admitted evaluated =
      >>=-run (validate_shape D) _ shape_run
      ∙ >>=-run (validate_authorities py a) _ admitted
      ∙ >>=-run (verify_identity py D) _ (identity_run final)
      ∙ >>=-run (verify_authority D a) _ authority_run
      ∙ >>=-run (verify_policy py D a) _ (policy_run owned evaluated)
      ∙ >>=-run (verify_task_state py "execute-light" D a) _ state_run

-- Every Decision to execute lightly that the calculator makes is verified for that consumer, while the
-- authorities are those that it was calculated under.
pub verify_route_decision-calculated :
    (py : Platform) (uuids : ℕ → String) (challenge : String) (inputs : RouteCalculationInputs)
    (a : RouteAuthorities) (d : Fields)
    → calculate_route py uuids challenge "execute-light" inputs a ≡ ok d
    → verify_route_decision py d a "execute-light"
      ≡ ok (put "verification_kind" (text "verified-execute-light") d)
verify_route_decision-calculated py uuids challenge inputs a d h =
    let l = calculate_route-Light py uuids challenge inputs a d h in
    subst
      (λ (x : Fields).
        verify_route_decision py x a "execute-light"
        ≡ ok (put "verification_kind" (text "verified-execute-light") x))
      (sym l.shape)
      (accept py a l.result l.explicit l.owner l.intent l.payload_digest l.decision_digest
        (l.final ∙ ap (λ x. ok x) l.shape) l.owned l.admitted l.evaluated)
