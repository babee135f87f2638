-- ===== src/Route/Calculator/Laws.antt =====
-- What every Route Decision of route/calculator.py has passed.
use agent_workflow_pack.Canonical.{digest}
use agent_workflow_pack.Json.{Fields, obj}
use agent_workflow_pack.Platform.{Platform}
use agent_workflow_pack.Prelude.{
  String, ap, arith, eq_iff, false, if◌then◌else◌, mem, not, sym, true, ℕ, ◌&&◌, ◌==◌, ◌∙◌, ◌≡◌,
  ◌⊎◌,
}
use agent_workflow_pack.Result.{>>=-eq-ok, Result, ok, reject-ok, require-ok}
use agent_workflow_pack.Route.Calculator.{
  PolicyInputs, RouteAuthorities, RouteCalculationInputs, calculate_route, common_payload,
  creation_payload, finalize_decision, operations, policy_inputs, validate_authorities, with_intent,
}
use agent_workflow_pack.Route.Signals.{explicit_routes}

-- An operation's name is one of the three.
pub operation_cases :
    (operation : String)
    → mem operation operations ≡ true
    → (operation ≡ "classify-only")
      ⊎ (operation ≡ "execute-light")
      ⊎ (operation ≡ "create-integrated-task")
operation_cases operation h = ground (
  arith,
  eq_iff "classify-only" operation,
  eq_iff "execute-light" operation,
  eq_iff "create-integrated-task" operation,
)

pub validate_authorities-ok :
    (py : Platform) (a : RouteAuthorities)
    → validate_authorities py a ≡ ok tt
    → (a.policy_digest ≡ a.policy.policy_digest)
      × (digest py "agent-workflow.route-task-state.v1" (obj a.task_inventory)
          ≡ ok a.task_state_digest)
      × (a.maintenance ≡ false)
      × (a.unfinished_task_transaction ≡ false)
unfolding validate_authorities
validate_authorities-ok py a h =
    let (same_policy, rest) = require-ok (a.policy_digest == a.policy.policy_digest) _ _ h in
    let (actual, state, rest') =
      >>=-eq-ok (digest py "agent-workflow.route-task-state.v1" (obj a.task_inventory)) _ rest in
    let (same_state, rest'') = require-ok (a.task_state_digest == actual) _ _ rest' in
    let (quiet, rest''') = reject-ok a.maintenance _ _ rest'' in
    let (finished, _) = reject-ok a.unfinished_task_transaction _ _ rest''' in
    ((eq_iff _ _).0 same_policy, state ∙ ap ok (sym ((eq_iff _ _).0 same_state)), quiet, finished)

-- The payload that is finalized, in the branch of the operation.
abbrev pub full_payload :
    Platform
    → (ℕ → String)
    → String
    → String
    → RouteCalculationInputs
    → RouteAuthorities
    → PolicyInputs
    → Fields
    → Result Fields
full_payload py uuids challenge operation inputs a calculated common =
    if operation == "create-integrated-task"
    then creation_payload py uuids challenge calculated.result.route inputs.requested_task_ref a
        (with_intent calculated.intent common)
    else ok (with_intent calculated.intent common)

-- The stages of a calculation that succeeded.
pub record Calculated (py : Platform) (uuids : ℕ → String) (challenge : String) (operation : String)
    (inputs : RouteCalculationInputs) (a : RouteAuthorities) (d : Fields) : Type 0 where
  pub calculated : PolicyInputs
  pub common : Fields
  pub full : Fields
  pub known_operation : mem operation operations ≡ true
  pub admitted : validate_authorities py a ≡ ok tt
  pub policy : policy_inputs operation inputs a.policy ≡ ok calculated
  pub light :
      (operation == "execute-light" && not (calculated.result.route == "native-light")) ≡ false
  pub integrated :
      (operation == "create-integrated-task" && not (mem calculated.result.route explicit_routes))
      ≡ false
  pub common_ok : common_payload operation calculated.result calculated.explicit a ≡ ok common
  pub full_ok : full_payload py uuids challenge operation inputs a calculated common ≡ ok full
  pub final : finalize_decision py full ≡ ok d

module _ (py : Platform) (uuids : ℕ → String) (challenge : String) (operation : String)
    (inputs : RouteCalculationInputs) (a : RouteAuthorities) {d : Fields} where
  pub calculate_route-ok :
      calculate_route py uuids challenge operation inputs a ≡ ok d
      → Calculated py uuids challenge operation inputs a d
  unfolding calculate_route
  calculate_route-ok h =
      let (known, h₁) = require-ok (mem operation operations) _ _ h in
      let (unit, admitted, h₂) = >>=-eq-ok (validate_authorities py a) _ h₁ in
      let (calculated, policy, h₃) = >>=-eq-ok (policy_inputs operation inputs a.policy) _ h₂ in
      let (light, h₄) =
        reject-ok (operation == "execute-light" && not (calculated.result.route == "native-light"))
          _ _ h₃ in
      let (integrated, h₅) =
        reject-ok
          (operation == "create-integrated-task"
            && not (mem calculated.result.route explicit_routes))
          _ _ h₄ in
      let (common, common_ok, h₆) =
        >>=-eq-ok (common_payload operation calculated.result calculated.explicit a) _ h₅ in
      let (full, full_ok, final) =
        >>=-eq-ok (full_payload py uuids challenge operation inputs a calculated common) _ h₆ in
      record {
        calculated = calculated;
        common = common;
        full = full;
        known_operation = known;
        admitted = admitted;
        policy = policy;
        light = light;
        integrated = integrated;
        common_ok = common_ok;
        full_ok = full_ok;
        final = final;
      }

  -- A Decision is calculated only for one of the three operations, under a policy and a task state
  -- whose digests are the snapshot's own, outside maintenance and with no unfinished transaction.
  pub calculate_route-admitted :
      calculate_route py uuids challenge operation inputs a ≡ ok d
      → (mem operation operations ≡ true)
        × (a.policy_digest ≡ a.policy.policy_digest)
        × (digest py "agent-workflow.route-task-state.v1" (obj a.task_inventory)
            ≡ ok a.task_state_digest)
        × (a.maintenance ≡ false)
        × (a.unfinished_task_transaction ≡ false)
  calculate_route-admitted h =
      let c = calculate_route-ok h in
      let (same_policy, same_state, quiet, finished) = validate_authorities-ok py a c.admitted in
      (c.known_operation, same_policy, same_state, quiet, finished)
