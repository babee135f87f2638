-- ===== src/Route/Calculator/Decision.antt =====
-- route/calculator.py's `finalize_decision` and `decision_payload`.
use agent_workflow_pack.Canonical.{digest}
use agent_workflow_pack.Json.{Fields, Value, end, field, get, keys, obj, put, text}
use agent_workflow_pack.Json.Laws.{get-put}
use agent_workflow_pack.Platform.{Platform}
use agent_workflow_pack.Prelude.{String, any, ap, arith, eq_iff, false, mem, refl, true, ◌∙◌, ◌≡◌}
use agent_workflow_pack.Result.{>>=-eq-ok, ok}
use agent_workflow_pack.Route.Calculator.{decision_payload, derived_fields, finalize_decision}

abbrev pub IsPayload : Fields → Type 0
IsPayload p = any (λ k. mem k derived_fields) (keys p) ≡ false

-- Deriving fields again reads the same payload: the projection undoes the derivation.
decision_payload_self : (p : Fields) → IsPayload p → decision_payload p ≡ p
unfolding decision_payload
decision_payload_self end h = refl
decision_payload_self (field k v p) h = ground (arith, decision_payload_self p)

decision_payload-put :
    (k : String) (v : Value) (p : Fields)
    → mem k derived_fields ≡ true
    → decision_payload (put k v p) ≡ decision_payload p
unfolding decision_payload
decision_payload-put k v end h = ground arith
decision_payload-put k v (field j w p) h =
    ground (
      arith,
      eq_iff j k,
      λ (e : j ≡ k). ap (λ x. mem x derived_fields) e,
      decision_payload-put k v p,
    )

-- What `finalize_decision` returns: the payload with three more fields.
pub finalize_decision-ok :
    (py : Platform) (p : Fields) {d : Fields}
    → finalize_decision py p ≡ ok d
    → (payload_digest decision_digest : String) × (digest py
          "agent-workflow.route-decision-payload.v1"
          (obj p)
        ≡ ok payload_digest)
      × (d
          ≡ put "decision_digest" (text decision_digest) (
              put "decision_id"
                (text (py.uuid5 payload_digest))
                (put "route_payload_digest" (text payload_digest) p)))
unfolding finalize_decision
finalize_decision-ok py p h =
    let (payload_digest, first, rest) =
      >>=-eq-ok (digest py "agent-workflow.route-decision-payload.v1" (obj p)) _ h in
    let (decision_digest, second, final) =
      >>=-eq-ok (digest py "agent-workflow.route-decision.v1" _) _ rest in
    (payload_digest, decision_digest, first, ground arith)

-- The payload of a finalized Decision is the payload that it was made of.
pub decision_payload-finalize :
    (py : Platform) (p d : Fields)
    → IsPayload p
    → finalize_decision py p ≡ ok d
    → decision_payload d ≡ p
decision_payload-finalize py p d h e =
    let (payload_digest, decision_digest, _, shape) = finalize_decision-ok py p e in
    rw shape (
      decision_payload-put "decision_digest" (text decision_digest) _ refl
      ∙ decision_payload-put "decision_id" (text (py.uuid5 payload_digest)) _ refl
      ∙ decision_payload-put "route_payload_digest" (text payload_digest) p refl
      ∙ decision_payload_self p h)

-- The fields of the payload are those of the Decision.
pub get-finalize :
    (py : Platform) (p : Fields) (k : String) {d : Fields}
    → finalize_decision py p ≡ ok d
    → mem k derived_fields ≡ false
    → get d k ≡ get p k
get-finalize py p k e h =
    let (payload_digest, decision_digest, _, shape) = finalize_decision-ok py p e in
    let first : Fields = put "route_payload_digest" (text payload_digest) p in
    let second : Fields = put "decision_id" (text (py.uuid5 payload_digest)) first in
    rw shape (
      ground (
        arith,
        get-put second "decision_digest" k (text decision_digest),
        get-put first "decision_id" k (text (py.uuid5 payload_digest)),
        get-put p "route_payload_digest" k (text payload_digest),
      ))
