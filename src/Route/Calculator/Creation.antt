-- ===== src/Route/Calculator/Creation.antt =====
-- What a Route Decision of route/calculator.py says, operation by operation.
use agent_workflow_pack.Canonical.{digest, normalize_path}
use agent_workflow_pack.Json.{Fields, Value, get, lookup, null, optional_text, put, text}
use agent_workflow_pack.Json.Laws.{get-put}
use agent_workflow_pack.Platform.{Platform}
use agent_workflow_pack.Prelude.{
  List, Option, String, arith, eq_iff, false, length, mem, none, refl, some, suc, ℕ, ◌==◌, ◌||◌,
  ◌≡◌,
}
use agent_workflow_pack.Result.{>>=-eq-ok, Exn, Result, catching, err, ok, present-ok, reject-ok}
use agent_workflow_pack.Route.Calculator.{
  RouteAuthorities, common_payload, creation_payload, fresh_task_id, surface_closure,
  surface_values, task_inventory_sets, with_intent,
}
use agent_workflow_pack.Route.Calculator.Fresh.{fresh_task_id-free}
use agent_workflow_pack.Route.Intent.{VerifiedTaskIntent}
use agent_workflow_pack.Route.Signals.{PolicyResult}

pub common_payload-ok :
    (operation : String) (r : PolicyResult) (explicit : List String) (a : RouteAuthorities)
    {c : Fields}
    → common_payload operation r explicit a ≡ ok c
    → (owner : String) × (lookup a.entry_owners r.route ≡ some owner)
      × (get c "route" ≡ text r.route)
      × (get c "operation" ≡ text operation)
      × (get c "entry_owner" ≡ text owner)
      × (get c "requested_task_id" ≡ null)
      × (get c "intent_id" ≡ null)
unfolding common_payload
common_payload-ok operation r explicit a h =
    let (owner, found, shape) = present-ok (lookup a.entry_owners r.route) _ _ h in
    (
      owner,
      found,
      read shape "route",
      read shape "operation",
      read shape "entry_owner",
      read shape "requested_task_id",
      read shape "intent_id",
    )
  where
    read : {c e : Fields} → ◌≡◌ {A = Result Fields} (ok c) (ok e) → (k : String) → get e k ≡ get c k
    read p k = cc

-- The intent's fields change no other field.
pub get-with_intent :
    (o : Option VerifiedTaskIntent) (p : Fields) (k : String)
    → (k == "requested_mode" || (k == "intent_digest" || k == "intent_id")) ≡ false
    → get (with_intent o p) k ≡ get p k
get-with_intent none p k h = refl
get-with_intent (some i) p k h = ground (
  arith,
  eq_iff k "requested_mode",
  eq_iff "requested_mode" k,
  eq_iff k "intent_digest",
  eq_iff "intent_digest" k,
  eq_iff k "intent_id",
  eq_iff "intent_id" k,
  get-put (put "intent_digest" (text i.intent_digest) (put "intent_id" (text i.intent_id) p))
      "requested_mode" k (optional_text i.requested_mode),
  get-put (put "intent_id" (text i.intent_id) p) "intent_digest" k (text i.intent_digest),
  get-put p "intent_id" k (text i.intent_id),
)

-- What the branch for task creation has checked, and the fields that it adds.
pub record Created (py : Platform) (route : String) (requested : Option String)
    (a : RouteAuthorities) (p full : Fields) : Type 0 where
  pub asked : String
  pub task_id : String
  pub task_ref : String
  pub ids : List String
  pub refs : List String
  pub surfaces : List Fields
  pub requested_ok : requested ≡ some asked
  pub path_ok : normalize_path py asked ≡ ok task_ref
  pub sets_ok : task_inventory_sets a.task_inventory ≡ ok (ids, refs)
  pub ref_free : mem task_ref refs ≡ false
  pub id_free : mem task_id ids ≡ false
  pub closure_ok : surface_closure route a ≡ ok surfaces
  pub id_field : get full "requested_task_id" ≡ text task_id
  pub ref_field : get full "requested_task_ref" ≡ text task_ref
  pub surfaces_field : get full "task_contract_surfaces" ≡ surface_values surfaces
  pub route_field : get full "route" ≡ get p "route"

catching-ok : {A : Type 0} (m : Result A) (e : Exn) {a : A} → catching m e ≡ ok a → m ≡ ok a
catching-ok (ok x) e h = h
catching-ok (err x) e h = cc

creation_fields :
    (p : Fields) (task_id task_ref digest_of challenge : String) (surfaces : Value)
    → let full : Fields = put "task_creation_approval" (text "required") (
        put "approval_challenge" (text challenge) (
          put "task_contract_surfaces_digest" (text digest_of) (
            put "task_contract_surfaces" surfaces (
              put "task_id_precondition" (text "unique") (
                put "task_ref_precondition" (text "absent") (
                  put "requested_task_ref"
                    (text task_ref)
                    (put "requested_task_id" (text task_id) p))))))) in
      (get full "requested_task_id" ≡ text task_id)
      × (get full "requested_task_ref" ≡ text task_ref)
      × (get full "task_contract_surfaces" ≡ surfaces)
      × (get full "route" ≡ get p "route")
creation_fields p task_id task_ref digest_of challenge surfaces =
    (simp get-put, simp get-put, simp get-put, simp get-put)

pub creation_payload-ok :
    (py : Platform) (uuids : ℕ → String) (challenge route : String) (requested : Option String)
    (a : RouteAuthorities) (p : Fields) {full : Fields}
    → creation_payload py uuids challenge route requested a p ≡ ok full
    → Created py route requested a p full
unfolding creation_payload
creation_payload-ok py uuids challenge route requested a p h =
    let (asked, requested_ok, h₁) = present-ok requested _ _ h in
    let (task_ref, caught, h₂) = >>=-eq-ok (catching (normalize_path py asked) _) _ h₁ in
    let (sets, sets_ok, h₃) = >>=-eq-ok (task_inventory_sets a.task_inventory) _ h₂ in
    let (ref_free, h₄) = reject-ok (mem task_ref sets.1) _ _ h₃ in
    let (task_id, fresh, h₅) = >>=-eq-ok (fresh_task_id (suc (length sets.0)) uuids sets.0) _ h₄ in
    let (surfaces, closure_ok, h₆) = >>=-eq-ok (surface_closure route a) _ h₅ in
    let (digest_of, _, shape) =
      >>=-eq-ok (digest py "agent-workflow.task-surfaces.v1" (surface_values surfaces)) _ h₆ in
    let fields = creation_fields p task_id task_ref digest_of challenge (surface_values surfaces) in
    record {
      asked = asked;
      task_id = task_id;
      task_ref = task_ref;
      ids = sets.0;
      refs = sets.1;
      surfaces = surfaces;
      requested_ok = requested_ok;
      path_ok = catching-ok (normalize_path py asked) _ caught;
      sets_ok = sets_ok;
      ref_free = ref_free;
      id_free = fresh_task_id-free (suc (length sets.0)) uuids sets.0 fresh;
      closure_ok = closure_ok;
      id_field = cc (shape, fields.0);
      ref_field = cc (shape, fields.1);
      surfaces_field = cc (shape, fields.2);
      route_field = cc (shape, fields.3);
    }
