-- ===== src/Route/Verifier/Replay.antt =====
-- What route/verifier.py has replayed when it returns.
-- The stages of a verification that returned.
use mathlib.Core.Option.{some-injective}
use agent_workflow_pack.Canonical.{canonical_json, digest}
use agent_workflow_pack.Json.{
  Fields, Value, arr, as_text, bool, eq_value, get, has_fields, int, is_unhashable, mem_value, null,
  num, obj, put, text,
}
use agent_workflow_pack.Json.Laws.{eq_value-text}
use agent_workflow_pack.Platform.{Platform}
use agent_workflow_pack.Prelude.{
  Bool, Bool-cases, List, String, [], ap, eq_iff, false, get_elem?, if-false, if-true, inl, inr,
  mem, refl, some, subst, suc, sym, true, zero, ℕ, ◌&&◌, ◌==◌, ◌∙◌, ◌∷◌, ◌≡◌,
}
use agent_workflow_pack.Result.{
  >>=-eq-ok, Exn, Result, err, ok, ok-injective, present-ok, reject, reject-ok, require, require-ok,
  type_error,
}
use agent_workflow_pack.Route.Calculator.{
  RouteAuthorities, decision_payload, finalize_decision, operations, surface_closure,
  surface_values, task_inventory_sets, validate_authorities,
}
use agent_workflow_pack.Route.Calculator.Laws.{operation_cases, validate_authorities-ok}
use agent_workflow_pack.Route.Verifier.{
  authority_values, check_canonical, check_equal, check_free, consumer_of, decision_fields,
  derived_values, operation_of, stale, validate_shape, verification_kind, verify_authority,
  verify_creation, verify_identity, verify_policy, verify_route_decision, verify_task_state,
}
use agent_workflow_pack.Runtime.TaskJournal.Check.{as_text-some}

pub record Verified (py : Platform) (d : Fields) (a : RouteAuthorities) (consumer : String)
    (v : Fields) : Type 0 where
  pub operation : String
  pub shaped : validate_shape d ≡ ok operation
  pub executable : (operation == "classify-only") ≡ false
  pub consumed : (consumer == consumer_of operation) ≡ true
  pub current : validate_authorities py a ≡ ok tt
  pub identity : verify_identity py d ≡ ok tt
  pub authority : verify_authority d a ≡ ok tt
  pub policy : verify_policy py d a ≡ ok tt
  pub state : verify_task_state py operation d a ≡ ok tt
  pub result : v ≡ put "verification_kind" (text (verification_kind operation)) d

pub verify_route_decision-Verified :
    (py : Platform) (d : Fields) (a : RouteAuthorities) (consumer : String) (v : Fields)
    → verify_route_decision py d a consumer ≡ ok v
    → Verified py d a consumer v
unfolding verify_route_decision
verify_route_decision-Verified py d a consumer v h =
    let (operation, shaped, h₁) = >>=-eq-ok (validate_shape d) _ h in
    let (executable, h₂) = reject-ok (operation == "classify-only") _ _ h₁ in
    let (consumed, h₃) = require-ok (consumer == consumer_of operation) _ _ h₂ in
    let (tt, current, h₄) = >>=-eq-ok (validate_authorities py a) _ h₃ in
    let (tt, identity, h₅) = >>=-eq-ok (verify_identity py d) _ h₄ in
    let (tt, authority, h₆) = >>=-eq-ok (verify_authority d a) _ h₅ in
    let (tt, policy, h₇) = >>=-eq-ok (verify_policy py d a) _ h₆ in
    let (tt, state, h₈) = >>=-eq-ok (verify_task_state py operation d a) _ h₇ in
    record {
      operation = operation;
      shaped = shaped;
      executable = executable;
      consumed = consumed;
      current = current;
      identity = identity;
      authority = authority;
      policy = policy;
      state = state;
      result = sym (ok-injective h₈);
    }

-- A comparison that passed, by its position.
pub check_equal-at :
    (d : Fields) (e : Exn) (expected : List (String × Value)) (n : ℕ) (k : String) (v : Value)
    → check_equal d e expected ≡ ok tt
    → get_elem? expected n ≡ some (k, v)
    → eq_value (get d k) v ≡ true
unfolding check_equal
check_equal-at d e [] n k v h at = cc
check_equal-at d e ((j, w) ∷ expected) zero k v h at =
    let same = some-injective (j, w) (k, v) at in
    subst (λ (p : String × Value). eq_value (get d p.0) p.1 ≡ true) same
      (require-ok (eq_value (get d j) w) e (check_equal d e expected) h).0
check_equal-at d e ((j, w) ∷ expected) (suc n) k v h at =
    check_equal-at d e expected n k v
      (require-ok (eq_value (get d j) w) e (check_equal d e expected) h).1 at

operation_of-ok :
    (v : Value) (operation : String)
    → operation_of v ≡ ok operation
    → (v ≡ text operation) × (mem operation operations ≡ true)
unfolding operation_of
operation_of-ok (text s) operation h = elim (Bool-cases (mem s operations)) [
  | inl e ↦
      let same = ok-injective (sym (if-true (mem s operations) _ _ e) ∙ h) in
      (ap text same, subst (λ x. mem x operations ≡ true) same e)
  | inr e ↦ absurd (no_error (sym (if-false (mem s operations) _ _ e) ∙ h))
]
  where
    no_error : {x : Exn} → ◌≡◌ {A = Result String} (err x) (ok operation) → ⊥
    no_error k = cc
operation_of-ok null operation h = cc
operation_of-ok (bool b) operation h = cc
operation_of-ok (int n) operation h = cc
operation_of-ok (arr vs) operation h = cc
operation_of-ok (obj d) operation h = cc

pub validate_shape-ok :
    (d : Fields) (operation : String)
    → validate_shape d ≡ ok operation
    → (get d "operation" ≡ text operation)
      × (mem operation operations ≡ true)
      × (has_fields d (decision_fields operation) ≡ true)
unfolding validate_shape
validate_shape-ok d operation h =
    let (o, read, h₁) = >>=-eq-ok (operation_of (get d "operation")) _ h in
    let (closed, h₂) = require-ok (has_fields d (decision_fields o)) _ _ h₁ in
    let (_, h₃) =
      require-ok
        (eq_value (get d "schema_id") (text "agent-workflow.route-decision")
          && eq_value (get d "schema_version") (num 1))
        _ _ h₂ in
    let same : o ≡ operation = ok-injective h₃ in
    let (named, known) = operation_of-ok (get d "operation") o read in
    (
      named ∙ ap text same,
      subst (λ x. mem x operations ≡ true) same known,
      subst (λ x. has_fields d (decision_fields x) ≡ true) same closed,
    )

-- Only a Decision to create a task is admitted.
admits_creation :
    (operation : String)
    → mem operation operations ≡ true
    → (operation == "classify-only") ≡ false
    → ("task-admit" == consumer_of operation) ≡ true
    → operation ≡ "create-integrated-task"
admits_creation operation known executable consumed = elim (operation_cases operation known) [
  | inl e ↦ absurd (clash (sym ((eq_iff operation "classify-only").1 e) ∙ executable))
  | inr (inl e) ↦ absurd (clash (sym consumed ∙ ap (λ o. "task-admit" == consumer_of o) e))
  | inr (inr e) ↦ e
]
  where
    clash : true ≡ false → ⊥
    clash h = cc

-- What the check of the task state found for a creation.
pub record Creation (py : Platform) (d : Fields) (a : RouteAuthorities) : Type 0 where
  pub ids : List String
  pub refs : List String
  pub inventory : task_inventory_sets a.task_inventory ≡ ok (ids, refs)
  pub id_free : mem_value (get d "requested_task_id") ids ≡ false
  pub ref_free : mem_value (get d "requested_task_ref") refs ≡ false
  pub route : String
  pub surfaces : List Fields
  pub closed : surface_closure route a ≡ ok surfaces
  pub routed : get d "route" ≡ text route
  pub surfaces_text : String
  pub now_text : canonical_json py (surface_values surfaces) ≡ ok surfaces_text
  pub listed_text : canonical_json py (get d "task_contract_surfaces") ≡ ok surfaces_text
  pub surfaces_digest : String
  pub digested :
      digest py "agent-workflow.task-surfaces.v1" (surface_values surfaces) ≡ ok surfaces_digest
  pub pinned : get d "task_contract_surfaces_digest" ≡ text surfaces_digest

check_free-ok :
    (v : Value) (names : List String) → check_free v names ≡ ok tt → mem_value v names ≡ false
check_free-ok v names h = elim (Bool-cases (is_unhashable v)) [
  | inl e ↦ absurd (no_error (sym (if-true (is_unhashable v) _ _ e) ∙ h))
  | inr e ↦ rejected (mem_value v names) (sym (if-false (is_unhashable v) _ _ e) ∙ h)
]
  where
    no_error : ◌≡◌ {A = Result (Unit {0})} (err type_error) (ok tt) → ⊥
    no_error k = cc

    rejected :
        (b : Bool)
        → reject b (stale "Decision task identity is no longer available") ≡ ok tt
        → b ≡ false
    rejected true k = cc
    rejected false k = refl

check_canonical-ok :
    (py : Platform) (v w : Value) (e : Exn)
    → check_canonical py v w e ≡ ok tt
    → (s : String) × (canonical_json py v ≡ ok s) × (canonical_json py w ≡ ok s)
unfolding check_canonical
check_canonical-ok py v w e h =
    let (left, of_left, h₁) = >>=-eq-ok (canonical_json py v) _ h in
    let (right, of_right, h₂) = >>=-eq-ok (canonical_json py w) _ h₁ in
    (left, of_left, of_right ∙ ap ok (sym ((eq_iff left right).0 (passed (left == right) h₂))))
  where
    passed : (b : Bool) → require b e ≡ ok tt → b ≡ true
    passed true k = refl
    passed false k = cc

verify_creation-Creation :
    (py : Platform) (d : Fields) (a : RouteAuthorities)
    → verify_creation py d a ≡ ok tt
    → Creation py d a
unfolding verify_creation
verify_creation-Creation py d a h =
    let (sets, inventory, h₁) = >>=-eq-ok (task_inventory_sets a.task_inventory) _ h in
    let (tt, id_free, h₂) = >>=-eq-ok (check_free (get d "requested_task_id") sets.0) _ h₁ in
    let (tt, ref_free, h₃) = >>=-eq-ok (check_free (get d "requested_task_ref") sets.1) _ h₂ in
    let (route, routed, h₄) = present-ok (as_text (get d "route")) type_error _ h₃ in
    let (surfaces, closed, h₅) = >>=-eq-ok (surface_closure route a) _ h₄ in
    let (tt, compared, h₆) =
      >>=-eq-ok
        (check_canonical py (get d "task_contract_surfaces") (surface_values surfaces)
          (stale "Decision task surfaces are stale"))
        _ h₅ in
    let (actual, digested, h₇) =
      >>=-eq-ok (digest py "agent-workflow.task-surfaces.v1" (surface_values surfaces)) _ h₆ in
    let (surfaces_text, listed_text, now_text) =
      check_canonical-ok py (get d "task_contract_surfaces") (surface_values surfaces)
        (stale "Decision task surfaces are stale") compared in
    record {
      ids = sets.0;
      refs = sets.1;
      inventory = inventory;
      id_free = check_free-ok (get d "requested_task_id") sets.0 id_free;
      ref_free = check_free-ok (get d "requested_task_ref") sets.1 ref_free;
      route = route;
      surfaces = surfaces;
      closed = closed;
      routed = as_text-some _ route routed;
      surfaces_text = surfaces_text;
      now_text = now_text;
      listed_text = listed_text;
      surfaces_digest = actual;
      digested = digested;
      pinned = eq_value-text _ actual (required _ _ h₇);
    }
  where
    required : (b : Bool) (e : Exn) → require b e ≡ ok tt → b ≡ true
    required true e k = refl
    required false e k = cc

pub verify_task_state-ok :
    (py : Platform) (operation : String) (d : Fields) (a : RouteAuthorities)
    → verify_task_state py operation d a ≡ ok tt
    → operation ≡ "create-integrated-task"
    → (get d "task_state_digest" ≡ text a.task_state_digest) × Creation py d a
unfolding verify_task_state
verify_task_state-ok py operation d a h e =
    let (same, h₁) =
      require-ok (eq_value (get d "task_state_digest") (text a.task_state_digest)) _ _ h in
    (
      eq_value-text _ a.task_state_digest same,
      verify_creation-Creation py d a (
          sym (
            if-true (operation == "create-integrated-task") (verify_creation py d a) (ok tt)
              ((eq_iff operation "create-integrated-task").1 e))
          ∙ h₁),
    )

-- A Decision that is verified for the admission of a task was made to create one, under the policy, the
-- lock, the manifest and the task state that are current; no maintenance and no unfinished
-- transaction stands; no task has its identity or its ref; its surfaces, in their canonical text and by
-- their digest, are those of its route now; and its digest is the one that its own payload gives.
pub verify_route_decision-creates :
    (py : Platform) (d : Fields) (a : RouteAuthorities) (v : Fields)
    → verify_route_decision py d a "task-admit" ≡ ok v
    → (get d "operation" ≡ text "create-integrated-task")
      × Creation py d a
      × (get d "policy_digest" ≡ text a.policy_digest)
      × (get d "lock_digest" ≡ text a.lock_digest)
      × (get d "manifest_digest" ≡ text a.manifest_digest)
      × (get d "task_state_digest" ≡ text a.task_state_digest)
      × (a.maintenance ≡ false)
      × (a.unfinished_task_transaction ≡ false)
      × ((e : Fields) × (finalize_decision py (decision_payload d) ≡ ok e)
          × (eq_value (get d "decision_digest") (get e "decision_digest") ≡ true))
unfolding verify_authority verify_identity
verify_route_decision-creates py d a v h =
    let r = verify_route_decision-Verified py d a "task-admit" v h in
    let (named, known, _) = validate_shape-ok d r.operation r.shaped in
    let creates = admits_creation r.operation known r.executable r.consumed in
    let (state, creation) = verify_task_state-ok py r.operation d a r.state creates in
    let (_, _, quiet, finished) = validate_authorities-ok py a r.current in
    let (e, made, equal) = >>=-eq-ok (finalize_decision py (decision_payload d)) _ r.identity in
    let authority =
      λ (n : ℕ) (k s : String) (at : get_elem? (authority_values a) n ≡ some (k, text s)).
        eq_value-text (get d k) s
          (check_equal-at d _ (authority_values a) n k (text s) r.authority at) in
    (
      named ∙ ap text creates,
      creation,
      authority 7 "policy_digest" a.policy_digest refl,
      authority 5 "lock_digest" a.lock_digest refl,
      authority 3 "manifest_digest" a.manifest_digest refl,
      state,
      quiet,
      finished,
      (
        e,
        made,
        check_equal-at d _ (derived_values e) 2 "decision_digest" (get e "decision_digest") equal
            refl,
      ),
    )
