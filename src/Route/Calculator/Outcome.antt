-- ===== src/Route/Calculator/Outcome.antt =====
-- The Route Decisions of route/calculator.py, operation by operation.
use mathlib.Core.List.{Perm}
use agent_workflow_pack.Canonical.{normalize_path}
use agent_workflow_pack.Json.{Fields, as_texts, get, has_fields, lookup, null, text}
use agent_workflow_pack.Platform.{Platform}
use agent_workflow_pack.Prelude.{
  List, String, [], all, ap, arith, eq_iff, false, leb_text, leb_text_total, leb_text_trans, map,
  mem, no_repeat, none, refl, some, subset, subst, sym, true, ℕ, ◌&&◌, ◌∙◌, ◌∷◌, ◌≡◌,
}
use agent_workflow_pack.Prelude.Sort.{IsAscending, sorted-IsAscending}
use agent_workflow_pack.Prelude.Text.Sets.{eq_texts_iff}
use agent_workflow_pack.Result.{>>=-eq-ok, ok, present-ok, require-ok}
use agent_workflow_pack.Route.Calculator.{
  RouteAuthorities, RouteCalculationInputs, calculate_route, derived_fields, is_none,
  mandatory_surfaces, policy_inputs, surface_closure, task_inventory_sets, with_intent,
}
use agent_workflow_pack.Route.Calculator.Creation.{
  common_payload-ok, creation_payload-ok, get-with_intent,
}
use agent_workflow_pack.Route.Calculator.Decision.{get-finalize}
use agent_workflow_pack.Route.Calculator.Laws.{calculate_route-ok}
use agent_workflow_pack.Route.Signals.{
  evaluate_compiled_policy, explicit_routes, is_sorted, normalize_signals,
}
use agent_workflow_pack.Route.Signals.Order.{normalize_signals-perm}

module _ (py : Platform) (uuids : ℕ → String) (challenge : String) (inputs : RouteCalculationInputs)
    (a : RouteAuthorities) {d : Fields} where
  -- A Decision for task creation names an integrated route, a task identity that no task of the
  -- inventory has, and a task ref that no task has: the normalised form of the requested one.
  pub calculate_route-creates :
      calculate_route py uuids challenge "create-integrated-task" inputs a ≡ ok d
      → (route asked task_id task_ref : String) × (ids : List String) × (refs : List String)
        × (task_inventory_sets a.task_inventory ≡ ok (ids, refs))
        × (inputs.requested_task_ref ≡ some asked)
        × (normalize_path py asked ≡ ok task_ref)
        × (mem route explicit_routes ≡ true)
        × (mem task_id ids ≡ false)
        × (mem task_ref refs ≡ false)
        × (get d "route" ≡ text route)
        × (get d "requested_task_id" ≡ text task_id)
        × (get d "requested_task_ref" ≡ text task_ref)
  calculate_route-creates h =
      let c = calculate_route-ok py uuids challenge "create-integrated-task" inputs a h in
      let made =
        creation_payload-ok py uuids challenge c.calculated.result.route inputs.requested_task_ref a
          (with_intent c.calculated.intent c.common) c.full_ok in
      let facts =
        common_payload-ok "create-integrated-task" c.calculated.result c.calculated.explicit a
          c.common_ok in
      (
        c.calculated.result.route,
        made.asked,
        made.task_id,
        made.task_ref,
        made.ids,
        made.refs,
        made.sets_ok,
        made.requested_ok,
        made.path_ok,
        ground (arith, c.integrated),
        made.id_free,
        made.ref_free,
        get-finalize py c.full "route" c.final refl
            ∙ made.route_field
            ∙ get-with_intent c.calculated.intent c.common "route" refl
            ∙ facts.2,
        get-finalize py c.full "requested_task_id" c.final refl ∙ made.id_field,
        get-finalize py c.full "requested_task_ref" c.final refl ∙ made.ref_field,
      )

  -- A Decision to execute lightly has the route "native-light" and its entry owner, and asks for no
  -- task.
  pub calculate_route-light :
      calculate_route py uuids challenge "execute-light" inputs a ≡ ok d
      → (owner : String) × (lookup a.entry_owners "native-light" ≡ some owner)
        × (get d "route" ≡ text "native-light")
        × (get d "entry_owner" ≡ text owner)
        × (get d "requested_task_id" ≡ null)
  calculate_route-light h =
      let c = calculate_route-ok py uuids challenge "execute-light" inputs a h in
      let facts =
        common_payload-ok "execute-light" c.calculated.result c.calculated.explicit a c.common_ok in
      let same : with_intent c.calculated.intent c.common ≡ c.full = cc (c.full_ok) in
      let light : c.calculated.result.route ≡ "native-light" =
        ground (arith, c.light, eq_iff c.calculated.result.route "native-light") in
      let read = λ (k : String) (e : mem k derived_fields ≡ false).
        get-finalize py c.full k c.final e ∙ ap (λ p. get p k) (sym same) in
      (
        facts.0,
        rw light at (facts.1),
        read "route" refl
            ∙ get-with_intent c.calculated.intent c.common "route" refl
            ∙ facts.2
            ∙ ap text light,
        read "entry_owner" refl
            ∙ get-with_intent c.calculated.intent c.common "entry_owner" refl
            ∙ facts.4,
        read "requested_task_id" refl
            ∙ get-with_intent c.calculated.intent c.common "requested_task_id" refl
            ∙ facts.5,
      )

  -- A classification rests on no intent and asks for no task: its inputs hold neither, and the
  -- Decision has neither field.
  pub calculate_route-classifies :
      calculate_route py uuids challenge "classify-only" inputs a ≡ ok d
      → (inputs.intent ≡ none)
        × (inputs.requested_task_ref ≡ none)
        × (get d "intent_id" ≡ null)
        × (get d "requested_task_id" ≡ null)
  unfolding policy_inputs
  calculate_route-classifies h =
      let c = calculate_route-ok py uuids challenge "classify-only" inputs a h in
      let facts =
        common_payload-ok "classify-only" c.calculated.result c.calculated.explicit a c.common_ok in
      let (bare, rest) =
        require-ok (is_none inputs.intent && is_none inputs.requested_task_ref) _ _ c.policy in
      let (normalized, _, rest') =
        >>=-eq-ok (normalize_signals (map text inputs.candidate_signals) a.policy) _ rest in
      let (result, _, shape) =
        >>=-eq-ok
          (evaluate_compiled_policy (map text normalized) (map text inputs.explicit_modes) a.policy)
          _ rest' in
      let no_intent : c.calculated.intent ≡ none = ground (arith, shape) in
      let same : c.common ≡ c.full = ground (arith, c.full_ok, no_intent) in
      (
        ground (arith, bare),
        ground (arith, bare),
        get-finalize py c.full "intent_id" c.final refl
            ∙ ap (λ p. get p "intent_id") (sym same)
            ∙ facts.6,
        get-finalize py c.full "requested_task_id" c.final refl
            ∙ ap (λ p. get p "requested_task_id") (sym same)
            ∙ facts.5,
      )

-- The order of the candidate signals does not matter to a classification: the Decision, or the
-- failure, is the same.
pub calculate_route-perm :
    (py : Platform) (uuids : ℕ → String) (challenge : String) (modes : List String)
    (a : RouteAuthorities) {xs ys : List String}
    → Perm xs ys
    → calculate_route py uuids challenge "classify-only"
        (record {
          intent = none;
          candidate_signals = xs;
          explicit_modes = modes;
          requested_task_ref = none;
        })
        a
      ≡ calculate_route py uuids challenge "classify-only"
          (record {
            intent = none;
            candidate_signals = ys;
            explicit_modes = modes;
            requested_task_ref = none;
          })
          a
unfolding calculate_route policy_inputs
calculate_route-perm py uuids challenge modes a {xs} {ys} d =
    rw (normalize_signals-perm a.policy d) refl

-- An accepted surface closure has closed fields, and its identities are texts that ascend, without
-- repetition, with both meta-surfaces among them.
pub surface_closure-ok :
    (route : String) (a : RouteAuthorities) {surfaces : List Fields}
    → surface_closure route a ≡ ok surfaces
    → (identifiers : List String) × (lookup a.task_surface_closures route ≡ some surfaces)
      × (as_texts (map (λ surface. get surface "surface_id") surfaces) ≡ some identifiers)
      × IsAscending leb_text identifiers
      × (no_repeat identifiers ≡ true)
      × (mem "runtime-control-plane" identifiers ≡ true)
      × (mem "surface-registry" identifiers ≡ true)
      × (all (λ surface. has_fields surface ("surface_id" ∷ "surface_digest" ∷ [])) surfaces ≡ true)
unfolding surface_closure
surface_closure-ok route a {surfaces} h =
    let (raw, found, h₁) = present-ok (lookup a.task_surface_closures route) _ _ h in
    let (closed, h₂) = require-ok (all _ raw) _ _ h₁ in
    let (identifiers, named, h₃) =
      present-ok (as_texts (map (λ surface. get surface "surface_id") raw)) _ _ h₂ in
    let (ascending, h₄) = require-ok (is_sorted identifiers) _ _ h₃ in
    let (distinct, h₅) = require-ok (no_repeat identifiers) _ _ h₄ in
    let (mandatory, shape) = require-ok (subset mandatory_surfaces identifiers) _ _ h₅ in
    let same : raw ≡ surfaces = cc (shape) in
    (
      identifiers,
      found ∙ ap some same,
      ap (λ ds. as_texts (map (λ d. get d "surface_id") ds)) (sym same) ∙ named,
      subst (IsAscending leb_text) (sym (eq_texts_iff identifiers _ ascending))
          (sorted-IsAscending leb_text leb_text_total leb_text_trans identifiers),
      distinct,
      ground (arith, mandatory),
      ground (arith, mandatory),
      rw same at closed,
    )
