-- ===== src/Route/Verifier/Accepts.antt =====
-- That route/verifier.py accepts what route/calculator.py makes.
-- Comparisons that all pass.
use agent_workflow_pack.Canonical.{
  canonical_json, normalize_items, normalize_json_value, normalize_nfc, serialize,
}
use agent_workflow_pack.Json.{
  Fields, Items, Value, arr, as_texts, cons, eq_value, get, nil, of_list, text, texts,
}
use agent_workflow_pack.Platform.{Platform}
use agent_workflow_pack.Prelude.{
  All, List, String, [], ap, eq_refl, length, ltb, map, no_repeat, refl, subset, subst, true, ◌==◌,
  ◌∙◌, ◌∷◌, ◌≡◌,
}
use agent_workflow_pack.Result.{
  >>=-eq-ok, >>=-run, Exn, Result, failure, map_result, ok, ok-injective, present, present-ok,
  reject, reject-ok, require, require-ok, require-run, ◌>>=◌, ◌>>◌,
}
use agent_workflow_pack.Route.Signals.{
  CompiledRoutePolicy, PolicyResult, evaluate_compiled_policy, explicit_routes, normalize_signals,
  policy_result,
}
use agent_workflow_pack.Route.Signals.Laws.{normalize_signals_idem}
use agent_workflow_pack.Route.Verifier.{check_canonical, check_equal, check_replay, mismatch}

pub check_equal-run :
    (d : Fields) (e : Exn) (expected : List (String × Value))
    → All (λ (p : String × Value). eq_value (get d p.0) p.1 ≡ true) expected
    → check_equal d e expected ≡ ok tt
unfolding check_equal
check_equal-run d e [] all_equal = refl
check_equal-run d e ((k, v) ∷ expected) all_equal =
    >>=-run (require (eq_value (get d k) v) e) _ (require-run _ e all_equal.0)
    ∙ check_equal-run d e expected all_equal.1

module _ (py : Platform) where
  pub check_replay-run :
      (d : Fields) (expected : List (String × Value))
      → All
          (λ (p : String × Value).
            check_canonical py (get d p.0) p.1 (mismatch "Decision policy replay differs") ≡ ok tt)
          expected
      → check_replay py d expected ≡ ok tt
  unfolding check_replay
  check_replay-run d [] same = refl
  check_replay-run d ((k, v) ∷ expected) same =
      >>=-run (check_canonical py (get d k) v (mismatch "Decision policy replay differs")) _ same.0
      ∙ check_replay-run d expected same.1

  -- A value with a canonical text is the same as itself.
  check_canonical_self :
      (v : Value) (e : Exn) (s : String)
      → canonical_json py v ≡ ok s
      → check_canonical py v v e ≡ ok tt
  unfolding check_canonical
  check_canonical_self v e s h =
      >>=-run (canonical_json py v) _ h
      ∙ >>=-run (canonical_json py v) _ h
      ∙ require-run (s == s) e (eq_refl s)

  normalize_items-texts :
      (ss : List String) → (vs : Items) × (normalize_items py (of_list (map text ss)) ≡ ok vs)
  unfolding normalize_json_value
  normalize_items-texts [] = (nil, refl)
  normalize_items-texts (s ∷ ss) =
      let (vs, h) = normalize_items-texts ss in
      (cons (text (normalize_nfc py s)) vs, ap (map_result (cons (text (normalize_nfc py s)))) h)

  canonical_json-texts : (ss : List String) → (s : String) × (canonical_json py (texts ss) ≡ ok s)
  unfolding canonical_json normalize_json_value
  canonical_json-texts ss =
      let (vs, h) = normalize_items-texts ss in
      (serialize (arr vs), ap (λ r. map_result serialize (map_result arr r)) h)

  pub same_text : (s : String) (e : Exn) → check_canonical py (text s) (text s) e ≡ ok tt
  unfolding canonical_json normalize_json_value
  same_text s e = check_canonical_self (text s) e (serialize (text (normalize_nfc py s))) refl

  pub same_texts : (ss : List String) (e : Exn) → check_canonical py (texts ss) (texts ss) e ≡ ok tt
  same_texts ss e = let (s, h) = canonical_json-texts ss in check_canonical_self (texts ss) e s h

-- The policy gives the same result on the signals that it has normalised.
pub evaluate-normal :
    (signals explicit : List String) (policy : CompiledRoutePolicy) (result : PolicyResult)
    → evaluate_compiled_policy (map text signals) (map text explicit) policy ≡ ok result
    → evaluate_compiled_policy (map text result.signals) (map text explicit) policy ≡ ok result
unfolding evaluate_compiled_policy policy_result
evaluate-normal signals explicit policy result h =
    let (normal, normalized, h₁) = >>=-eq-ok (normalize_signals (map text signals) policy) _ h in
    let (modes, read, h₂) = present-ok (as_texts (map text explicit)) _ _ h₁ in
    let (_, h₃) = require-ok (no_repeat modes) _ _ h₂ in
    let (_, h₄) = require-ok (subset modes explicit_routes) _ _ h₃ in
    let (_, h₅) = reject-ok (ltb 1 (length modes)) _ _ h₄ in
    let same : normal ≡ result.signals = ap (λ (r : PolicyResult). r.signals) (ok-injective h₅) in
    >>=-run (normalize_signals (map text result.signals) policy) _
      (normalize_signals_idem signals policy result.signals (normalized ∙ ap (λ x. ok x) same))
    ∙ subst (λ (x : List String). rest x ≡ ok result) same h₁
  where
    rest : List String → Result PolicyResult
    rest normal = do
      modes ←
          present (as_texts (map text explicit))
            (failure "AWP_ROUTE_SIGNAL_INVALID" "explicit mode set is invalid")
      require (no_repeat modes)
          (failure "AWP_ROUTE_SIGNAL_INVALID" "explicit mode set contains duplicates")
      require (subset modes explicit_routes)
          (failure "AWP_ROUTE_SIGNAL_INVALID" "explicit mode set contains an unknown route")
      reject (ltb 1 (length modes))
          (failure "AWP_ROUTE_SIGNAL_INVALID" "conflicting explicit modes are forbidden")
      ok (policy_result normal modes policy)
