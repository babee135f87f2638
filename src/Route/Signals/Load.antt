-- ===== src/Route/Signals/Load.antt =====
-- What a policy loaded by route/signals.py's `load_compiled_policy` has.
use package.text.Mathlib.Text.{starts_with}
use agent_workflow_pack.Canonical.{digest}
use agent_workflow_pack.Json.{
  Value, arr, as_arr, as_obj, as_text, bool, eq_value, get, has_fields, int, null, obj, text,
}
use agent_workflow_pack.Platform.{Platform}
use agent_workflow_pack.Prelude.{
  All, List, Option, String, [], arith, leb_text, leb_text_total, leb_text_trans, length, ltb, map,
  mem, no_repeat, not, refl, sorted_texts, subset, subst, sym, true, ◌&&◌, ◌++◌, ◌||◌, ◌∷◌, ◌≡◌,
  ◌≤◌,
}
use agent_workflow_pack.Prelude.Sort.{IsAscending, sorted-IsAscending}
use agent_workflow_pack.Prelude.Text.Sets.{eq_texts_iff}
use agent_workflow_pack.Result.{
  >>=-eq-ok, Result, map_result-ok, ok, ok-injective, present-ok, reject-ok, require-ok, traverse,
}
use agent_workflow_pack.Route.Signals.{
  CompiledRoutePolicy, CompoundRule, PolicyResult, choose_route, compound_rule,
  evaluate_compiled_policy, explicit_routes, is_sorted, load_compiled_policy, matched,
  nonempty_texts, policy_fields, rule_ids, signals_of, string_array,
}
use agent_workflow_pack.Route.Signals.Boundary.{evaluate-ok}

-- A strictly ascending list of distinct texts, as the loader checks it.
pub record IsCanonicalSet (xs : List String) : Type 0 where
  pub ascending : IsAscending leb_text xs
  pub distinct : no_repeat xs ≡ true

pub record IsCompound (r : CompoundRule) : Type 0 where
  pub named : starts_with r.rule_id "compound:" ≡ true
  pub several : 2 ≤ length r.all_signals
  pub canonical : IsCanonicalSet r.all_signals

pub record IsLoaded (p : CompiledRoutePolicy) : Type 0 where
  pub version : p.policy_version ≡ 1
  pub default : p.default_route ≡ "native-light"
  pub hard : IsCanonicalSet p.hard_signals
  pub compounds : All IsCompound p.compound_rules
  pub ordered : IsAscending leb_text (rule_ids p.compound_rules)
  pub known : p.known_signals ≡ p.hard_signals ++ signals_of p.compound_rules

is_sorted-IsAscending : (xs : List String) → is_sorted xs ≡ true → IsAscending leb_text xs
is_sorted-IsAscending xs h =
    subst (IsAscending leb_text) (sym (eq_texts_iff xs (sorted_texts xs) h))
      (sorted-IsAscending leb_text leb_text_total leb_text_trans xs)

string_array-ok : (v : Value) {xs : List String} → string_array v ≡ ok xs → no_repeat xs ≡ true
string_array-ok v {xs} h =
    let (items, _, h₁) = present-ok (as_arr v) _ _ h in
    let (result, _, h₂) = present-ok (nonempty_texts items) _ _ h₁ in
    let (distinct, shape) = require-ok (no_repeat result) _ _ h₂ in ground (arith, distinct, shape)

compound_rule-ok : (v : Value) {r : CompoundRule} → compound_rule v ≡ ok r → IsCompound r
compound_rule-ok (obj d) {r} h =
    let (_, h₁) = require-ok (has_fields d ("rule_id" ∷ "all" ∷ [])) _ _ h in
    let (rule_id, _, h₂) = present-ok (as_text (get d "rule_id")) _ _ h₁ in
    let (named, h₃) = require-ok (starts_with rule_id "compound:") _ _ h₂ in
    let (signals, array, h₄) = >>=-eq-ok (string_array (get d "all")) _ h₃ in
    let (fits, shape) = reject-ok (ltb (length signals) 2 || not (is_sorted signals)) _ _ h₄ in
    subst IsCompound (ok-injective shape) (record {
      named = named;
      several = ground (arith, fits);
      canonical = record {
        ascending = is_sorted-IsAscending signals (ground (arith, fits));
        distinct = string_array-ok (get d "all") array;
      };
    })
compound_rule-ok null h = cc
compound_rule-ok (bool b) h = cc
compound_rule-ok (int n) h = cc
compound_rule-ok (text s) h = cc
compound_rule-ok (arr vs) h = cc

traverse-All {ℓ κ} :
    {A : Type ℓ} {B : Type 0} {P : B → Type κ} (f : A → Result B)
    → ((a : A) (b : B) → f a ≡ ok b → P b)
    → (xs : List A) {ys : List B} → traverse f xs ≡ ok ys
    → All P ys
traverse-All {P} f each [] h = subst (All P) (ok-injective h) tt
traverse-All {P} f each (x ∷ xs) h =
    let (y, first, h₁) = >>=-eq-ok (f x) _ h in
    let (rest, more, shape) = map_result-ok (λ ys. y ∷ ys) (traverse f xs) h₁ in
    subst (All P) (sym shape) (each x y first, traverse-All f each xs more)

-- A loaded policy has version 1 and the default "native-light"; its hard signals and each compound
-- rule's signals ascend without repetition, a compound rule has at least two signals and an identity
-- that starts with "compound:", the rules ascend by identity, and the known signals are those of the
-- hard list and of the compound rules.
pub load_compiled_policy-IsLoaded :
    (py : Platform) (document : Option Value) (p : CompiledRoutePolicy)
    → load_compiled_policy py document ≡ ok p
    → IsLoaded p
unfolding load_compiled_policy
load_compiled_policy-IsLoaded py document p h =
    let (loaded, _, h₁) = present-ok document _ _ h in
    let (d, _, h₂) = present-ok (as_obj loaded) _ _ h₁ in
    let (_, h₃) = require-ok (has_fields d policy_fields) _ _ h₂ in
    let (_, h₄) =
      require-ok
        (eq_value (get d "schema_id") _
          && eq_value (get d "schema_version") _
          && eq_value (get d "policy_version") _)
        _ _ h₃ in
    let (_, h₅) = require-ok (eq_value (get d "default_route") _) _ _ h₄ in
    let (hard, array, h₆) = >>=-eq-ok (string_array (get d "hard_signals")) _ h₅ in
    let (sorted_hard, h₇) = require-ok (is_sorted hard) _ _ h₆ in
    let (raw, _, h₈) = present-ok (as_arr (get d "compound_rules")) _ _ h₇ in
    let (compounds, each, h₉) = >>=-eq-ok (traverse compound_rule raw) _ h₈ in
    let (sorted_rules, h₁₀) = require-ok (is_sorted (rule_ids compounds)) _ _ h₉ in
    let (policy_digest, _, shape) =
      >>=-eq-ok (digest py "agent-workflow.route-policy.v1" loaded) _ h₁₀ in
    subst IsLoaded (ok-injective shape) (record {
      version = refl;
      default = refl;
      hard = record {
        ascending = is_sorted-IsAscending hard sorted_hard;
        distinct = string_array-ok (get d "hard_signals") array;
      };
      compounds = traverse-All compound_rule (λ v r. compound_rule-ok v) raw each;
      ordered = is_sorted-IsAscending (rule_ids compounds) sorted_rules;
      known = refl;
    })

-- Under a loaded policy every accepted evaluation has one of the three routes.
pub evaluate-closed :
    (py : Platform) (document : Option Value) (p : CompiledRoutePolicy) (xs ms : List String)
    (r : PolicyResult)
    → load_compiled_policy py document ≡ ok p
    → evaluate_compiled_policy (map text xs) (map text ms) p ≡ ok r
    → mem r.route ("native-light" ∷ "trellis-native" ∷ "speckit-superpowers" ∷ []) ≡ true
evaluate-closed py document p xs ms r loaded h =
    let facts = evaluate-ok xs ms p r h in
    rw (facts.6) (chosen ms (sorted_texts (matched (sorted_texts xs) p)) facts.2)
  where
    chosen :
        (modes ordered : List String)
        → subset modes explicit_routes ≡ true
        → mem
            (choose_route modes ordered p)
            ("native-light" ∷ "trellis-native" ∷ "speckit-superpowers" ∷ [])
          ≡ true
    chosen [] [] s = rw ((load_compiled_policy-IsLoaded py document p loaded).default) refl
    chosen [] (rule ∷ ordered) s = refl
    chosen (mode ∷ modes) ordered s = ground arith
