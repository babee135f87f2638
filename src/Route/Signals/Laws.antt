-- ===== src/Route/Signals/Laws.antt =====
-- What route/signals.py's `normalize_signals` accepts, and what it returns.
use agent_workflow_pack.Json.{text}
use agent_workflow_pack.Json.Laws.{as_texts-map}
use agent_workflow_pack.Prelude.{
  List, String, any, arith, false, if◌then◌else◌, leb_text, leb_text_total, leb_text_trans, map,
  no_repeat, none, same_set, some, sorted_texts, subset, sym, text_order, true, ◌==◌, ◌↔◌, ◌∙◌, ◌≡◌,
}
use agent_workflow_pack.Prelude.Sort.{
  IsAscending, any-sorted, sorted-IsAscending, sorted-perm, sorted_of_IsAscending,
}
use agent_workflow_pack.Prelude.Text.Sets.{no_repeat-sorted, sorted-same_set, subset-perm}
use agent_workflow_pack.Result.{err, failure, ok, require, ◌>>◌}
use agent_workflow_pack.Route.Signals.{CompiledRoutePolicy, nonempty_texts, normalize_signals}

nonempty_texts-map :
    (xs : List String)
    → nonempty_texts (map text xs) ≡ (if any (λ s. s == "") xs then none else some xs)
nonempty_texts-map xs = rw (as_texts-map xs, nonempty_texts)

-- On texts the function is a chain of three tests and a sort.
pub normalize_signals-texts :
    (xs : List String) (p : CompiledRoutePolicy)
    → normalize_signals (map text xs) p ≡ (
        if any (λ s. s == "") xs
        then err (failure "AWP_ROUTE_SIGNAL_INVALID" "signal set is not a string sequence")
        else (do
          require
              (no_repeat xs)
              (failure "AWP_ROUTE_SIGNAL_INVALID" "signal set contains duplicate IDs")
          require
              (subset xs p.known_signals)
              (failure "AWP_ROUTE_SIGNAL_INVALID" "signal set contains unknown IDs")
          ok (sorted_texts xs)))
unfolding normalize_signals
normalize_signals-texts xs p = rw (nonempty_texts-map xs) (ground arith)

-- A signal set is accepted exactly when its texts are nonempty, distinct and known to the policy, and
-- then the result is the sorted set.
pub normalize_signals_iff :
    (xs : List String) (p : CompiledRoutePolicy) (r : List String)
    → (normalize_signals (map text xs) p ≡ ok r) ↔ (
        (any (λ s. s == "") xs ≡ false)
        × (no_repeat xs ≡ true)
        × (subset xs p.known_signals ≡ true)
        × (r ≡ sorted_texts xs))
normalize_signals_iff xs p r = rw (normalize_signals-texts xs p) (ground arith, λ h. ground arith)

-- An accepted signal set comes back ascending, without repetition, with the same members, all of them
-- known to the policy.
pub normalize_signals-canonical :
    (xs : List String) (p : CompiledRoutePolicy) (r : List String)
    → normalize_signals (map text xs) p ≡ ok r
    → IsAscending leb_text r
      × (no_repeat r ≡ true)
      × (same_set r xs ≡ true)
      × (subset r p.known_signals ≡ true)
normalize_signals-canonical xs p r h =
    let facts = (normalize_signals_iff xs p r).0 h in
    rw (facts.3) (
      sorted-IsAscending leb_text leb_text_total leb_text_trans xs,
      no_repeat-sorted xs ∙ facts.1,
      sorted-same_set xs,
      subset-perm p.known_signals (sorted-perm leb_text xs) ∙ facts.2,
    )

-- Normalising what was normalised changes nothing.
pub normalize_signals_idem :
    (xs : List String) (p : CompiledRoutePolicy) (r : List String)
    → normalize_signals (map text xs) p ≡ ok r
    → normalize_signals (map text r) p ≡ ok r
normalize_signals_idem xs p r h =
    let facts = (normalize_signals_iff xs p r).0 h in
    let canonical = normalize_signals-canonical xs p r h in
    (normalize_signals_iff r p r).1 (
      rw (facts.3) (any-sorted leb_text (λ s. s == "") xs ∙ facts.0),
      canonical.1,
      canonical.3,
      sym (sorted_of_IsAscending text_order r canonical.0),
    )
