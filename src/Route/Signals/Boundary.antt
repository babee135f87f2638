-- ===== src/Route/Signals/Boundary.antt =====
-- The heavy boundary of route/signals.py: which signal sets leave the default route.
use Prim.Native.String.{◌++◌ as append}
use agent_workflow_pack.Json.{text}
use agent_workflow_pack.Json.Laws.{as_texts-map}
use agent_workflow_pack.Prelude.{
  &&-true, Bool, List, String, [], any, ap, arith, eq_iff, eq_refl, false, if◌then◌else◌, is_empty,
  keep, leb_text, length, map, mem, no_repeat, not, refl, sorted_texts, subset, true, true_of_iff,
  ◌&&◌, ◌++◌, ◌||◌, ◌∙◌, ◌∷◌, ◌≡◌, ◌≢◌, ◌≤◌,
}
use agent_workflow_pack.Prelude.Sort.{any-sorted, insert, sorted}
use agent_workflow_pack.Prelude.Text.Sets.{mem-sorted, mem_of_subset, subset_trans}
use agent_workflow_pack.Result.{>>=-eq-ok, ok}
use agent_workflow_pack.Route.Signals.{
  CompiledRoutePolicy, CompoundRule, PolicyResult, choose_route, evaluate_compiled_policy,
  explicit_routes, matched, normalize_signals, policy_result, rule_ids,
}
use agent_workflow_pack.Route.Signals.Laws.{normalize_signals_iff}

-- Some hard signal is supplied, or all the signals of some compound rule are.
unfoldable pub crosses : List String → CompiledRoutePolicy → Bool
crosses xs p =
    any (λ h. mem h xs) p.hard_signals || any (λ r. subset r.all_signals xs) p.compound_rules

any-mem_comm : (xs ys : List String) → any (λ x. mem x ys) xs ≡ any (λ y. mem y xs) ys
any-mem_comm xs ys =
    true_of_iff (any (λ x. mem x ys) xs) (any (λ y. mem y xs) ys) (swap xs ys) (swap ys xs)
  where
    found :
        (x : String) (as_ bs : List String)
        → mem x bs ≡ true
        → mem x as_ ≡ true
        → any (λ b. mem b as_) bs ≡ true
    found x as_ [] h k = cc
    found x as_ (b ∷ bs) h k =
        ground (arith, found x as_ bs, λ (e : b ≡ x). ap (λ z. mem z as_) e, eq_iff b x)

    widen :
        (x : String) (as_ bs : List String)
        → any (λ b. mem b as_) bs ≡ true
        → any (λ b. mem b (x ∷ as_)) bs ≡ true
    widen x as_ [] h = h
    widen x as_ (b ∷ bs) h = ground (arith, widen x as_ bs)

    swap : (as_ bs : List String) → any (λ a. mem a bs) as_ ≡ true → any (λ b. mem b as_) bs ≡ true
    swap [] bs h = cc
    swap (a ∷ as_) bs h =
        ground (arith, found a (a ∷ as_) bs, eq_refl a, widen a as_ bs, swap as_ bs)

-- Nothing is kept exactly when nothing passes.
is_empty-keep {ℓ} :
    {A : Type ℓ} (p : A → Bool) (xs : List A) → is_empty (keep p xs) ≡ not (any p xs)
is_empty-keep p [] = refl
is_empty-keep p (x ∷ xs) = ground (arith, is_empty-keep p xs)

is_empty-map {ℓ κ} :
    {A : Type ℓ} {B : Type κ} (f : A → B) (xs : List A) → is_empty (map f xs) ≡ is_empty xs
is_empty-map f [] = refl
is_empty-map f (x ∷ xs) = refl

is_empty-append {ℓ} :
    {A : Type ℓ} (xs ys : List A) → is_empty (xs ++ ys) ≡ (is_empty xs && is_empty ys)
is_empty-append [] ys = refl
is_empty-append (x ∷ xs) ys = refl

is_empty-insert : (x : String) (xs : List String) → is_empty (insert leb_text x xs) ≡ false
unfolding insert
is_empty-insert x [] = refl
is_empty-insert x (y ∷ ys) = ground arith

is_empty-sorted : (xs : List String) → is_empty (sorted_texts xs) ≡ is_empty xs
unfolding sorted
is_empty-sorted [] = refl
is_empty-sorted (x ∷ xs) = is_empty-insert x (sorted_texts xs)

any_ext {ℓ} :
    {A : Type ℓ} (p q : A → Bool) (xs : List A) → ((x : A) → p x ≡ q x) → any p xs ≡ any q xs
any_ext p q [] h = refl
any_ext p q (x ∷ xs) h = ground (arith, h x, any_ext p q xs h)

subset-ext :
    (zs xs ys : List String) → ((x : String) → mem x xs ≡ mem x ys) → subset zs xs ≡ subset zs ys
subset-ext [] xs ys h = refl
subset-ext (z ∷ zs) xs ys h = ground (arith, h z, subset-ext zs xs ys h)

-- The matched rules of the sorted signals are none exactly below the boundary.
is_empty-matched :
    (xs : List String) (p : CompiledRoutePolicy)
    → is_empty (sorted_texts (matched (sorted_texts xs) p)) ≡ not (crosses xs p)
unfolding crosses
is_empty-matched xs p =
    let hard : List String = keep (λ s. mem s p.hard_signals) (sorted_texts xs) in
    let compound : List CompoundRule =
      keep (λ r. subset r.all_signals (sorted_texts xs)) p.compound_rules in
    ground (
      arith,
      is_empty-sorted (matched (sorted_texts xs) p),
      is_empty-append (map (λ signal. append "hard:" signal) hard) (rule_ids compound),
      is_empty-map (λ signal. append "hard:" signal) hard,
      is_empty-map (λ (r : CompoundRule). r.rule_id) compound,
      is_empty-keep (λ s. mem s p.hard_signals) (sorted_texts xs),
      any-sorted leb_text (λ s. mem s p.hard_signals) xs,
      any-mem_comm xs p.hard_signals,
      is_empty-keep (λ r. subset r.all_signals (sorted_texts xs)) p.compound_rules,
      any_ext (λ (r : CompoundRule). subset r.all_signals (sorted_texts xs))
          (λ r. subset r.all_signals xs) p.compound_rules
          (λ r. subset-ext r.all_signals (sorted_texts xs) xs (λ x. mem-sorted x xs)),
    )

-- With the explicit modes as texts, an accepted evaluation chooses over the sorted signals.
pub evaluate-ok :
    (xs ms : List String) (p : CompiledRoutePolicy) (r : PolicyResult)
    → evaluate_compiled_policy (map text xs) (map text ms) p ≡ ok r
    → (normalize_signals (map text xs) p ≡ ok (sorted_texts xs))
      × (no_repeat ms ≡ true)
      × (subset ms explicit_routes ≡ true)
      × (length ms ≤ 1)
      × (r.matched_rule_ids ≡ sorted_texts (matched (sorted_texts xs) p))
      × (r.signals ≡ sorted_texts xs)
      × (r.route ≡ choose_route ms (sorted_texts (matched (sorted_texts xs) p)) p)
unfolding evaluate_compiled_policy policy_result
evaluate-ok xs ms p r h =
    let (n, normal, rest) = >>=-eq-ok (normalize_signals (map text xs) p) _ h in
    let facts = (normalize_signals_iff xs p n).0 normal in
    ground (arith, as_texts-map ms, facts.3, normal, rest)

-- With no explicit mode the route is the heavy one exactly when the signals cross the boundary, and
-- the policy's default otherwise.
pub evaluate-route :
    (xs : List String) (p : CompiledRoutePolicy) (r : PolicyResult)
    → evaluate_compiled_policy (map text xs) [] p ≡ ok r
    → r.route ≡ (if crosses xs p then "speckit-superpowers" else p.default_route)
evaluate-route xs p r h =
    (evaluate-ok xs [] p r h).6
    ∙ chosen (sorted_texts (matched (sorted_texts xs) p)) (is_empty-matched xs p)
  where
    chosen :
        (ordered : List String)
        → is_empty ordered ≡ not (crosses xs p)
        → choose_route [] ordered p
          ≡ (if crosses xs p then "speckit-superpowers" else p.default_route)
    chosen [] e = ground (arith, e)
    chosen (o ∷ os) e = ground (arith, e)

-- More signals never lead back: a signal set that left the default route still leaves it with any
-- signals added.
pub evaluate_mono :
    (xs ys : List String) (p : CompiledRoutePolicy) (r q : PolicyResult)
    → subset xs ys ≡ true
    → evaluate_compiled_policy (map text xs) [] p ≡ ok r
    → evaluate_compiled_policy (map text ys) [] p ≡ ok q
    → r.route ≢ p.default_route
    → q.route ≡ "speckit-superpowers"
unfolding crosses
evaluate_mono xs ys p r q sub h k left = ground (
  arith,
  evaluate-route xs p r h,
  evaluate-route ys p q k,
  any_mono (λ s. mem s xs) (λ s. mem s ys) p.hard_signals (λ s m. mem_of_subset s xs ys sub m),
  any_mono (λ (c : CompoundRule). subset c.all_signals xs) (λ c. subset c.all_signals ys)
      p.compound_rules (λ c m. subset_trans c.all_signals xs ys m sub),
)
  where
    any_mono :
        {A : Type 0} (f g : A → Bool) (as_ : List A)
        → ((a : A) → f a ≡ true → g a ≡ true)
        → any f as_ ≡ true
        → any g as_ ≡ true
    any_mono f g [] w m = m
    any_mono f g (a ∷ as_) w m = ground (arith, w a, any_mono f g as_ w)

-- An explicit mode is obeyed whatever the signals are, and it is one of the two integrated routes.
pub evaluate-explicit :
    (xs : List String) (mode : String) (p : CompiledRoutePolicy) (r : PolicyResult)
    → evaluate_compiled_policy (map text xs) (text mode ∷ []) p ≡ ok r
    → (r.route ≡ mode) × (mem mode explicit_routes ≡ true)
evaluate-explicit xs mode p r h =
    let facts = evaluate-ok xs (mode ∷ []) p r h in
    (facts.6, (&&-true (mem mode explicit_routes) true facts.2).0)
