-- ===== src/Route/Signals/Order.antt =====
-- The evaluation of route/signals.py does not depend on the order of its inputs.
use mathlib.Core.List.Perm
use Prim.Native.String.{◌++◌ as append}
use mathlib.Core.List.{Perm, Permᴰ}
use mathlib.Core.Logic.{∥∥₁_elim}
use mathlib.Core.Path.{fun_ext, subst₂}
use agent_workflow_pack.Json.{Value, as_texts, text}
use agent_workflow_pack.Prelude.{
  Bool, Bool-cases, List, String, [], ap, arith, false, inl, inr, keep, length, ltb, map, mem,
  no_repeat, refl, sorted_texts, subset, subst, true, ◌==◌, ◌∷◌, ◌≡◌,
}
use agent_workflow_pack.Prelude.Text.Sets.{
  any-perm, mem-perm, no_repeat-perm, sorted_texts-perm, subset-perm,
}
use agent_workflow_pack.Result.{failure, ok, present, reject, require, ◌>>=◌, ◌>>◌}
use agent_workflow_pack.Route.Signals.{
  CompiledRoutePolicy, CompoundRule, choose_route, evaluate_compiled_policy, explicit_routes,
  matched, normalize_signals, policy_result,
}
use agent_workflow_pack.Route.Signals.Laws.{normalize_signals-texts}

-- The order in which the signals are supplied does not matter: result and failure are the same.
pub normalize_signals-perm :
    {xs ys : List String} (p : CompiledRoutePolicy)
    → Perm xs ys
    → normalize_signals (map text xs) p ≡ normalize_signals (map text ys) p
normalize_signals-perm {xs} {ys} p d = ground (
  arith,
  normalize_signals-texts xs p,
  normalize_signals-texts ys p,
  any-perm (λ s. s == "") d,
  no_repeat-perm d,
  subset-perm p.known_signals d,
  sorted_texts-perm d,
)

-- Supplying the signals in another order changes neither the result nor the failure of an evaluation.
pub evaluate-perm :
    {xs ys : List String} (modes : List Value) (p : CompiledRoutePolicy)
    → Perm xs ys
    → evaluate_compiled_policy (map text xs) modes p
      ≡ evaluate_compiled_policy (map text ys) modes p
unfolding evaluate_compiled_policy
evaluate-perm modes p d = rw (normalize_signals-perm p d)

module _ {ℓ} {A : Type ℓ} (f : A → Bool) where
  keep-cons-perm :
      (a : A) (xs ys : List A)
      → Perm (keep f xs) (keep f ys)
      → Perm (keep f (a ∷ xs)) (keep f (a ∷ ys))
  keep-cons-perm a xs ys d = elim (Bool-cases (f a)) [
    | inl e ↦ rw (e) (Perm.cons a d)
    | inr e ↦ rw (e) d
  ]

  keep-swap-perm : (a b : A) (xs : List A) → Perm (keep f (a ∷ b ∷ xs)) (keep f (b ∷ a ∷ xs))
  keep-swap-perm a b xs = go (f a) (f b) refl refl
    where
      go : (x y : Bool) → f a ≡ x → f b ≡ y → Perm (keep f (a ∷ b ∷ xs)) (keep f (b ∷ a ∷ xs))
      go true true e g = simp (e, g) (Perm.swap b a (keep f xs))
      go true false e g = simp (e, g) (Perm.refl (a ∷ keep f xs))
      go false y e g = simp e (Perm.refl (keep f (b ∷ xs)))

  keep-permᴰ : {xs ys : List A} → Permᴰ xs ys → Perm (keep f xs) (keep f ys)
  keep-permᴰ Permᴰ.nil = Perm.refl []
  keep-permᴰ (Permᴰ.cons {a} {b} {l₁} {l₂} e d) =
      subst (λ c. Perm (keep f (a ∷ l₁)) (keep f (c ∷ l₂))) e
        (keep-cons-perm a l₁ l₂ (keep-permᴰ d))
  keep-permᴰ (Permᴰ.swap {a} {b} {a'} {b'} {l} e g) =
      subst₂ (λ c d. Perm (keep f (a ∷ b ∷ l)) (keep f (c ∷ d ∷ l))) g e (keep-swap-perm a b l)
  keep-permᴰ (Permᴰ.trans d e) = Perm.trans (keep-permᴰ d) (keep-permᴰ e)

  keep-perm : {xs ys : List A} → Perm xs ys → Perm (keep f xs) (keep f ys)
  keep-perm d = ∥∥₁_elim d squash₁ keep-permᴰ

-- Two compiled policies with the same rules in another order.
pub record SamePolicy (p q : CompiledRoutePolicy) : Type 0 where
  pub default : p.default_route ≡ q.default_route
  pub hard : Perm p.hard_signals q.hard_signals
  pub compound : Perm p.compound_rules q.compound_rules
  pub known : (xs : List String) → subset xs p.known_signals ≡ subset xs q.known_signals

keep_ext {ℓ} :
    {A : Type ℓ} (f g : A → Bool) (xs : List A) → ((x : A) → f x ≡ g x) → keep f xs ≡ keep g xs
keep_ext f g xs h = ap (λ k. keep k xs) (fun_ext h)

module _ (p q : CompiledRoutePolicy) (s : SamePolicy p q) where
  matched-SamePolicy :
      (xs : List String) → sorted_texts (matched xs p) ≡ sorted_texts (matched xs q)
  matched-SamePolicy xs = sorted_texts-perm (
      Perm.append
        (subst (λ k. Perm (hard_ids p) (map (append "hard:") k))
          (keep_ext (λ x. mem x p.hard_signals) (λ x. mem x q.hard_signals) xs
            (λ x. mem-perm x s.hard))
          (Perm.refl (hard_ids p)))
        (Perm.map (λ (r : CompoundRule). r.rule_id)
          (keep-perm (λ r. subset r.all_signals xs) s.compound)))
    where
      hard_ids : CompiledRoutePolicy → List String
      hard_ids o = map (append "hard:") (keep (λ x. mem x o.hard_signals) xs)

  policy_result-SamePolicy :
      (xs modes : List String) → policy_result xs modes p ≡ policy_result xs modes q
  unfolding policy_result
  policy_result-SamePolicy xs modes = λ i. record {
    route = chosen modes i;
    matched_rule_ids = matched-SamePolicy xs i;
    signals = xs;
    reasons = map (λ rule_id. append "matched:" rule_id) (matched-SamePolicy xs i);
  }
    where
      chosen :
          (ms : List String)
          → choose_route ms (sorted_texts (matched xs p)) p
            ≡ choose_route ms (sorted_texts (matched xs q)) q
      chosen [] = rw (← matched-SamePolicy xs) (none_explicit (sorted_texts (matched xs p)))
        where
          none_explicit : (o : List String) → choose_route [] o p ≡ choose_route [] o q
          none_explicit [] = s.default
          none_explicit (r ∷ o) = refl
      chosen (m ∷ ms) = refl

  normalize_signals-SamePolicy :
      (xs : List String) → normalize_signals (map text xs) p ≡ normalize_signals (map text xs) q
  normalize_signals-SamePolicy xs =
      ground (arith, normalize_signals-texts xs p, normalize_signals-texts xs q, s.known xs)

  -- The order of the policy's own lists does not matter either: an evaluation reads them as sets.
  pub evaluate-SamePolicy :
      (xs : List String) (modes : List Value)
      → evaluate_compiled_policy (map text xs) modes p
        ≡ evaluate_compiled_policy (map text xs) modes q
  unfolding evaluate_compiled_policy
  evaluate-SamePolicy xs modes = λ i. do
    normalized ← normalize_signals-SamePolicy xs i
    names ←
        present (as_texts modes) (failure "AWP_ROUTE_SIGNAL_INVALID" "explicit mode set is invalid")
    require (no_repeat names)
        (failure "AWP_ROUTE_SIGNAL_INVALID" "explicit mode set contains duplicates")
    require (subset names explicit_routes)
        (failure "AWP_ROUTE_SIGNAL_INVALID" "explicit mode set contains an unknown route")
    reject (ltb 1 (length names))
        (failure "AWP_ROUTE_SIGNAL_INVALID" "conflicting explicit modes are forbidden")
    ok (policy_result-SamePolicy normalized names i)
