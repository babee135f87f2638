-- ===== src/Core/Catalog/Capabilities/Laws.antt =====
-- What an evaluation of capabilities in core/catalog.py has compared.
-- On every platform the observed level is at least the required one.
use agent_workflow_pack.Core.Catalog.{Levels, Manifests, parse_manifests, rank}
use agent_workflow_pack.Core.Catalog.Capabilities.{
  CapabilityResult, compare_level, compare_levels, evaluate_capabilities, observed_level,
}
use agent_workflow_pack.Core.Profile.Merge.{CapabilityLevel}
use agent_workflow_pack.Core.Profile.Resolve.{ResolvedProfile, sorted_items}
use agent_workflow_pack.Json.{Fields}
use agent_workflow_pack.Prelude.{
  Bool, List, String, [], all, arith, false, is_empty, leb, leb_text, ltb, not, refl, sym, true,
  true-&&, ℕ, ◌&&◌, ◌||◌, ◌∙◌, ◌∷◌, ◌≡◌,
}
use agent_workflow_pack.Prelude.Sort.{all-sorted}
use agent_workflow_pack.Result.{>>=-eq-ok, >>=-run, map_result-ok, ok, reject-ok, traverse}

abbrev pub meets : Manifests → List String → String × CapabilityLevel → Bool
meets by_platform platforms requirement =
    all
      (λ platform.
        leb (rank requirement.1) (rank (observed_level by_platform platform requirement.0)))
      platforms

compare_level-meets :
    (by_platform : Manifests) (id : String) (required : CapabilityLevel) (platforms : List String)
    (results : List CapabilityResult)
    → traverse (compare_level by_platform id required) platforms ≡ ok results
    → meets by_platform platforms (id, required) ≡ true
compare_level-meets by_platform id required [] results h = refl
compare_level-meets by_platform id required (platform ∷ platforms) results h =
    let (result, here, h₁) = >>=-eq-ok (compare_level by_platform id required platform) _ h in
    let (later, rest, _) =
      map_result-ok _ (traverse (compare_level by_platform id required) platforms) h₁ in
    let (enough, _) =
      reject-ok (ltb (rank (observed_level by_platform platform id)) (rank required)) _ _ here in
    true-&& _ _ (not_below (rank (observed_level by_platform platform id)) (rank required) enough)
      (compare_level-meets by_platform id required platforms later rest)
  where
    not_below : (m n : ℕ) → ltb m n ≡ false → leb n m ≡ true
    not_below m n h = ground (arith, h)

compare_levels-meets :
    (by_platform : Manifests) (platforms : List String) (required : Levels)
    (results : List CapabilityResult)
    → compare_levels by_platform platforms required ≡ ok results
    → all (meets by_platform platforms) required ≡ true
unfolding compare_levels
compare_levels-meets by_platform platforms [] results h = refl
compare_levels-meets by_platform platforms ((id, level) ∷ rest) results h =
    let (here, compared, h₁) =
      >>=-eq-ok (traverse (compare_level by_platform id level) platforms) _ h in
    let (later, others, _) = map_result-ok _ (compare_levels by_platform platforms rest) h₁ in
    true-&& _ _ (compare_level-meets by_platform id level platforms here compared)
      (compare_levels-meets by_platform platforms rest later others)

-- Where an evaluation returns, every capability that the profile requires is observed, on every platform
-- that it selects, at the required level or above; and some platform is selected if any is required.
pub evaluate_capabilities-enforced :
    (profile : ResolvedProfile) (manifests : List Fields) (results : List CapabilityResult)
    (by_platform : Manifests)
    → evaluate_capabilities profile manifests ≡ ok results
    → parse_manifests manifests ≡ ok by_platform
    → (all (meets by_platform profile.default_platforms) profile.required_capabilities ≡ true)
      × ((is_empty profile.required_capabilities || not (is_empty profile.default_platforms))
          ≡ true)
unfolding evaluate_capabilities
evaluate_capabilities-enforced profile manifests results by_platform h parsed =
    let h₁ = sym (>>=-run (parse_manifests manifests) _ parsed) ∙ h in
    let (some_platform, h₂) =
      reject-ok (not (is_empty profile.required_capabilities) && is_empty profile.default_platforms)
        _ _ h₁ in
    (
      sym (
            all-sorted (λ (p q : String × CapabilityLevel). leb_text p.0 q.0)
              (meets by_platform profile.default_platforms) profile.required_capabilities)
          ∙ compare_levels-meets by_platform profile.default_platforms
              (sorted_items profile.required_capabilities) results h₂,
      ground (arith, some_platform),
    )
