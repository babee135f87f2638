-- ===== src/Core/Catalog/Capabilities.antt =====
-- `evaluate_capabilities` of src/agent_stack/core/catalog.py.
pub mod Laws
use agent_workflow_pack.Core.Catalog.{Levels, Manifests, capability_failure, parse_manifests, rank}
use agent_workflow_pack.Core.Profile.Merge.{CapabilityLevel, unsupported}
use agent_workflow_pack.Core.Profile.Resolve.{ResolvedProfile, sorted_items}
use agent_workflow_pack.Json.{Fields, lookup}
use agent_workflow_pack.Prelude.{
  List, Option, String, [], is_empty, ltb, none, not, some, ◌&&◌, ◌++◌, ◌∷◌,
}
use agent_workflow_pack.Result.{Result, map_result, ok, reject, traverse, ◌>>=◌, ◌>>◌}

pub record CapabilityResult : Type 0 where
  pub capability_id : String
  pub required : CapabilityLevel
  pub observed : CapabilityLevel
  pub platform : String

-- `by_platform.get(platform, {}).get(capability_id, CapabilityLevel.UNSUPPORTED)`
abbrev pub level_in : Option Levels → String → CapabilityLevel
level_in none id = unsupported
level_in (some levels) id = elim (lookup levels id) [ none ↦ unsupported | some level ↦ level ]

abbrev pub observed_level : Manifests → String → String → CapabilityLevel
observed_level by_platform platform id = level_in (lookup by_platform platform) id

-- The body of the loop over the platforms.
abbrev pub compare_level : Manifests → String → CapabilityLevel → String → Result CapabilityResult
compare_level by_platform id required platform = do
  reject (ltb (rank (observed_level by_platform platform id)) (rank required))
      (capability_failure "platform capability is below the profile minimum")
  ok (record {
    capability_id = id;
    required = required;
    observed = observed_level by_platform platform id;
    platform = platform;
  })

-- The loop over the capabilities.
unfoldable pub compare_levels : Manifests → List String → Levels → Result (List CapabilityResult)
compare_levels by_platform platforms [] = ok []
compare_levels by_platform platforms ((id, required) ∷ rest) = do
  results ← traverse (compare_level by_platform id required) platforms
  map_result (λ later. results ++ later) (compare_levels by_platform platforms rest)

unfoldable pub evaluate_capabilities :
    ResolvedProfile → List Fields → Result (List CapabilityResult)
evaluate_capabilities profile manifests = do
  by_platform ← parse_manifests manifests
  reject (not (is_empty profile.required_capabilities) && is_empty profile.default_platforms)
      (capability_failure "profile requires capabilities but selects no platform")
  compare_levels by_platform profile.default_platforms (sorted_items profile.required_capabilities)
