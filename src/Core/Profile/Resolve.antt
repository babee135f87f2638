-- ===== src/Core/Profile/Resolve.antt =====
-- `resolve_profile` of src/agent_stack/core/profile.py.
use agent_workflow_pack.Canonical.{distinct}
use agent_workflow_pack.Core.Profile.{collect_sources, profile_chain, profile_failure, source_ids}
use agent_workflow_pack.Core.Profile.Merge.{CapabilityLevel, Draft, empty_draft, merge_sources}
use agent_workflow_pack.Json.{Fields, entries, of_entries}
use agent_workflow_pack.Platform.{Platform}
use agent_workflow_pack.Prelude.{List, String, [], any, leb_text, mem, sorted_texts, ℕ, ◌++◌, ◌∷◌}
use agent_workflow_pack.Prelude.Sort.{sorted}
use agent_workflow_pack.Result.{Result, ok, reject, require, ◌>>=◌, ◌>>◌}

pub record ResolvedProfile : Type 0 where
  pub schema_version : ℕ
  pub profile_id : String
  pub route_admission : Fields
  pub bindings : List (String × Fields)
  pub skills_enable : List String
  pub skills_disable : List String
  pub artifact_policy : String
  pub default_platforms : List String
  pub required_capabilities : List (String × CapabilityLevel)
  pub approval_policy : Fields
  pub provider_security_policy : Fields

-- `sorted(mapping.items())`: the keys are distinct, so the values are never compared.
abbrev pub sorted_items : {A : Type 0} → List (String × A) → List (String × A)
sorted_items {A} items = sorted (λ (p q : String × A). leb_text p.0 q.0) items

abbrev pub sorted_fields : Fields → Fields
sorted_fields d = of_entries (sorted_items (entries d))

-- The profile that a draft makes.
abbrev pub resolved : String → Draft → ResolvedProfile
resolved selected d = record {
  schema_version = 1;
  profile_id = selected;
  route_admission = sorted_fields d.route_admission;
  bindings = sorted_items d.bindings;
  skills_enable = sorted_texts (distinct d.enabled);
  skills_disable = sorted_texts (distinct d.disabled);
  artifact_policy = d.artifact_policy;
  default_platforms = d.default_platforms;
  required_capabilities = sorted_items d.required_capabilities;
  approval_policy = sorted_fields d.approval_policy;
  provider_security_policy = sorted_fields d.provider_security_policy;
}

-- `chain.reverse()`
abbrev pub reversed : List Fields → List Fields
reversed [] = []
reversed (x ∷ xs) = reversed xs ++ x ∷ []

module _ (py : Platform) where
  unfoldable pub resolve_profile : List Fields → String → Result ResolvedProfile
  resolve_profile profile_sources selected = do
    sources ← collect_sources [] profile_sources
    require (mem selected (source_ids sources)) (profile_failure "selected profile does not exist")
    chain ← profile_chain sources selected
    draft ← merge_sources py empty_draft (reversed chain)
    reject (any (λ s. mem s draft.disabled) draft.enabled)
        (profile_failure "skills cannot be both enabled and disabled")
    ok (resolved selected draft)
