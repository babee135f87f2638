-- ===== src/Core/Profile/Merge.antt =====
-- What one source of a chain adds in `resolve_profile` of src/agent_stack/core/profile.py, and
-- `CapabilityLevel` of src/agent_stack/core/models.py.
use agent_workflow_pack.Canonical.{normalize_string_set}
use agent_workflow_pack.Core.Profile.{profile_failure}
use agent_workflow_pack.Json.{
  Fields, Value, arr, as_arr, as_obj, as_texts, end, entries, find, is_text, keys, lookup, nil,
  text, update,
}
use agent_workflow_pack.Platform.{Platform}
use agent_workflow_pack.Prelude.{
  List, Option, String, [], all, if◌then◌else◌, none, some, subset, ◌++◌, ◌==◌, ◌∷◌,
}
use agent_workflow_pack.Result.{
  Result, catching, err, map_result, ok, present, require, value_error, ◌>>=◌, ◌>>◌,
}

pub data CapabilityLevel : Type 0 where
  unsupported instruction_only enforced : CapabilityLevel

-- `CapabilityLevel.parse`
abbrev pub parse_level : Value → Result CapabilityLevel
parse_level (text s) =
    if s == "unsupported"
    then ok unsupported
    else if s == "instruction-only"
    then ok instruction_only
    else if s == "enforced"
    then ok enforced
    else err value_error
parse_level _ = err value_error

-- The variables of the loop over the chain.
pub record Draft : Type 0 where
  pub route_admission : Fields
  pub bindings : List (String × Fields)
  pub enabled : List String
  pub disabled : List String
  pub artifact_policy : String
  pub default_platforms : List String
  pub required_capabilities : List (String × CapabilityLevel)
  pub approval_policy : Fields
  pub provider_security_policy : Fields

abbrev pub empty_draft : Draft
empty_draft = record {
  route_admission = end;
  bindings = [];
  enabled = [];
  disabled = [];
  artifact_policy = "default";
  default_platforms = [];
  required_capabilities = [];
  approval_policy = end;
  provider_security_policy = end;
}

-- `_mapping`
abbrev pub profile_mapping : Value → Result Fields
profile_mapping v = present (as_obj v) (profile_failure "profile field must be an object")

-- `mapping[k] = v` of an association list
abbrev pub assign : {A : Type 0} → String → A → List (String × A) → List (String × A)
assign k a [] = (k, a) ∷ []
assign k a ((j, b) ∷ m) = if j == k then (j, a) ∷ m else (j, b) ∷ assign k a m

-- `bindings.setdefault(mode, {}).update(platforms)`
abbrev pub bind_mode : String → Fields → List (String × Fields) → List (String × Fields)
bind_mode mode platforms bindings = elim (lookup bindings mode) [
  | none ↦ assign mode (update end platforms) bindings
  | some old ↦ assign mode (update old platforms) bindings
]

-- The loop over the modes of a source.
unfoldable pub bind_modes :
    List (String × Value) → List (String × Fields) → Result (List (String × Fields))
bind_modes [] bindings = ok bindings
bind_modes ((mode, raw) ∷ rest) bindings = do
  platforms ← profile_mapping raw
  require (all (λ (e : String × Value). is_text e.1) (entries platforms))
      (profile_failure "binding values must be entry ids")
  bind_modes rest (bind_mode mode platforms bindings)

-- The loop over the capabilities of a source.
unfoldable pub require_levels :
    List (String × Value)
    → List (String × CapabilityLevel)
    → Result (List (String × CapabilityLevel))
require_levels [] levels = ok levels
require_levels ((id, raw) ∷ rest) levels = do
  level ← catching (parse_level raw) (profile_failure "invalid capability minimum")
  require_levels rest (assign id level levels)

-- `if k in source: ...`
abbrev pub when_there : {A : Type 0} → Option Value → A → (Value → Result A) → Result A
when_there none a f = ok a
when_there (some v) a f = f v

-- `artifact_policy`, where the source has one
abbrev pub policy_text : Value → Result String
policy_text (text s) =
    if s == "" then err (profile_failure "artifact_policy must be a stable id") else ok s
policy_text _ = err (profile_failure "artifact_policy must be a stable id")

-- `skills.get(k, [])`
abbrev pub skill_list : Option Value → Value
skill_list none = arr nil
skill_list (some v) = v

abbrev pub update_from : Fields → Value → Result Fields
update_from d v = map_result (λ e. update d e) (profile_mapping v)

module _ (py : Platform) where
  -- `_string_array`
  abbrev pub profile_strings : Value → Result (List String)
  profile_strings v = do
    items ← present (as_arr v) (profile_failure "profile field must be a string array")
    ss ← present (as_texts items) (profile_failure "profile field must be a string array")
    ok (normalize_string_set py ss)

  -- The skills of a source: what it enables and what it disables.
  unfoldable pub skills_of : Value → Result (List String × List String)
  skills_of v = do
    skills ← profile_mapping v
    require (subset (keys skills) ("enable" ∷ "disable" ∷ []))
        (profile_failure "unknown skills fields")
    enable ← profile_strings (skill_list (find skills "enable"))
    disable ← profile_strings (skill_list (find skills "disable"))
    ok (enable, disable)

  -- The body of the loop over the chain.
  unfoldable pub merge_source : Draft → Fields → Result Draft
  merge_source d source = do
    route_admission ←
        when_there (find source "route_admission") d.route_admission (update_from d.route_admission)
    bindings ←
        when_there (find source "bindings") d.bindings
          (λ v. profile_mapping v >>= λ modes. bind_modes (entries modes) d.bindings)
    skills ← when_there (find source "skills") ([], []) skills_of
    artifact_policy ← when_there (find source "artifact_policy") d.artifact_policy policy_text
    default_platforms ←
        when_there (find source "default_platforms") d.default_platforms profile_strings
    required_capabilities ←
        when_there (find source "required_capabilities") d.required_capabilities (λ v.
          profile_mapping v >>= λ levels. require_levels (entries levels) d.required_capabilities)
    approval_policy ←
        when_there (find source "approval_policy") d.approval_policy (update_from d.approval_policy)
    provider_security_policy ←
        when_there (find source "provider_security_policy") d.provider_security_policy
          (update_from d.provider_security_policy)
    ok (record {
      route_admission = route_admission;
      bindings = bindings;
      enabled = d.enabled ++ skills.0;
      disabled = d.disabled ++ skills.1;
      artifact_policy = artifact_policy;
      default_platforms = default_platforms;
      required_capabilities = required_capabilities;
      approval_policy = approval_policy;
      provider_security_policy = provider_security_policy;
    })

  -- The loop over the chain, from its root.
  unfoldable pub merge_sources : Draft → List Fields → Result Draft
  merge_sources d [] = ok d
  merge_sources d (source ∷ rest) = do merged ← merge_source d source; merge_sources merged rest
