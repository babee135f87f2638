-- ===== src/Core/Catalog.antt =====
-- src/agent_stack/core/catalog.py: the levels of capabilities and the manifests of the platforms; the modules
-- below it have the rest. The `details` of a failure are left out.
pub mod Capabilities
pub mod Lock
pub mod Entries
pub mod Order
pub mod Closure
use Prim.Native.Char.{code}
use agent_workflow_pack.Core.Profile.{is_name}
use agent_workflow_pack.Core.Profile.Merge.{
  CapabilityLevel, assign, enforced, instruction_only, parse_level, unsupported,
}
use agent_workflow_pack.Core.Profile.Resolve.{sorted_items}
use agent_workflow_pack.Ident.{is_sha256}
use agent_workflow_pack.Json.{
  Fields, Value, as_obj, as_text, entries, eq_value, get, keys, num, text,
}
use agent_workflow_pack.Prelude.{Bool, List, String, [], false, map, mem, subset, ℕ, ◌++◌, ◌∷◌}
use agent_workflow_pack.Result.{
  Exn, Result, catching, err, failure, map_result, ok, present, reject, require, ◌>>=◌, ◌>>◌,
}

-- `_catalog_failure`
abbrev pub catalog_failure : String → Exn
catalog_failure message = failure "AWP_CATALOG_CLOSURE_BLOCKED" message

-- `_capability_failure`
abbrev pub capability_failure : String → Exn
capability_failure message = failure "AWP_CAPABILITY_INSUFFICIENT" message

-- `CapabilityLevel.rank`
abbrev pub rank : CapabilityLevel → ℕ
rank unsupported = 0
rank instruction_only = 1
rank enforced = 2

abbrev pub Levels : Type 0
Levels = List (String × CapabilityLevel)

-- The loop of `_capability_mapping`.
unfoldable pub parse_levels : List (String × Value) → Levels → Result Levels
parse_levels [] levels = ok levels
parse_levels ((id, raw) ∷ rest) levels = do
  level ← catching (parse_level raw) (catalog_failure "invalid capability level")
  parse_levels rest (assign id level levels)

-- `_capability_mapping`
unfoldable pub capability_mapping : Value → Result Levels
capability_mapping v = do
  raw ← present (as_obj v) (catalog_failure "capability field must be an object")
  map_result sorted_items (parse_levels (entries raw) [])

abbrev pub manifest_fields : List String
manifest_fields =
    "schema_id" ∷ "schema_version" ∷ "platform" ∷ "adapter_id" ∷ "adapter_version" ∷ "harness_id"
    ∷ "harness_version" ∷ "probe_suite_id" ∷ "probe_suite_version" ∷ "capabilities"
    ∷ "approval_verifiers" ∷ "evidence_digest" ∷ []

-- `except CoreFailure as error: raise _capability_failure(error.message)`
abbrev pub recoded : {A : Type 0} → Result A → Result A
recoded (ok a) = ok a
recoded (err (failure code message)) = err (capability_failure message)
recoded (err e) = err e

abbrev pub Manifests : Type 0
Manifests = List (String × Levels)

abbrev pub platforms_of : Manifests → List String
platforms_of manifests = map (λ (m : String × Levels). m.0) manifests

abbrev pub is_digest : Value → Bool
is_digest (text s) = is_sha256 s
is_digest _ = false

-- The loop of `_parse_manifests`, with the manifests so far.
unfoldable pub manifests_from : Manifests → List Fields → Result Manifests
manifests_from result [] = ok result
manifests_from result (manifest ∷ rest) = do
  require (subset (keys manifest) manifest_fields)
      (capability_failure "unknown CapabilityManifest fields")
  require (eq_value (get manifest "schema_id") (text "agent-workflow.capability-manifest"))
      (capability_failure "CapabilityManifest schema_id is invalid")
  require (eq_value (get manifest "schema_version") (num 1))
      (capability_failure "CapabilityManifest schema_version is unsupported")
  require (is_name (get manifest "platform"))
      (capability_failure "CapabilityManifest platform is invalid")
  platform ←
      present (as_text (get manifest "platform"))
        (capability_failure "CapabilityManifest platform is invalid")
  reject (mem platform (platforms_of result))
      (capability_failure "duplicate CapabilityManifest platform")
  require (is_digest (get manifest "evidence_digest"))
      (capability_failure "CapabilityManifest evidence digest is invalid")
  levels ← recoded (capability_mapping (get manifest "capabilities"))
  manifests_from (result ++ (platform, levels) ∷ []) rest

-- `_parse_manifests`
abbrev pub parse_manifests : List Fields → Result Manifests
parse_manifests manifests = manifests_from [] manifests
