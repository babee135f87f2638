-- ===== src/Tests/Catalog.antt =====
-- Runs of core/catalog.py.
use agent_workflow_pack.Core.Catalog.{
  Manifests, capability_mapping, manifests_from, parse_levels, parse_manifests,
}
use agent_workflow_pack.Core.Catalog.Capabilities.{
  CapabilityResult, compare_levels, evaluate_capabilities,
}
use agent_workflow_pack.Core.Catalog.Capabilities.Laws.{evaluate_capabilities-enforced, meets}
use agent_workflow_pack.Core.Catalog.Lock.{
  WorkflowLock, component_of, components_from, is_stable_id, normalize_workflow_lock,
}
use agent_workflow_pack.Core.Catalog.Lock.Laws.{by_name, is_exact, normalize_workflow_lock-is_exact}
use agent_workflow_pack.Core.Profile.Merge.{empty_draft, instruction_only}
use agent_workflow_pack.Core.Profile.Resolve.{ResolvedProfile, resolved}
use agent_workflow_pack.Ident.{is_sha256}
use agent_workflow_pack.Json.{Fields, Value, end, eq_value, eq_ℤ, field, list, num, obj, text}
use agent_workflow_pack.Prelude.{List, String, [], all, is_empty, not, refl, true, ◌||◌, ◌∷◌, ◌≡◌}
use agent_workflow_pack.Prelude.Sort.{IsAscending, insert, sorted}
use agent_workflow_pack.Result.{ok}
use agent_workflow_pack.Tests.Samples.{sample_digest, value_of}

abbrev manifest : Fields
manifest = field "schema_id" (text "agent-workflow.capability-manifest") (
    field "schema_version" (num 1) (
      field "platform" (text "codex") (
        field "evidence_digest" (text sample_digest)
          (field "capabilities" (obj (field "hooks" (text "enforced") end)) end))))

abbrev needs : ResolvedProfile
needs = record (resolved "child" empty_draft) {
  default_platforms = "codex" ∷ [];
  required_capabilities = ("hooks", instruction_only) ∷ [];
}

unfoldable manifests : Manifests
manifests = value_of [] (parse_manifests (manifest ∷ []))

manifests_run : parse_manifests (manifest ∷ []) ≡ ok manifests
unfolding manifests manifests_from capability_mapping parse_levels sorted insert is_sha256 eq_value
    eq_ℤ
manifests_run = refl

unfoldable results : List CapabilityResult
results = value_of [] (evaluate_capabilities needs (manifest ∷ []))

results_run : evaluate_capabilities needs (manifest ∷ []) ≡ ok results
unfolding results evaluate_capabilities compare_levels manifests_from capability_mapping
    parse_levels sorted insert is_sha256 eq_value eq_ℤ
results_run = refl

evaluate_capabilities-enforced_example :
    (all (meets manifests needs.default_platforms) needs.required_capabilities ≡ true)
    × ((is_empty needs.required_capabilities || not (is_empty needs.default_platforms)) ≡ true)
evaluate_capabilities-enforced_example =
    evaluate_capabilities-enforced needs (manifest ∷ []) results manifests results_run manifests_run

abbrev component : String → Value
component id = obj (
    field "id" (text id) (
      field "version" (text "1") (
        field "source_sha256" (text sample_digest) (
          field "content_digest" (text sample_digest)
            (field "provider_id" (text "p") (field "acquisition_id" (text "a") end))))))

abbrev lock_document : Fields
lock_document = field "schema_id" (text "agent-workflow.workflow-lock") (
    field "schema_version" (num 1)
      (field "components" (list (component "skill:b" ∷ component "skill:a" ∷ [])) end))

unfoldable lock : WorkflowLock
lock =
    value_of (record { schema_version = 0; components = [] })
      (normalize_workflow_lock lock_document)

lock_run : normalize_workflow_lock lock_document ≡ ok lock
unfolding lock normalize_workflow_lock components_from component_of is_stable_id is_sha256 sorted
    insert eq_value eq_ℤ
lock_run = refl

normalize_workflow_lock-is_exact_example :
    (all is_exact lock.components ≡ true) × IsAscending by_name lock.components
normalize_workflow_lock-is_exact_example =
    normalize_workflow_lock-is_exact lock_document lock lock_run
