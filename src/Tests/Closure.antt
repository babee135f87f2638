-- ===== src/Tests/Closure.antt =====
-- Runs of `resolve_catalog_closure` of core/catalog.py.
use agent_workflow_pack.Canonical.{normalize_nfc, normalize_string_set}
use agent_workflow_pack.Canonical.Chars.{split}
use agent_workflow_pack.Core.Catalog.{
  capability_mapping, manifests_from, parse_levels, parse_manifests,
}
use agent_workflow_pack.Core.Catalog.Capabilities.{compare_levels, evaluate_capabilities}
use agent_workflow_pack.Core.Catalog.Closure.{
  CatalogClosure, add_entry, add_seeds, admit, check_conflicts, resolve_catalog_closure,
}
use agent_workflow_pack.Core.Catalog.Closure.Ends.{resolve_catalog_closure-Settles}
use agent_workflow_pack.Core.Catalog.Closure.Whole.{IsClosed, resolve_catalog_closure-IsClosed}
use agent_workflow_pack.Core.Catalog.Entries.{
  Entries, catalog_entry, entries_from, entry_is_supported, entry_names, parse_catalog,
}
use agent_workflow_pack.Core.Catalog.Lock.{is_stable_id}
use agent_workflow_pack.Core.Catalog.Order.{check_prerequisites, drain, stable_topological_order}
use agent_workflow_pack.Core.Catalog.Order.Ends.{Settles}
use agent_workflow_pack.Core.Profile.Merge.{empty_draft}
use agent_workflow_pack.Core.Profile.Resolve.{ResolvedProfile, resolved}
use agent_workflow_pack.Json.{Fields, Value, end, eq_value, eq_ℤ, field, list, num, obj, text}
use agent_workflow_pack.Prelude.{List, String, [], refl, ◌∷◌, ◌≡◌}
use agent_workflow_pack.Prelude.Sort.{insert, sorted}
use agent_workflow_pack.Result.{ok}
use agent_workflow_pack.Tests.Samples.{sample_py, value_of}

abbrev entry : String → List Value → Value
entry id dependencies = obj (
    field "id" (text id)
      (field "kind" (text "skill") (field "dependencies" (list dependencies) end)))

abbrev catalog : Fields
catalog = field "schema_id" (text "agent-workflow.catalog") (
    field "schema_version" (num 1) (
      field "entries" (list (entry "skill:b" (text "skill:c" ∷ []) ∷ entry "skill:c" [] ∷ [])) end))

abbrev enabling : ResolvedProfile
enabling = record (resolved "child" empty_draft) { skills_enable = "skill:b" ∷ [] }

unfoldable entries : Entries
entries = value_of [] (parse_catalog sample_py catalog)

entries_run : parse_catalog sample_py catalog ≡ ok entries
unfolding entries parse_catalog entries_from catalog_entry capability_mapping parse_levels sorted
    insert is_stable_id split normalize_string_set normalize_nfc eq_value eq_ℤ
entries_run = refl

manifests_run : parse_manifests [] ≡ ok []
unfolding manifests_from
manifests_run = refl

-- A prerequisite stands before what needs it.
abbrev closure : CatalogClosure
closure = record {
  ordered_ids = "skill:c" ∷ "skill:b" ∷ [];
  reference_ids = [];
  discoverable_ids = "skill:b" ∷ "skill:c" ∷ [];
  entries = entries;
}

closure_run : resolve_catalog_closure sample_py enabling catalog [] ≡ ok closure
unfolding resolve_catalog_closure entries parse_catalog entries_from catalog_entry
    capability_mapping parse_levels sorted insert is_stable_id split normalize_string_set
    normalize_nfc eq_value eq_ℤ evaluate_capabilities compare_levels manifests_from add_seeds
    add_entry admit entry_is_supported check_conflicts stable_topological_order check_prerequisites
    drain
closure_run = refl

resolve_catalog_closure-IsClosed_example :
    IsClosed enabling entries [] (entry_names closure.entries)
resolve_catalog_closure-IsClosed_example =
    resolve_catalog_closure-IsClosed sample_py enabling catalog [] closure entries [] entries_run
      manifests_run closure_run

results_run : evaluate_capabilities enabling [] ≡ ok []
unfolding evaluate_capabilities compare_levels manifests_from sorted
results_run = refl

resolve_catalog_closure-Settles_example :
    Settles (resolve_catalog_closure sample_py enabling catalog [])
resolve_catalog_closure-Settles_example =
    resolve_catalog_closure-Settles sample_py enabling catalog [] [] [] entries results_run
      manifests_run entries_run
