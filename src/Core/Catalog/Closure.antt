-- ===== src/Core/Catalog/Closure.antt =====
-- `resolve_catalog_closure` of src/agent_stack/core/catalog.py, with `CatalogClosure` of
-- src/agent_stack/core/models.py. A set is a list without repetition, which the source sorts before it
-- reads it. The recursion of `add` has one level more than there are entries; the interpreter's own limit
-- on the depth of calls is left out.
pub mod Laws
pub mod Whole
pub mod Ends
use Prim.Native.String.{◌++◌ as append}
use agent_workflow_pack.Canonical.{distinct}
use agent_workflow_pack.Core.Catalog.{Manifests, catalog_failure, parse_manifests}
use agent_workflow_pack.Core.Catalog.Capabilities.{evaluate_capabilities}
use agent_workflow_pack.Core.Catalog.Entries.{
  CatalogEntry, Entries, entry_is_supported, entry_names, parse_catalog,
}
use agent_workflow_pack.Core.Catalog.Order.{stable_topological_order}
use agent_workflow_pack.Core.Profile.Resolve.{ResolvedProfile, sorted_items}
use agent_workflow_pack.Json.{Fields, entries, lookup}
use agent_workflow_pack.Platform.{Platform}
use agent_workflow_pack.Prelude.{
  Bool, List, String, [], any, false, if◌then◌else◌, keep, length, map, mem, none, not, some,
  sorted_texts, suc, true, zero, ℕ, ◌&&◌, ◌++◌, ◌∷◌,
}
use agent_workflow_pack.Result.{Result, err, ok, out_of_fuel, present, reject, require, ◌>>=◌, ◌>>◌}

pub record CatalogClosure : Type 0 where
  pub ordered_ids : List String
  pub reference_ids : List String
  pub discoverable_ids : List String
  pub entries : Entries

-- The variables that `add` changes.
pub record Picked : Type 0 where
  pub selected : List String
  pub references : List String

-- `reference_ids.add(entry_id)`, where the entry is reached by a reference.
abbrev pub refer : Bool → String → Picked → Picked
refer via id p =
    if via && not (mem id p.references)
    then record p { references = p.references ++ id ∷ [] }
    else p

-- `selected.add(entry_id)`, and the reference.
abbrev pub pick : Bool → String → Picked → Picked
pick via id p = refer via id (record p { selected = p.selected ++ id ∷ [] })

-- A loop that calls `add` for each identity.
abbrev pub add_each : (String → Picked → Result Picked) → List String → Picked → Result Picked
add_each add [] p = ok p
add_each add (id ∷ ids) p = add id p >>= λ q. add_each add ids q

module _ (entries : Entries) (disabled : List String) (platforms : List String)
    (by_platform : Manifests) where
  -- The entry that is added: not disabled, there, and supported.
  unfoldable pub admit : String → Result CatalogEntry
  admit id = do
    reject (mem id disabled) (catalog_failure "disabled entry cannot enter closure")
    entry ← present (lookup entries id) (catalog_failure "catalog dependency/reference is missing")
    require (entry_is_supported entry platforms by_platform)
        (catalog_failure "catalog entry is platform/capability incompatible")
    ok entry

  -- `add`
  unfoldable pub add_entry : ℕ → Bool → String → Picked → Result Picked
  add_entry zero via id p = err out_of_fuel
  add_entry (suc n) via id p = elim (mem id p.selected) [
    | true ↦ ok (refer via id p)
    | false ↦ admit id >>= λ entry.
        add_each (add_entry n false) entry.dependencies (pick via id p) >>= λ q.
        add_each (add_entry n true) entry.references q
  ]

  -- The loop over the seeds.
  unfoldable pub add_seeds : List String → Result Picked
  add_seeds seeds =
      add_each (add_entry (suc (length entries)) false) seeds
        (record { selected = []; references = [] })

abbrev pub mandatory_of : Entries → List String
mandatory_of entries =
    map (λ (e : String × CatalogEntry). e.0)
      (keep (λ (e : String × CatalogEntry). e.1.mandatory) entries)

-- `f"platform:{platform}"`, where it is an entry
abbrev pub platform_seeds : Entries → List String → List String
platform_seeds entries platforms =
    keep (λ id. mem id (entry_names entries)) (map (append "platform:") platforms)

-- `sorted(seeds)`
abbrev pub seeds_of : ResolvedProfile → Entries → List String
seeds_of profile entries = sorted_texts (
    distinct (
      profile.skills_enable
      ++ (mandatory_of entries ++ platform_seeds entries profile.default_platforms)))

abbrev pub conflicts_of : Entries → String → List String
conflicts_of entries id = elim (lookup entries id) [ none ↦ [] | some e ↦ e.conflicts ]

-- The loop over the selected entries.
unfoldable pub check_conflicts : Entries → List String → List String → Result (Unit {0})
check_conflicts entries selected [] = ok tt
check_conflicts entries selected (id ∷ ids) =
    reject (any (λ c. mem c selected) (conflicts_of entries id))
      (catalog_failure "catalog conflict in complete closure")
    >> check_conflicts entries selected ids

abbrev pub is_discoverable : Entries → String → Bool
is_discoverable entries id = elim (lookup entries id) [ none ↦ false | some e ↦ e.discoverable ]

abbrev pub closure_of : Entries → Picked → List String → CatalogClosure
closure_of entries p ordered = record {
  ordered_ids = ordered;
  reference_ids = sorted_texts p.references;
  discoverable_ids = sorted_texts (keep (is_discoverable entries) p.selected);
  entries = sorted_items (keep (λ (e : String × CatalogEntry). mem e.0 p.selected) entries);
}

-- `resolve_catalog_closure`
unfoldable pub resolve_catalog_closure :
    Platform → ResolvedProfile → Fields → List Fields → Result CatalogClosure
resolve_catalog_closure py profile document manifests = do
  results ← evaluate_capabilities profile manifests
  by_platform ← parse_manifests manifests
  entries ← parse_catalog py document
  picked ←
      add_seeds entries profile.skills_disable profile.default_platforms by_platform
        (seeds_of profile entries)
  check_conflicts entries picked.selected (sorted_texts picked.selected)
  ordered ← stable_topological_order picked.selected entries
  ok (closure_of entries picked ordered)
