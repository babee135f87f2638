-- ===== src/Core/Catalog/Order.antt =====
-- `_stable_topological_order` of src/agent_stack/core/catalog.py. The heap is an ascending list.
pub mod Ends
use agent_workflow_pack.Canonical.{distinct}
use agent_workflow_pack.Core.Catalog.{catalog_failure}
use agent_workflow_pack.Core.Catalog.Entries.{CatalogEntry, Entries}
use agent_workflow_pack.Core.Profile.Merge.{assign}
use agent_workflow_pack.Json.{entries, lookup}
use agent_workflow_pack.Prelude.{
  List, String, [], eqb, if◌then◌else◌, keep, leb_text, length, map, mem, none, some, sorted_texts,
  subset, suc, zero, ℕ, ◌++◌, ◌-◌, ◌∷◌,
}
use agent_workflow_pack.Prelude.Sort.{insert}
use agent_workflow_pack.Result.{Result, err, ok, out_of_fuel, require, ◌>>=◌, ◌>>◌}

abbrev pub Counts : Type 0
Counts = List (String × ℕ)

-- `set(entry.dependencies) | set(entry.references)`
abbrev pub prerequisites : CatalogEntry → List String
prerequisites entry = distinct (entry.dependencies ++ entry.references)

abbrev pub prerequisites_of : Entries → String → List String
prerequisites_of entries id = elim (lookup entries id) [ none ↦ [] | some e ↦ prerequisites e ]

-- `sorted(consumers[entry_id])`
abbrev pub consumers_of : Entries → List String → String → List String
consumers_of entries selected id =
    sorted_texts (keep (λ e. mem id (prerequisites_of entries e)) selected)

-- `indegree`, as it is after the first loop
abbrev pub indegrees : Entries → List String → Counts
indegrees entries selected =
    map (λ (id : String). (id, length (prerequisites_of entries id))) selected

abbrev pub count_of : Counts → String → ℕ
count_of counts id = elim (lookup counts id) [ none ↦ 0 | some n ↦ n ]

-- The first loop: every prerequisite is selected.
unfoldable pub check_prerequisites : Entries → List String → List String → Result (Unit {0})
check_prerequisites entries selected [] = ok tt
check_prerequisites entries selected (id ∷ ids) =
    require (subset (prerequisites_of entries id) selected)
      (catalog_failure "closure prerequisite was not selected")
    >> check_prerequisites entries selected ids

-- The loop over the consumers. A lowered count is 0 where it was 1; one that was 0 would be below it.
abbrev pub lower : List String → Counts → List String → Counts × List String
lower [] counts ready = (counts, ready)
lower (c ∷ cs) counts ready =
    let count = count_of counts c in
    lower cs (assign c (count - 1) counts) (if eqb count 1 then insert leb_text c ready else ready)

-- The loop over `ready`, with one round more than there are entries.
unfoldable pub drain :
    Entries → List String → ℕ → Counts → List String → List String → Result (List String)
drain entries selected zero counts ready ordered = err out_of_fuel
drain entries selected (suc n) counts [] ordered = ok ordered
drain entries selected (suc n) counts (id ∷ ready) ordered =
    let after = lower (consumers_of entries selected id) counts ready in
    drain entries selected n after.0 after.1 (ordered ++ id ∷ [])

abbrev pub none_left : Counts → List String
none_left counts = map (λ (c : String × ℕ). c.0) (keep (λ (c : String × ℕ). eqb c.1 0) counts)

-- `_stable_topological_order`
unfoldable pub stable_topological_order : List String → Entries → Result (List String)
stable_topological_order selected entries = do
  check_prerequisites entries selected selected
  let counts = indegrees entries selected
  ordered ←
      drain entries selected (suc (length selected)) counts (sorted_texts (none_left counts)) []
  require (eqb (length ordered) (length selected))
      (catalog_failure "catalog dependency/reference cycle")
  ok ordered
