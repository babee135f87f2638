-- ===== src/Core/Catalog/Entries.antt =====
-- The entries of the catalogue, `_parse_catalog` and `_entry_is_supported` of
-- src/agent_stack/core/catalog.py, with `CatalogEntry` of src/agent_stack/core/models.py.
pub mod Laws
use agent_workflow_pack.Canonical.{normalize_string_set}
use agent_workflow_pack.Canonical.Chars.{chars, of_chars, split}
use agent_workflow_pack.Core.Catalog.{Levels, Manifests, capability_mapping, catalog_failure, rank}
use agent_workflow_pack.Core.Catalog.Capabilities.{observed_level}
use agent_workflow_pack.Core.Catalog.Lock.{stable_identity}
use agent_workflow_pack.Core.Profile.Merge.{CapabilityLevel}
use agent_workflow_pack.Json.{
  Fields, Value, arr, as_arr, as_obj, as_texts, bool, end, entries, eq_value, find, get, keys, nil,
  num, obj, text,
}
use agent_workflow_pack.Platform.{Platform}
use agent_workflow_pack.Prelude.{
  Bool, List, Option, String, [], all, any, false, if◌then◌else◌, is_empty, keep, leb, map, mem,
  none, not, some, subset, true, ◌&&◌, ◌++◌, ◌==◌, ◌||◌, ◌∷◌,
}
use agent_workflow_pack.Result.{Result, err, ok, present, reject, require, ◌>>=◌, ◌>>◌}

pub record CatalogEntry : Type 0 where
  pub entry_id : String
  pub kind : String
  pub dependencies : List String
  pub conflicts : List String
  pub references : List String
  pub platforms : List String
  pub required_capabilities : Levels
  pub mandatory : Bool
  pub discoverable : Bool

abbrev pub Entries : Type 0
Entries = List (String × CatalogEntry)

abbrev pub catalog_fields : List String
catalog_fields = "schema_id" ∷ "schema_version" ∷ "entries" ∷ []

abbrev pub entry_fields : List String
entry_fields =
    "id" ∷ "kind" ∷ "dependencies" ∷ "conflicts" ∷ "references" ∷ "platforms"
    ∷ "required_capabilities" ∷ "mandatory" ∷ "discoverable" ∷ []

-- `d.get(k, default)`
abbrev pub get_or : Fields → String → Value → Value
get_or d k default = elim (find d k) [ none ↦ default | some v ↦ v ]

-- `entry_id.split(":", 1)[0]`
abbrev pub kind_of : String → String
kind_of id = elim (split ":" (chars id)) [ [] ↦ "" | first ∷ rest ↦ of_chars first ]

abbrev pub entry_names : Entries → List String
entry_names entries = map (λ (e : String × CatalogEntry). e.0) entries

abbrev pub as_bool : Value → Option Bool
as_bool (bool b) = some b
as_bool _ = none

-- The kind of an entry, which its identity names too.
abbrev pub entry_kind : String → Value → Result String
entry_kind id (text kind) =
    if kind_of id == kind
    then ok kind
    else err (catalog_failure "catalog entry kind disagrees with its id")
entry_kind id _ = err (catalog_failure "catalog entry kind disagrees with its id")

module _ (py : Platform) where
  -- `_string_array`
  abbrev pub catalog_strings : Value → Result (List String)
  catalog_strings v = do
    items ← present (as_arr v) (catalog_failure "catalog field must be a string array")
    ss ← present (as_texts items) (catalog_failure "catalog field must be a string array")
    ok (normalize_string_set py ss)

  -- One entry, with those so far.
  unfoldable pub catalog_entry : Entries → Value → Result CatalogEntry
  catalog_entry entries value = do
    raw ← present (as_obj value) (catalog_failure "catalog entry must be an object")
    require (subset (keys raw) entry_fields) (catalog_failure "unknown catalog entry fields")
    entry_id ← stable_identity "catalog entry id is invalid" (get raw "id")
    kind ← entry_kind entry_id (get raw "kind")
    reject (mem entry_id (entry_names entries)) (catalog_failure "duplicate catalog entry id")
    mandatory ←
        present (as_bool (get_or raw "mandatory" (bool false)))
          (catalog_failure "catalog entry flags must be booleans")
    discoverable ←
        present (as_bool (get_or raw "discoverable" (bool true)))
          (catalog_failure "catalog entry flags must be booleans")
    dependencies ← catalog_strings (get_or raw "dependencies" (arr nil))
    conflicts ← catalog_strings (get_or raw "conflicts" (arr nil))
    references ← catalog_strings (get_or raw "references" (arr nil))
    platforms ← catalog_strings (get_or raw "platforms" (arr nil))
    required ← capability_mapping (get_or raw "required_capabilities" (obj end))
    ok (record {
      entry_id = entry_id;
      kind = kind;
      dependencies = dependencies;
      conflicts = conflicts;
      references = references;
      platforms = platforms;
      required_capabilities = required;
      mandatory = mandatory;
      discoverable = discoverable;
    })

  -- The loop over the entries.
  unfoldable pub entries_from : Entries → List Value → Result Entries
  entries_from entries [] = ok entries
  entries_from entries (value ∷ rest) = do
    entry ← catalog_entry entries value
    entries_from (entries ++ (entry.entry_id, entry) ∷ []) rest

  -- `_parse_catalog`
  unfoldable pub parse_catalog : Fields → Result Entries
  parse_catalog document = do
    require (subset (keys document) catalog_fields) (catalog_failure "unknown catalog fields")
    require
        (eq_value (get document "schema_id") (text "agent-workflow.catalog")
          && eq_value (get document "schema_version") (num 1))
        (catalog_failure "catalog schema identity/version is invalid")
    raw ←
        present (as_arr (get document "entries"))
          (catalog_failure "catalog entries must be an array")
    entries_from [] raw

-- `all(...)` over the capabilities that an entry requires, on one platform.
abbrev pub platform_meets : Manifests → Levels → String → Bool
platform_meets by_platform required platform =
    all
      (λ (c : String × CapabilityLevel).
        leb (rank c.1) (rank (observed_level by_platform platform c.0)))
      required

abbrev pub candidate_platforms : CatalogEntry → List String → List String
candidate_platforms entry selected =
    keep (λ platform. is_empty entry.platforms || mem platform entry.platforms) selected

-- `_entry_is_supported`
unfoldable pub entry_is_supported : CatalogEntry → List String → Manifests → Bool
entry_is_supported entry selected by_platform =
    if not (is_empty entry.platforms) && is_empty (candidate_platforms entry selected)
    then false
    else if is_empty entry.required_capabilities
    then true
    else any (platform_meets by_platform entry.required_capabilities)
        (candidate_platforms entry selected)
