-- ===== src/Core/Catalog/Lock.antt =====
-- `normalize_workflow_lock` of src/agent_stack/core/catalog.py.
pub mod Laws
use Prim.Native.Char.{Char, code}
use agent_workflow_pack.Canonical.Chars.{chars}
use agent_workflow_pack.Core.Catalog.{catalog_failure}
use agent_workflow_pack.Ident.{is_sha256}
use agent_workflow_pack.Json.{Fields, Value, as_arr, as_obj, eq_value, get, keys, num, text}
use agent_workflow_pack.Prelude.{
  Bool, List, String, [], all, eqb, false, if◌then◌else◌, leb, leb_text, map, mem, subset, ℕ, ◌&&◌,
  ◌++◌, ◌==◌, ◌||◌, ◌∷◌,
}
use agent_workflow_pack.Prelude.Sort.{sorted}
use agent_workflow_pack.Result.{Result, err, ok, present, reject, require, ◌>>=◌, ◌>>◌}

pub record WorkflowComponent : Type 0 where
  pub component_id : String
  pub version : String
  pub source_sha256 : String
  pub content_digest : String
  pub provider_id : String
  pub acquisition_id : String

pub record WorkflowLock : Type 0 where
  pub schema_version : ℕ
  pub components : List WorkflowComponent

abbrev pub is_lower : Char → Bool
is_lower c = leb b'a' (code c) && leb (code c) b'z'

abbrev pub is_lower_digit : Char → Bool
is_lower_digit c = is_lower c || leb b'0' (code c) && leb (code c) b'9'

abbrev pub is_dash : Char → Bool
is_dash c = eqb (code c) b'-'

-- The characters after the colon of a stable identity.
abbrev pub is_stable_name : List Char → Bool
is_stable_name [] = false
is_stable_name (c ∷ cs) =
    is_lower_digit c
    && all (λ d. is_lower_digit d || is_dash d || eqb (code d) b'.' || eqb (code d) b'_') cs

-- The characters after the first one of a stable identity.
abbrev pub is_stable_rest : List Char → Bool
is_stable_rest [] = false
is_stable_rest (c ∷ cs) =
    let rest = is_stable_rest cs in
    if eqb (code c) b':' then is_stable_name cs else (is_lower_digit c || is_dash c) && rest

abbrev pub is_stable : List Char → Bool
is_stable [] = false
is_stable (c ∷ cs) = is_lower c && is_stable_rest cs

-- `^[a-z][a-z0-9-]*:[a-z0-9][a-z0-9._-]*$`
unfoldable pub is_stable_id : String → Bool
is_stable_id s = is_stable (chars s)

abbrev pub lock_fields : List String
lock_fields = "schema_id" ∷ "schema_version" ∷ "components" ∷ []

abbrev pub component_fields : List String
component_fields =
    "id" ∷ "version" ∷ "source_sha256" ∷ "content_digest" ∷ "provider_id" ∷ "acquisition_id" ∷ []

-- `_required_string`
abbrev pub required_string : Fields → String → Result String
required_string d k = elim (get d k) [
  | text s ↦
      if s == ""
      then err (catalog_failure "workflow-lock component field must be a nonempty string")
      else ok s
  | _ ↦ err (catalog_failure "workflow-lock component field must be a nonempty string")
]

-- A stable identity, or the failure with the message.
abbrev pub stable_identity : String → Value → Result String
stable_identity message (text s) = if is_stable_id s then ok s else err (catalog_failure message)
stable_identity message _ = err (catalog_failure message)

abbrev pub component_names : List WorkflowComponent → List String
component_names components = map (λ (c : WorkflowComponent). c.component_id) components

-- One component, with those so far.
unfoldable pub component_of : List WorkflowComponent → Value → Result WorkflowComponent
component_of components value = do
  raw ← present (as_obj value) (catalog_failure "workflow-lock component must be an object")
  require (subset (keys raw) component_fields)
      (catalog_failure "unknown workflow-lock component fields")
  component_id ← stable_identity "workflow-lock component id is invalid" (get raw "id")
  reject (mem component_id (component_names components))
      (catalog_failure "duplicate workflow-lock component id")
  version ← required_string raw "version"
  source_sha256 ← required_string raw "source_sha256"
  content_digest ← required_string raw "content_digest"
  provider_id ← required_string raw "provider_id"
  acquisition_id ← required_string raw "acquisition_id"
  require (is_sha256 source_sha256 && is_sha256 content_digest)
      (catalog_failure "workflow-lock component hashes must be lowercase SHA-256")
  ok (record {
    component_id = component_id;
    version = version;
    source_sha256 = source_sha256;
    content_digest = content_digest;
    provider_id = provider_id;
    acquisition_id = acquisition_id;
  })

-- The loop over the components.
unfoldable pub components_from :
    List WorkflowComponent → List Value → Result (List WorkflowComponent)
components_from components [] = ok components
components_from components (value ∷ rest) = do
  component ← component_of components value
  components_from (components ++ component ∷ []) rest

unfoldable pub normalize_workflow_lock : Fields → Result WorkflowLock
normalize_workflow_lock document = do
  require (subset (keys document) lock_fields) (catalog_failure "unknown workflow-lock fields")
  require
      (eq_value (get document "schema_id") (text "agent-workflow.workflow-lock")
        && eq_value (get document "schema_version") (num 1))
      (catalog_failure "workflow-lock schema identity/version is invalid")
  raw ←
      present (as_arr (get document "components"))
        (catalog_failure "workflow-lock components must be an array")
  components ← components_from [] raw
  ok (record {
    schema_version = 1;
    components =
        sorted (λ (a b : WorkflowComponent). leb_text a.component_id b.component_id) components;
  })
