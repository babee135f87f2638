-- ===== src/Core/Profile.antt =====
-- src/agent_stack/core/profile.py: the sources of the profiles, and the chain of one by inheritance. The `details` of a
-- failure are left out.
pub mod Merge
pub mod Resolve
pub mod Chain
pub mod Laws
use agent_workflow_pack.Json.{
  Fields, Value, as_text, eq_value, get, is_null, keys, lookup, num, text,
}
use agent_workflow_pack.Prelude.{
  Bool, List, Option, String, [], false, length, map, mem, none, not, some, subset, suc, zero, ℕ,
  ◌++◌, ◌==◌, ◌||◌, ◌∷◌,
}
use agent_workflow_pack.Result.{
  Exn, Result, err, failure, map_result, ok, out_of_fuel, present, reject, require, ◌>>=◌, ◌>>◌,
}

-- `_profile_failure`
abbrev pub profile_failure : String → Exn
profile_failure message = failure "AWP_PROFILE_INVALID" message

abbrev pub profile_fields : List String
profile_fields =
    "schema_id" ∷ "schema_version" ∷ "id" ∷ "extends" ∷ "route_admission" ∷ "bindings" ∷ "skills"
    ∷ "artifact_policy" ∷ "default_platforms" ∷ "required_capabilities" ∷ "approval_policy"
    ∷ "provider_security_policy" ∷ []

-- A text that is not empty.
abbrev pub is_name : Value → Bool
is_name (text s) = not (s == "")
is_name _ = false

-- `_validate_source`: the identity of the profile.
unfoldable pub validate_source : Fields → Result String
validate_source source = do
  require (subset (keys source) profile_fields) (profile_failure "unknown profile fields")
  require (eq_value (get source "schema_id") (text "agent-workflow.profile"))
      (profile_failure "profile schema_id is invalid")
  require (eq_value (get source "schema_version") (num 1))
      (profile_failure "profile schema_version is unsupported")
  require (is_name (get source "id")) (profile_failure "profile id is invalid")
  require (is_null (get source "extends") || is_name (get source "extends"))
      (profile_failure "profile extends must be a profile id")
  present (as_text (get source "id")) (profile_failure "profile id is invalid")

abbrev pub Sources : Type 0
Sources = List (String × Fields)

abbrev pub source_ids : Sources → List String
source_ids sources = map (λ (s : String × Fields). s.0) sources

-- The loop over the sources, with those so far.
unfoldable pub collect_sources : Sources → List Fields → Result Sources
collect_sources sources [] = ok sources
collect_sources sources (source ∷ rest) = do
  profile_id ← validate_source source
  reject (mem profile_id (source_ids sources)) (profile_failure "duplicate profile id")
  collect_sources (sources ++ (profile_id, source) ∷ []) rest

-- The loop `while current_id is not None`, from the profile to its root. One round more than there are
-- sources is enough (`Chain`).
unfoldable pub chain_from : ℕ → Sources → List String → Option String → Result (List Fields)
chain_from n sources visiting none = ok []
chain_from zero sources visiting (some id) = err out_of_fuel
chain_from (suc n) sources visiting (some id) =
    let rest = chain_from n sources (id ∷ visiting) in
    do
      reject (mem id visiting) (profile_failure "profile inheritance cycle")
      current ← present (lookup sources id) (profile_failure "profile parent does not exist")
      map_result (λ chain. current ∷ chain) (rest (as_text (get current "extends")))

abbrev pub profile_chain : Sources → String → Result (List Fields)
profile_chain sources id = chain_from (suc (length sources)) sources [] (some id)
