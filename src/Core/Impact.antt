-- ===== src/Core/Impact.antt =====
-- src/agent_stack/core/impact.py: the authorities and surfaces that a candidate changes. The `details` of
-- the failures are left out. A mapping of digests is an association list, whose first entry counts.
use Prim.Native.String.{◌++◌ as append}
pub mod Changes
pub mod Repair
pub mod Outcome
pub mod Reach
use agent_workflow_pack.Canonical.{canonical_null, digest, distinct}
use agent_workflow_pack.Canonical.Chars.{strip}
use agent_workflow_pack.Ident.{is_sha256}
use agent_workflow_pack.Json.{
  Fields, Value, arr, as_arr, as_obj, end, entries, field, find, get, is_unhashable, keys, list,
  lookup, nil, num, obj, text,
}
use agent_workflow_pack.Platform.{Platform}
use agent_workflow_pack.Prelude.{
  Bool, List, String, [], all, any, if◌then◌else◌, is_empty, keep, keep_if, map, mem, no_repeat,
  none, not, same_set, some, sorted_texts, subset, ◌&&◌, ◌++◌, ◌==◌, ◌||◌, ◌∷◌,
}
use agent_workflow_pack.Result.{
  Exn, Result, err, failure, map_result, ok, present, reject, require, traverse, type_error, ◌>>=◌,
  ◌>>◌,
}
use agent_workflow_pack.Route.Signals.{nonempty_texts}

abbrev pub Digests : Type 0
Digests = List (String × String)

abbrev pub authority_ids : List String
authority_ids =
    "artifact-bundle" ∷ "profile" ∷ "release-identity" ∷ "route-policy" ∷ "router-contract"
    ∷ "surface-registry" ∷ "trellis-layout" ∷ "workflow-lock" ∷ []

abbrev pub candidate_operations : List String
candidate_operations = "init" ∷ "sync" ∷ "repair" ∷ "upgrade" ∷ []

pub record AuthorityChange : Type 0 where
  pub authority_id : String
  pub before_digest : String
  pub after_digest : String

pub record SurfaceChange : Type 0 where
  pub surface_id : String
  pub change_kind : String
  pub contract_before_digest : String
  pub observed_before_digest : String
  pub after_digest : String

pub record CandidateImpact : Type 0 where
  pub impact_kind : String
  pub authority_changes : List AuthorityChange
  pub surface_changes : List SurfaceChange
  pub contract_changing : Bool
  pub candidate_impact_digest : String

abbrev pub authority_document : AuthorityChange → Value
authority_document change = obj (
    field "authority_id" (text change.authority_id) (
      field "before_digest" (text change.before_digest)
        (field "after_digest" (text change.after_digest) end)))

abbrev pub surface_document : SurfaceChange → Value
surface_document change = obj (
    field "surface_id" (text change.surface_id) (
      field "change_kind" (text change.change_kind) (
        field "contract_before_digest" (text change.contract_before_digest) (
          field "observed_before_digest" (text change.observed_before_digest)
            (field "after_digest" (text change.after_digest) end)))))

abbrev pub impact_failure : String → Exn
impact_failure message = failure "AWP_CANDIDATE_IMPACT_INVALID" message

abbrev pub coverage_failure : String → Exn
coverage_failure message = failure "AWP_SURFACE_COVERAGE_INVALID" message

abbrev pub mapping : Value → String → Result Fields
mapping value label =
    present (as_obj value) (impact_failure (append label " must be a string-keyed object"))

unfoldable pub digest_value : Value → String → Result String
digest_value (text s) label =
    if s == canonical_null || is_sha256 s
    then ok s
    else err (impact_failure (append label " must be lowercase SHA-256 or canonical-null"))
digest_value _ label =
    err (impact_failure (append label " must be lowercase SHA-256 or canonical-null"))

abbrev pub digest_entry : String → String × Value → Result (String × String)
digest_entry label (k, v) = map_result (λ d. (k, d)) (digest_value v (append label (append "." k)))

unfoldable pub authority_map : Value → String → Result Digests
authority_map value label = do
  raw ← mapping value label
  require (subset (keys raw) authority_ids) (impact_failure "authority vector contains unknown ids")
  traverse (digest_entry label) (entries raw)

abbrev pub surface_entry : String → String × Value → Result (String × String)
surface_entry label (k, v) = do
  reject (k == "" || not (k == strip k))
      (impact_failure (append label " contains an invalid surface id"))
  digest_entry label (k, v)

unfoldable pub surface_map : Value → String → Result Digests
surface_map value label = do raw ← mapping value label; traverse (surface_entry label) (entries raw)

unfoldable pub string_set : Value → String → Result (List String)
string_set value label = do
  items ← present (as_arr value) (impact_failure (append label " must be a string array"))
  ss ←
      present (nonempty_texts items)
        (impact_failure (append label " must contain nonempty strings"))
  require (no_repeat (sorted_texts ss)) (impact_failure (append label " contains duplicates"))
  ok (sorted_texts ss)

unfoldable pub value_at : Digests → String → String
value_at values identity = elim (lookup values identity) [ none ↦ canonical_null | some d ↦ d ]

-- The loop of `_authority_changes`, over the identities that are left.
unfoldable pub authority_changes_from : Digests → Digests → List String → List AuthorityChange
authority_changes_from current candidate [] = []
authority_changes_from current candidate (authority_id ∷ ids) =
    let before = value_at current authority_id in
    let after = value_at candidate authority_id in
    keep_if (not (before == after))
      (record { authority_id = authority_id; before_digest = before; after_digest = after })
      (authority_changes_from current candidate ids)

unfoldable pub authority_changes : Digests → Digests → List AuthorityChange
authority_changes current candidate = authority_changes_from current candidate authority_ids

abbrev pub names : Digests → List String
names m = map (λ (e : String × String). e.0) m

-- The loop of `_contract_changes`, over the surfaces that are left.
unfoldable pub contract_changes_from :
    Digests → Digests → Digests → List String → Result (List SurfaceChange)
contract_changes_from current observed candidate [] = ok []
contract_changes_from current observed candidate (surface_id ∷ ids) =
    let rest = contract_changes_from current observed candidate ids in
    let before = value_at current surface_id in
    let observed_before = value_at observed surface_id in
    let after = value_at candidate surface_id in
    do
      require (observed_before == before)
          (impact_failure "ordinary candidate impact cannot absorb observed runtime drift")
      map_result
          (keep_if (not (after == before)) (record {
            surface_id = surface_id;
            change_kind = "contract-change";
            contract_before_digest = before;
            observed_before_digest = observed_before;
            after_digest = after;
          }))
          rest

unfoldable pub contract_changes : Digests → Digests → Digests → Result (List SurfaceChange)
contract_changes current observed candidate =
    contract_changes_from current observed candidate
      (sorted_texts (distinct (names current ++ names candidate ++ names observed)))

-- `current == candidate` for dictionaries
unfoldable pub same_digests : Digests → Digests → Bool
same_digests a b = same_set (names a) (names b) && all (λ k. value_at a k == value_at b k) (names a)

abbrev pub repaired : Digests → Digests → Digests → String → SurfaceChange
repaired current observed candidate surface_id = record {
  surface_id = surface_id;
  change_kind = "repair";
  contract_before_digest = value_at current surface_id;
  observed_before_digest = value_at observed surface_id;
  after_digest = value_at candidate surface_id;
}

-- The surfaces whose observed digest is not the contract's.
unfoldable pub drifted : Digests → Digests → List String
drifted current observed =
    keep (λ k. not (value_at observed k == value_at current k))
      (distinct (names current ++ names observed))

unfoldable pub repair_changes :
    Digests → Digests → Digests → List String → Result (List SurfaceChange)
repair_changes current observed candidate selected = do
  require (same_digests current candidate)
      (impact_failure "repair must preserve the complete surface contract")
  reject (is_empty selected)
      (impact_failure "repair requires an explicit nonempty surface selection")
  require (subset selected (names current))
      (impact_failure "repair selects an unknown contract surface")
  require (same_set (drifted current observed) selected)
      (impact_failure "repair selection must exactly cover observed runtime drift")
  ok (map (repaired current observed candidate) selected)

unfoldable pub impact_projection : String → List AuthorityChange → List SurfaceChange → Value
impact_projection impact_kind authorities surfaces = obj (
    field "schema_id" (text "agent-workflow.candidate-impact") (
      field "schema_version" (num 1) (
        field "impact_kind" (text impact_kind) (
          field "authority_changes" (list (map authority_document authorities))
            (field "surface_changes" (list (map surface_document surfaces)) end)))))

-- `CandidateImpact.to_document`
unfoldable pub impact_document : CandidateImpact → Value
impact_document impact = obj (
    field "schema_id" (text "agent-workflow.candidate-impact") (
      field "schema_version" (num 1) (
        field "impact_kind" (text impact.impact_kind) (
          field "authority_changes" (list (map authority_document impact.authority_changes)) (
            field "surface_changes" (list (map surface_document impact.surface_changes))
              (field "candidate_impact_digest" (text impact.candidate_impact_digest) end))))))

-- `d.get(k, [])`
abbrev pub get_array : Fields → String → Value
get_array d k = elim (find d k) [ none ↦ arr nil | some v ↦ v ]

-- `operation not in _OPERATIONS`: a list or a dictionary cannot be hashed.
abbrev pub check_operation : Value → Result String
check_operation (text s) =
    if mem s candidate_operations
    then ok s
    else err (impact_failure "candidate operation is unsupported")
check_operation v =
    if is_unhashable v
    then err type_error
    else err (impact_failure "candidate operation is unsupported")

-- What the validated documents hold.
pub record ImpactInputs : Type 0 where
  pub operation : String
  pub current_authorities : Digests
  pub candidate_authorities : Digests
  pub current_surfaces : Digests
  pub observed_surfaces : Digests
  pub candidate_surfaces : Digests
  pub current_graph : String
  pub candidate_graph : String

-- The first half of `compute_candidate_impact`: its checks, in their order.
unfoldable pub impact_inputs : Fields → Fields → Fields → Result ImpactInputs
impact_inputs current_contract observed_state candidate_ir = do
  operation ← check_operation (get candidate_ir "operation")
  current_authorities ←
      authority_map (get current_contract "authority_digests") "current_contract.authority_digests"
  candidate_authorities ←
      authority_map (get candidate_ir "authority_digests") "candidate_ir.authority_digests"
  current_surfaces ←
      surface_map (get current_contract "surface_digests") "current_contract.surface_digests"
  observed_surfaces ←
      surface_map (get observed_state "surface_digests") "observed_state.surface_digests"
  candidate_surfaces ←
      surface_map (get candidate_ir "surface_digests") "candidate_ir.surface_digests"
  unclassified ←
      string_set (get_array observed_state "unclassified_runtime_units")
        "observed_state.unclassified_runtime_units"
  require (is_empty unclassified)
      (coverage_failure "runtime-visible units are absent from the frozen surface inventory")
  current_graph ←
      digest_value (get current_contract "registry_graph_digest")
        "current_contract.registry_graph_digest"
  candidate_graph ←
      digest_value (get candidate_ir "registry_graph_digest") "candidate_ir.registry_graph_digest"
  ok (record {
    operation = operation;
    current_authorities = current_authorities;
    candidate_authorities = candidate_authorities;
    current_surfaces = current_surfaces;
    observed_surfaces = observed_surfaces;
    candidate_surfaces = candidate_surfaces;
    current_graph = current_graph;
    candidate_graph = candidate_graph;
  })

-- The branch on the operation.
unfoldable pub surface_changes_of :
    ImpactInputs → List AuthorityChange → Fields → Result (List SurfaceChange)
surface_changes_of i changes candidate_ir =
    if i.operation == "repair"
    then (do
      require (is_empty changes) (impact_failure "repair must preserve every authority digest")
      require (i.current_graph == i.candidate_graph)
          (impact_failure "repair must preserve the registry graph")
      selected ←
          string_set (get candidate_ir "repair_surface_ids") "candidate_ir.repair_surface_ids"
      repair_changes i.current_surfaces i.observed_surfaces i.candidate_surfaces selected)
    else (do
      selected ←
          string_set (get_array candidate_ir "repair_surface_ids") "candidate_ir.repair_surface_ids"
      require (is_empty selected)
          (impact_failure "non-repair operation may not select repair surfaces")
      contract_changes i.current_surfaces i.observed_surfaces i.candidate_surfaces)

abbrev pub changes_release : List AuthorityChange → Bool
changes_release changes =
    any (λ (c : AuthorityChange). c.authority_id == "release-identity") changes

unfoldable pub compute_candidate_impact :
    Platform → Fields → Fields → Fields → Result CandidateImpact
compute_candidate_impact py current_contract observed_state candidate_ir = do
  i ← impact_inputs current_contract observed_state candidate_ir
  let authorities = authority_changes i.current_authorities i.candidate_authorities
  surfaces ← surface_changes_of i authorities candidate_ir
  require (not (i.operation == "upgrade") || changes_release authorities)
      (impact_failure "upgrade must change release-identity")
  let impact_kind = if is_empty authorities && is_empty surfaces then "none" else "runtime-visible"
  candidate_impact_digest ←
      digest py "agent-workflow.candidate-impact.v1"
        (impact_projection impact_kind authorities surfaces)
  ok (record {
    impact_kind = impact_kind;
    authority_changes = authorities;
    surface_changes = surfaces;
    contract_changing =
        not (is_empty authorities)
        || any (λ (c : SurfaceChange). c.change_kind == "contract-change") surfaces;
    candidate_impact_digest = candidate_impact_digest;
  })
