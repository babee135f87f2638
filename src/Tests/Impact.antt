-- ===== src/Tests/Impact.antt =====
-- Runs of core/impact.py.
use agent_workflow_pack.Canonical.{canonical_json, digest, normalize_json_value, normalize_nfc}
use agent_workflow_pack.Canonical.Chars.{strip}
use agent_workflow_pack.Core.Impact.{
  CandidateImpact, Digests, ImpactInputs, SurfaceChange, authority_changes, authority_changes_from,
  authority_map, compute_candidate_impact, contract_changes, contract_changes_from, digest_value,
  drifted, impact_inputs, impact_projection, repair_changes, repaired, same_digests, string_set,
  surface_changes_of, surface_map, value_at,
}
use agent_workflow_pack.Core.Impact.Changes.{apply_authorities, apply_surfaces}
use agent_workflow_pack.Core.Impact.Reach.{
  compute_candidate_impact-reaches, compute_candidate_impact-repairs,
}
use agent_workflow_pack.Ident.{is_sha256}
use agent_workflow_pack.Json.{Fields, Value, end, field, obj, text, texts}
use agent_workflow_pack.Prelude.{List, String, [], false, is_empty, refl, true, ◌∷◌, ◌≡◌}
use agent_workflow_pack.Prelude.Sort.{insert, sorted}
use agent_workflow_pack.Result.{ok}
use agent_workflow_pack.Tests.Samples.{sample_digest, sample_py, value_of}

abbrev old : String
old = sample_digest

abbrev new : String
new = "bbbbbbbbbbbbbbbbbbbbbbbbbbbbbbbbbbbbbbbbbbbbbbbbbbbbbbbbbbbbbbbb"

abbrev digests : Value → Value → Fields
digests authorities surfaces =
    field "authority_digests" authorities
      (field "surface_digests" surfaces (field "registry_graph_digest" (text old) end))

abbrev contract : Fields
contract =
    digests (obj (field "profile" (text old) end))
      (obj (field "a" (text old) (field "b" (text old) end)))

abbrev observed : Fields
observed = field "surface_digests" (obj (field "a" (text old) (field "b" (text old) end))) end

-- Surface "b" has drifted.
abbrev drift : Fields
drift = field "surface_digests" (obj (field "a" (text old) (field "b" (text new) end))) end

abbrev sync : Fields
sync = field "operation" (text "sync") (
    digests (obj (field "profile" (text new) end))
      (obj (field "b" (text new) (field "c" (text old) end))))

abbrev repair : Fields
repair = field "operation" (text "repair") (
    field "repair_surface_ids" (texts ("b" ∷ [])) (
      digests (obj (field "profile" (text old) end))
        (obj (field "a" (text old) (field "b" (text old) end)))))

abbrev surfaces : Digests
surfaces = ("a", old) ∷ ("b", old) ∷ []

abbrev sync_inputs : ImpactInputs
sync_inputs = record {
  operation = "sync";
  current_authorities = ("profile", old) ∷ [];
  candidate_authorities = ("profile", new) ∷ [];
  current_surfaces = surfaces;
  observed_surfaces = surfaces;
  candidate_surfaces = ("b", new) ∷ ("c", old) ∷ [];
  current_graph = old;
  candidate_graph = old;
}

abbrev repair_inputs : ImpactInputs
repair_inputs = record {
  operation = "repair";
  current_authorities = ("profile", old) ∷ [];
  candidate_authorities = ("profile", old) ∷ [];
  current_surfaces = surfaces;
  observed_surfaces = ("a", old) ∷ ("b", new) ∷ [];
  candidate_surfaces = surfaces;
  current_graph = old;
  candidate_graph = old;
}

abbrev no_impact : CandidateImpact
no_impact = record {
  impact_kind = "";
  authority_changes = [];
  surface_changes = [];
  contract_changing = false;
  candidate_impact_digest = "";
}

unfoldable synced : CandidateImpact
synced = value_of no_impact (compute_candidate_impact sample_py contract observed sync)

unfoldable repaired_impact : CandidateImpact
repaired_impact = value_of no_impact (compute_candidate_impact sample_py contract drift repair)

sync_read : impact_inputs contract observed sync ≡ ok sync_inputs
unfolding impact_inputs authority_map surface_map string_set digest_value strip is_sha256 sorted
    insert
sync_read = refl

repair_read : impact_inputs contract drift repair ≡ ok repair_inputs
unfolding impact_inputs authority_map surface_map string_set digest_value strip is_sha256 sorted
    insert
repair_read = refl

sync_run : compute_candidate_impact sample_py contract observed sync ≡ ok synced
unfolding synced compute_candidate_impact impact_inputs authority_map surface_map string_set
    digest_value strip is_sha256 sorted insert authority_changes authority_changes_from value_at
    surface_changes_of contract_changes contract_changes_from impact_projection digest
    canonical_json normalize_json_value normalize_nfc
sync_run = refl

repair_run : compute_candidate_impact sample_py contract drift repair ≡ ok repaired_impact
unfolding repaired_impact compute_candidate_impact impact_inputs authority_map surface_map
    string_set digest_value strip is_sha256 sorted insert authority_changes authority_changes_from
    value_at surface_changes_of repair_changes same_digests drifted impact_projection digest
    canonical_json normalize_json_value normalize_nfc
repair_run = refl

compute_candidate_impact-reaches_example :
    (apply_authorities synced.authority_changes sync_inputs.current_authorities "profile"
      ≡ value_at sync_inputs.candidate_authorities "profile")
    × (value_at sync_inputs.observed_surfaces "b" ≡ value_at sync_inputs.current_surfaces "b")
    × (apply_surfaces synced.surface_changes sync_inputs.current_surfaces "b"
        ≡ value_at sync_inputs.candidate_surfaces "b")
compute_candidate_impact-reaches_example =
    compute_candidate_impact-reaches sample_py contract observed sync sync_inputs synced "profile"
      "b" sync_read refl sync_run refl

compute_candidate_impact-repairs_example :
    (is_empty repaired_impact.authority_changes ≡ true)
    × (repair_inputs.current_graph ≡ repair_inputs.candidate_graph)
    × (repaired_impact.contract_changing ≡ false)
    × ((k : String)
        → (value_at repair_inputs.candidate_surfaces k ≡ value_at repair_inputs.current_surfaces k)
          × (apply_surfaces repaired_impact.surface_changes repair_inputs.observed_surfaces k
              ≡ value_at repair_inputs.current_surfaces k))
compute_candidate_impact-repairs_example =
    compute_candidate_impact-repairs sample_py contract drift repair repair_inputs repaired_impact
      repair_read refl repair_run

abbrev changed : List SurfaceChange
changed =
    record {
      surface_id = "b";
      change_kind = "contract-change";
      contract_before_digest = old;
      observed_before_digest = old;
      after_digest = new;
    }
    ∷ []

contract_run : contract_changes surfaces surfaces (("a", old) ∷ ("b", new) ∷ []) ≡ ok changed
unfolding contract_changes contract_changes_from value_at sorted insert
contract_run = refl

abbrev restored : List SurfaceChange
restored = repaired surfaces (("a", old) ∷ ("b", new) ∷ []) surfaces "b" ∷ []

restored_run :
    repair_changes surfaces (("a", old) ∷ ("b", new) ∷ []) surfaces ("b" ∷ []) ≡ ok restored
unfolding repair_changes same_digests drifted value_at
restored_run = refl
