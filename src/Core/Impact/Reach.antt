-- ===== src/Core/Impact/Reach.antt =====
-- The impacts of core/impact.py read as changes: the candidate that they lead to, and repairs.
use agent_workflow_pack.Core.Impact.{
  AuthorityChange, CandidateImpact, ImpactInputs, SurfaceChange, authority_ids,
  compute_candidate_impact, contract_changes, get_array, impact_inputs, repair_changes, string_set,
  surface_changes_of, value_at,
}
use agent_workflow_pack.Core.Impact.Changes.{
  apply_authorities, apply_surfaces, authority_changes-applied, contract_changes-applied,
}
use agent_workflow_pack.Core.Impact.Outcome.{Computed, compute_candidate_impact-Computed}
use agent_workflow_pack.Core.Impact.Repair.{repair_changes-applied, repair_changes-kind}
use agent_workflow_pack.Json.{Fields, get}
use agent_workflow_pack.Platform.{Platform}
use agent_workflow_pack.Prelude.{
  List, String, arith, eq_iff, false, if-false, if-true, is_empty, mem, subst, sym, true, ◌==◌, ◌∙◌,
  ◌≡◌,
}
use agent_workflow_pack.Result.{>>=-eq-ok, ok, require-ok}

surface_changes-contract :
    (i : ImpactInputs) (changes : List AuthorityChange) (ir : Fields) (cs : List SurfaceChange)
    → (i.operation == "repair") ≡ false
    → surface_changes_of i changes ir ≡ ok cs
    → contract_changes i.current_surfaces i.observed_surfaces i.candidate_surfaces ≡ ok cs
unfolding surface_changes_of
surface_changes-contract i changes ir cs ordinary h =
    let h₀ = sym (if-false (i.operation == "repair") _ _ ordinary) ∙ h in
    let (selected, _, h₁) = >>=-eq-ok (string_set (get_array ir "repair_surface_ids") _) _ h₀ in
    let (_, h₂) = require-ok (is_empty selected) _ _ h₁ in h₂

surface_changes-repair :
    (i : ImpactInputs) (changes : List AuthorityChange) (ir : Fields) (cs : List SurfaceChange)
    → (i.operation == "repair") ≡ true
    → surface_changes_of i changes ir ≡ ok cs
    → (selected : List String) × (is_empty changes ≡ true)
      × (i.current_graph ≡ i.candidate_graph)
      × (string_set (get ir "repair_surface_ids") "candidate_ir.repair_surface_ids" ≡ ok selected)
      × (repair_changes i.current_surfaces i.observed_surfaces i.candidate_surfaces selected
          ≡ ok cs)
unfolding surface_changes_of
surface_changes-repair i changes ir cs repairing h =
    let h₀ = sym (if-true (i.operation == "repair") _ _ repairing) ∙ h in
    let (none_changed, h₁) = require-ok (is_empty changes) _ _ h₀ in
    let (graph, h₂) = require-ok (i.current_graph == i.candidate_graph) _ _ h₁ in
    let (selected, read, h₃) = >>=-eq-ok (string_set (get ir "repair_surface_ids") _) _ h₂ in
    (selected, none_changed, (eq_iff i.current_graph i.candidate_graph).0 graph, read, h₃)

-- When the impact of an `init`, `sync` or `upgrade` is computed, no surface has drifted, and the listed
-- changes, applied to the current contract, give every known authority and every surface the digest
-- of the candidate.
pub compute_candidate_impact-reaches :
    (py : Platform) (contract observed ir : Fields) (i : ImpactInputs) (r : CandidateImpact)
    (authority surface : String)
    → impact_inputs contract observed ir ≡ ok i
    → (i.operation == "repair") ≡ false
    → compute_candidate_impact py contract observed ir ≡ ok r
    → mem authority authority_ids ≡ true
    → (apply_authorities r.authority_changes i.current_authorities authority
        ≡ value_at i.candidate_authorities authority)
      × (value_at i.observed_surfaces surface ≡ value_at i.current_surfaces surface)
      × (apply_surfaces r.surface_changes i.current_surfaces surface
          ≡ value_at i.candidate_surfaces surface)
compute_candidate_impact-reaches py contract observed ir i r authority surface read ordinary h
      known =
    let c : Computed py i ir r =
      compute_candidate_impact-Computed py contract observed ir i r read h in
    let (still, reached) =
      contract_changes-applied i.current_surfaces i.observed_surfaces i.candidate_surfaces
        r.surface_changes
        (surface_changes-contract i r.authority_changes ir r.surface_changes ordinary c.surfaces)
        surface in
    (
      subst
          (λ x.
            apply_authorities x i.current_authorities authority
            ≡ value_at i.candidate_authorities authority)
          (sym c.authorities)
          (authority_changes-applied i.current_authorities i.candidate_authorities authority known),
      still,
      reached,
    )

-- When the impact of a `repair` is computed, no authority and no contract surface changes, the impact
-- does not change the contract, and its changes, applied to what is observed, restore every surface.
pub compute_candidate_impact-repairs :
    (py : Platform) (contract observed ir : Fields) (i : ImpactInputs) (r : CandidateImpact)
    → impact_inputs contract observed ir ≡ ok i
    → (i.operation == "repair") ≡ true
    → compute_candidate_impact py contract observed ir ≡ ok r
    → (is_empty r.authority_changes ≡ true)
      × (i.current_graph ≡ i.candidate_graph)
      × (r.contract_changing ≡ false)
      × ((k : String)
          → (value_at i.candidate_surfaces k ≡ value_at i.current_surfaces k)
            × (apply_surfaces r.surface_changes i.observed_surfaces k
                ≡ value_at i.current_surfaces k))
compute_candidate_impact-repairs py contract observed ir i r read repairing h =
    let c : Computed py i ir r =
      compute_candidate_impact-Computed py contract observed ir i r read h in
    let (selected, none_changed, graph, _, done) =
      surface_changes-repair i r.authority_changes ir r.surface_changes repairing c.surfaces in
    (
      none_changed,
      graph,
      c.changing
          ∙ ground (
            arith,
            none_changed,
            repair_changes-kind i.current_surfaces i.observed_surfaces i.candidate_surfaces selected
                r.surface_changes done,
          ),
      λ k.
          let (_, kept, restored) =
            repair_changes-applied i.current_surfaces i.observed_surfaces i.candidate_surfaces
              selected r.surface_changes done k in
          (kept, restored),
    )
