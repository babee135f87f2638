-- ===== src/Core/Impact/Outcome.antt =====
-- What `compute_candidate_impact` of core/impact.py returns.
use agent_workflow_pack.Canonical.{digest}
use agent_workflow_pack.Core.Impact.{
  CandidateImpact, ImpactInputs, SurfaceChange, authority_changes, changes_release,
  compute_candidate_impact, impact_inputs, impact_projection, surface_changes_of,
}
use agent_workflow_pack.Json.{Fields}
use agent_workflow_pack.Platform.{Platform}
use agent_workflow_pack.Prelude.{
  any, arith, eq_iff, if◌then◌else◌, is_empty, not, refl, subst, sym, true, ◌&&◌, ◌==◌, ◌||◌, ◌∙◌,
  ◌≡◌,
}
use agent_workflow_pack.Result.{>>=-eq-ok, ok, ok-injective, require-ok}

-- What a computed impact says of the documents that it was computed from.
pub record Computed (py : Platform) (i : ImpactInputs) (candidate_ir : Fields) (r : CandidateImpact)
    : Type 0 where
  pub authorities :
      r.authority_changes ≡ authority_changes i.current_authorities i.candidate_authorities
  pub surfaces : surface_changes_of i r.authority_changes candidate_ir ≡ ok r.surface_changes
  pub upgrades : i.operation ≡ "upgrade" → changes_release r.authority_changes ≡ true
  pub kind : r.impact_kind ≡ (
      if is_empty r.authority_changes && is_empty r.surface_changes
      then "none"
      else "runtime-visible")
  pub changing : r.contract_changing ≡ (
      not (is_empty r.authority_changes)
      || any (λ (c : SurfaceChange). c.change_kind == "contract-change") r.surface_changes)
  pub digested :
      digest py "agent-workflow.candidate-impact.v1"
        (impact_projection r.impact_kind r.authority_changes r.surface_changes)
      ≡ ok r.candidate_impact_digest

compute_candidate_impact-ok :
    (py : Platform) (contract observed ir : Fields) (r : CandidateImpact)
    → compute_candidate_impact py contract observed ir ≡ ok r
    → (i : ImpactInputs) × (impact_inputs contract observed ir ≡ ok i) × Computed py i ir r
unfolding compute_candidate_impact
compute_candidate_impact-ok py contract observed ir r h =
    let (i, read, h₁) = >>=-eq-ok (impact_inputs contract observed ir) _ h in
    let authorities = authority_changes i.current_authorities i.candidate_authorities in
    let (surfaces, changed, h₂) = >>=-eq-ok (surface_changes_of i authorities ir) _ h₁ in
    let (upgraded, h₃) =
      require-ok (not (i.operation == "upgrade") || changes_release authorities) _ _ h₂ in
    let (d, digested, h₄) = >>=-eq-ok (digest py "agent-workflow.candidate-impact.v1" _) _ h₃ in
    (
      i,
      read,
      subst (Computed py i ir) (ok-injective h₄) (record {
        authorities = refl;
        surfaces = changed;
        upgrades = λ e. ground (arith, upgraded, (eq_iff i.operation "upgrade").1 e);
        kind = refl;
        changing = refl;
        digested = digested;
      }),
    )

pub compute_candidate_impact-Computed :
    (py : Platform) (contract observed ir : Fields) (i : ImpactInputs) (r : CandidateImpact)
    → impact_inputs contract observed ir ≡ ok i
    → compute_candidate_impact py contract observed ir ≡ ok r
    → Computed py i ir r
compute_candidate_impact-Computed py contract observed ir i r read h =
    let (j, same, c) = compute_candidate_impact-ok py contract observed ir r h in
    subst (λ x. Computed py x ir r) (ok-injective (sym same ∙ read)) c
