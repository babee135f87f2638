-- ===== src/Core/TaskPolicy/Quiescence/Laws.antt =====
-- What `evaluate_workspace_state_quiescence` of core/task_policy.py says of the findings.
use agent_workflow_pack.Canonical.{distinct}
use agent_workflow_pack.Canonical.Distinct.{any-distinct}
use agent_workflow_pack.Core.TaskPolicy.{FindingFact, ambiguous_kinds, blocked_kinds}
use agent_workflow_pack.Core.TaskPolicy.Evidence.{validated_evidence}
use agent_workflow_pack.Core.TaskPolicy.Evidence.Laws.{validated_evidence-parse}
use agent_workflow_pack.Core.TaskPolicy.Findings.{parse_findings}
use agent_workflow_pack.Core.TaskPolicy.Findings.Laws.{is_known, parse_findings-is_known}
use agent_workflow_pack.Core.TaskPolicy.Quiescence.{
  WorkspaceTaskState, any_kind, evaluate_workspace_state_quiescence, kinds_of, quiescence_of,
}
use agent_workflow_pack.Json.{Fields}
use agent_workflow_pack.Platform.{Platform}
use agent_workflow_pack.Prelude.{
  Bool, List, String, [], all, any, ap, arith, false, if◌then◌else◌, leb_text, mem, refl,
  sorted_texts, subst, sym, true, ◌&&◌, ◌||◌, ◌↔◌, ◌∙◌, ◌∷◌, ◌≡◌,
}
use agent_workflow_pack.Prelude.Sort.{any-sorted}
use agent_workflow_pack.Prelude.Text.Sets.{texts_apart}
use agent_workflow_pack.Result.{>>=-eq-ok, ok, ok-injective}

abbrev state_name : Bool → Bool → String
state_name ambiguous blocked =
    if ambiguous then "ambiguous" else if blocked then "blocked" else "quiescent"

idle_of_name : (a b : Bool) → state_name a b ≡ "quiescent" → (a ≡ false) × (b ≡ false)
idle_of_name true b h = absurd (texts_apart "ambiguous" "quiescent" refl h)
idle_of_name false true h = absurd (texts_apart "blocked" "quiescent" refl h)
idle_of_name false false h = (refl, refl)

ambiguous_of_name : (a b : Bool) → (state_name a b ≡ "ambiguous") ↔ (a ≡ true)
ambiguous_of_name true b = ((λ _. refl), (λ _. refl))
ambiguous_of_name false true = ((λ h. absurd (texts_apart "blocked" "ambiguous" refl h)), (λ h. cc))
ambiguous_of_name false false =
    ((λ h. absurd (texts_apart "quiescent" "ambiguous" refl h)), (λ h. cc))

idle_of_known :
    (facts : List FindingFact)
    → all (λ (f : FindingFact). is_known f.kind) facts ≡ true
    → any_kind ambiguous_kinds facts ≡ false
    → any_kind blocked_kinds facts ≡ false
    → facts ≡ []
idle_of_known [] known h k = refl
idle_of_known (f ∷ fs) known h k =
    absurd (clash (mem f.kind ambiguous_kinds) (mem f.kind blocked_kinds) _ _ _ known h k)
  where
    clash : (a b c d e : Bool) → ((a || b) && c) ≡ true → (a || d) ≡ false → (b || e) ≡ false → ⊥
    clash a b c d e u v w = ground arith

-- Facts of known kinds make a quiescent workspace only when there are none.
pub quiescence_of-idle :
    (facts : List FindingFact)
    → all (λ (f : FindingFact). is_known f.kind) facts ≡ true
    → quiescence_of facts ≡ "quiescent"
    → facts ≡ []
unfolding quiescence_of
quiescence_of-idle facts known h = let (a, b) = idle_of_name _ _ h in idle_of_known facts known a b

quiescence_of-empty : quiescence_of [] ≡ "quiescent"
unfolding quiescence_of
quiescence_of-empty = refl

quiescence_of-ambiguous :
    (facts : List FindingFact)
    → (quiescence_of facts ≡ "ambiguous") ↔ (any_kind ambiguous_kinds facts ≡ true)
unfolding quiescence_of
quiescence_of-ambiguous facts =
    ambiguous_of_name (any_kind ambiguous_kinds facts) (any_kind blocked_kinds facts)

any-kinds :
    (kinds : List String) (facts : List FindingFact)
    → any (λ k. mem k kinds) (sorted_texts (distinct (kinds_of facts))) ≡ any_kind kinds facts
any-kinds kinds facts =
    any-sorted leb_text _ (distinct (kinds_of facts))
    ∙ any-distinct _ (kinds_of facts)
    ∙ any-map facts
  where
    any-map : (fs : List FindingFact) → any (λ k. mem k kinds) (kinds_of fs) ≡ any_kind kinds fs
    any-map [] = refl
    any-map (f ∷ fs) = ap (λ b. mem f.kind kinds || b) (any-map fs)

-- The workspace is quiescent exactly when no finding was made, and ambiguous exactly when some kind
-- of evidence that is listed makes the layout ambiguous.
pub evaluate_workspace_state_quiescence_iff :
    (py : Platform) (snapshot document : Fields) (state : WorkspaceTaskState)
    → evaluate_workspace_state_quiescence py snapshot document ≡ ok state
    → ((state.task_quiescence ≡ "quiescent") ↔ (parse_findings py document ≡ ok []))
      × ((state.task_quiescence ≡ "ambiguous")
          ↔ (any (λ k. mem k ambiguous_kinds) state.evidence_kinds ≡ true))
unfolding evaluate_workspace_state_quiescence
evaluate_workspace_state_quiescence_iff py snapshot document state h =
    let (evidence, read, h₁) = >>=-eq-ok (validated_evidence py snapshot document) _ h in
    let parsed = validated_evidence-parse py snapshot document evidence read in
    let known = parse_findings-is_known py document evidence.1 parsed in
    subst
      (λ (s : WorkspaceTaskState).
        ((s.task_quiescence ≡ "quiescent") ↔ (parse_findings py document ≡ ok []))
        × ((s.task_quiescence ≡ "ambiguous")
            ↔ (any (λ k. mem k ambiguous_kinds) s.evidence_kinds ≡ true)))
      (ok-injective h₁)
      (
        (
          (λ q. parsed ∙ ap (λ fs. ok fs) (quiescence_of-idle evidence.1 known q)),
          (λ e. ap quiescence_of (ok-injective (sym parsed ∙ e)) ∙ quiescence_of-empty),
        ),
        subst (λ b. (quiescence_of evidence.1 ≡ "ambiguous") ↔ (b ≡ true))
            (sym (any-kinds ambiguous_kinds evidence.1)) (quiescence_of-ambiguous evidence.1),
      )
