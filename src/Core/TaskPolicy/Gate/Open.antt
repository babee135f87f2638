-- ===== src/Core/TaskPolicy/Gate/Open.antt =====
-- When `evaluate_task_gate` of core/task_policy.py opens for `init` and `workspace-migrate`.
use mathlib.Core.Option.{some-injective}
use agent_workflow_pack.Core.Impact.{CandidateImpact}
use agent_workflow_pack.Core.TaskPolicy.{FindingFact, gate_operations}
use agent_workflow_pack.Core.TaskPolicy.Evidence.{validated_evidence}
use agent_workflow_pack.Core.TaskPolicy.Evidence.Laws.{validated_evidence-parse}
use agent_workflow_pack.Core.TaskPolicy.Findings.{parse_findings}
use agent_workflow_pack.Core.TaskPolicy.Findings.Laws.{eq_sym, is_known, parse_findings-is_known}
use agent_workflow_pack.Core.TaskPolicy.Gate.{
  TaskGateBlocker, TaskGateResult, blockers_of, evaluate_task_gate, finding_blocker, gate_result,
  installs, is_idle_sync, leb_blocker,
}
use agent_workflow_pack.Core.TaskPolicy.Quiescence.{
  WorkspaceTaskState, evaluate_workspace_state_quiescence,
}
use agent_workflow_pack.Core.TaskPolicy.Quiescence.Laws.{evaluate_workspace_state_quiescence_iff}
use agent_workflow_pack.Json.{Fields}
use agent_workflow_pack.Platform.{Platform}
use agent_workflow_pack.Prelude.{
  &&-true, Bool, Bool-cases, List, Option, String, [], all, any, ap, arith, eq_iff, false,
  get_elem?, if-false, inl, inr, mem, none, refl, some, subst, suc, sym, true, zero, ℕ, ◌==◌, ◌↔◌,
  ◌∙◌, ◌∷◌, ◌≡◌, ◌≢◌,
}
use agent_workflow_pack.Prelude.Sort.{any-sorted, sorted}
use agent_workflow_pack.Result.{>>=-eq-ok, ok, ok-injective, require-ok}

pub sorted-empty : {A : Type 0} (le : A → A → Bool) (xs : List A) → sorted le xs ≡ [] → xs ≡ []
sorted-empty le [] h = refl
sorted-empty le (x ∷ xs) h =
    absurd (clash (sym (any-sorted le (λ _. true) (x ∷ xs)) ∙ ap (any (λ _. true)) h))
  where
    clash : true ≡ false → ⊥
    clash h = cc

pub sorted-of_empty : {A : Type 0} (le : A → A → Bool) → ◌≡◌ {A = List A} (sorted le []) []
unfolding sorted
sorted-of_empty le = refl

finding_blocker-known :
    (operation : String) (impact : CandidateImpact) (f : FindingFact)
    → installs operation ≡ true
    → is_known f.kind ≡ true
    → finding_blocker operation impact f ≢ none
unfolding finding_blocker
finding_blocker-known operation impact f h known = ground (
  arith,
  eq_sym f.kind "unfinished-task-transaction",
  eq_sym f.kind "non-archived-task",
  eq_sym f.kind "layout-state-stranded",
)

-- The blockers of a list of findings begin with that of the first one, if it makes one.
blockers_of-empty :
    (operation : String) (impact : CandidateImpact) (f : FindingFact) (facts : List FindingFact)
    → blockers_of operation impact (f ∷ facts) ≡ []
    → (finding_blocker operation impact f ≡ none) × (blockers_of operation impact facts ≡ [])
unfolding blockers_of
blockers_of-empty operation impact f facts h = go (finding_blocker operation impact f) refl h
  where
    go :
        (o : Option TaskGateBlocker)
        → finding_blocker operation impact f ≡ o
        → elim o [
          | none ↦ blockers_of operation impact facts
          | some b ↦ b ∷ blockers_of operation impact facts
        ]
          ≡ []
        → (finding_blocker operation impact f ≡ none) × (blockers_of operation impact facts ≡ [])
    go none e k = (e, k)
    go (some b) e k = cc

-- Where there are no blockers, no finding makes one.
pub finding_blocker-open :
    (operation : String) (impact : CandidateImpact) (facts : List FindingFact) (n : ℕ)
    (f : FindingFact)
    → blockers_of operation impact facts ≡ []
    → get_elem? facts n ≡ some f
    → finding_blocker operation impact f ≡ none
finding_blocker-open operation impact [] n f h k = cc
finding_blocker-open operation impact (g ∷ facts) zero f h k =
    subst (λ x. finding_blocker operation impact x ≡ none) (some-injective g f k)
      (blockers_of-empty operation impact g facts h).0
finding_blocker-open operation impact (g ∷ facts) (suc n) f h k =
    finding_blocker-open operation impact facts n f (blockers_of-empty operation impact g facts h).1
      k

blockers_of-known :
    (operation : String) (impact : CandidateImpact) (facts : List FindingFact)
    → installs operation ≡ true
    → all (λ (f : FindingFact). is_known f.kind) facts ≡ true
    → blockers_of operation impact facts ≡ []
    → facts ≡ []
blockers_of-known operation impact [] h known k = refl
blockers_of-known operation impact (f ∷ facts) h known k = absurd (
    finding_blocker-known operation impact f h (&&-true (is_known f.kind) _ known).0
      (blockers_of-empty operation impact f facts k).0)

-- A gate that was evaluated: its evidence, and the blockers that it sorted.
pub evaluate_task_gate-ok :
    (py : Platform) (operation : String) (impact : CandidateImpact) (snapshot document : Fields)
    (r : TaskGateResult)
    → is_idle_sync operation impact ≡ false
    → evaluate_task_gate py operation impact snapshot document ≡ ok r
    → (facts : List FindingFact) × (parse_findings py document ≡ ok facts)
      × (r ≡ gate_result operation (sorted leb_blocker (blockers_of operation impact facts)))
unfolding evaluate_task_gate
evaluate_task_gate-ok py operation impact snapshot document r busy h =
    let (_, h₁) = require-ok (mem operation gate_operations) _ _ h in
    let (evidence, read, h₂) = >>=-eq-ok (validated_evidence py snapshot document) _ h₁ in
    (
      evidence.1,
      validated_evidence-parse py snapshot document evidence read,
      sym (ok-injective (sym (if-false (is_idle_sync operation impact) _ _ busy) ∙ h₂)),
    )

installs-busy :
    (operation : String) (impact : CandidateImpact)
    → installs operation ≡ true
    → is_idle_sync operation impact ≡ false
installs-busy operation impact h = elim (Bool-cases (operation == "sync")) [
  | inl e ↦ absurd (texts_differ (sym (ap installs ((eq_iff operation "sync").0 e)) ∙ h))
  | inr e ↦ ground (arith, e)
]
  where
    texts_differ : false ≡ true → ⊥
    texts_differ h = cc

-- For `init` and for `workspace-migrate` the gate has no blocker exactly when the workspace is
-- quiescent.
pub evaluate_task_gate-quiescent :
    (py : Platform) (operation : String) (impact : CandidateImpact) (snapshot document : Fields)
    (r : TaskGateResult) (state : WorkspaceTaskState)
    → installs operation ≡ true
    → evaluate_task_gate py operation impact snapshot document ≡ ok r
    → evaluate_workspace_state_quiescence py snapshot document ≡ ok state
    → (r.blockers ≡ []) ↔ (state.task_quiescence ≡ "quiescent")
unfolding blockers_of
evaluate_task_gate-quiescent py operation impact snapshot document r state h gate quiescence =
    let (facts, parsed, shape) =
      evaluate_task_gate-ok py operation impact snapshot document r
        (installs-busy operation impact h) gate in
    let known = parse_findings-is_known py document facts parsed in
    let (quiet, _) =
      evaluate_workspace_state_quiescence_iff py snapshot document state quiescence in
    (
      (λ e. quiet.1 (
          parsed
          ∙ ap (λ fs. ok fs)
              (blockers_of-known operation impact facts h known (
                sorted-empty leb_blocker _
                  (sym (ap (λ (x : TaskGateResult). x.blockers) shape) ∙ e))))),
      (λ e.
          ap (λ (x : TaskGateResult). x.blockers) shape
          ∙ ap (λ fs. sorted leb_blocker (blockers_of operation impact fs))
              (ok-injective (sym parsed ∙ quiet.0 e))
          ∙ sorted-of_empty leb_blocker),
    )
