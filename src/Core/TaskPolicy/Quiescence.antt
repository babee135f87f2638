-- ===== src/Core/TaskPolicy/Quiescence.antt =====
-- `evaluate_workspace_state_quiescence` of src/agent_stack/core/task_policy.py.
pub mod Laws
use agent_workflow_pack.Canonical.{distinct}
use agent_workflow_pack.Core.TaskPolicy.{FindingFact, ambiguous_kinds, blocked_kinds}
use agent_workflow_pack.Core.TaskPolicy.Evidence.{validated_evidence}
use agent_workflow_pack.Json.{Fields}
use agent_workflow_pack.Platform.{Platform}
use agent_workflow_pack.Prelude.{Bool, List, String, any, if◌then◌else◌, map, mem, sorted_texts, ℕ}
use agent_workflow_pack.Result.{Result, ok, ◌>>=◌, ◌>>◌}

pub record WorkspaceTaskState : Type 0 where
  pub evaluator_id : String
  pub evaluator_version : ℕ
  pub task_quiescence : String
  pub evidence_kinds : List String

abbrev pub kinds_of : List FindingFact → List String
kinds_of facts = map (λ (f : FindingFact). f.kind) facts

-- Some finding is of one of the kinds.
abbrev pub any_kind : List String → List FindingFact → Bool
any_kind kinds facts = any (λ (f : FindingFact). mem f.kind kinds) facts

unfoldable pub quiescence_of : List FindingFact → String
quiescence_of facts =
    if any_kind ambiguous_kinds facts
    then "ambiguous"
    else if any_kind blocked_kinds facts
    then "blocked"
    else "quiescent"

unfoldable pub evaluate_workspace_state_quiescence :
    Platform → Fields → Fields → Result WorkspaceTaskState
evaluate_workspace_state_quiescence py snapshot findings = do
  evidence ← validated_evidence py snapshot findings
  ok (record {
    evaluator_id = "agent-workflow.workspace-state-quiescence";
    evaluator_version = 1;
    task_quiescence = quiescence_of evidence.1;
    evidence_kinds = sorted_texts (distinct (kinds_of evidence.1));
  })
