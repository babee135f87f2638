-- ===== src/Core/TaskPolicy/Gate.antt =====
-- `evaluate_task_gate` of src/agent_stack/core/task_policy.py.
pub mod Open
pub mod Pins
use Prim.Native.Char.{code}
use agent_workflow_pack.Canonical.{distinct}
use agent_workflow_pack.Core.Impact.{AuthorityChange, CandidateImpact, SurfaceChange}
use agent_workflow_pack.Core.TaskPolicy.{
  FindingFact, SurfacePin, ambiguous_kinds, gate_operations, pin_ids, schema_failure,
}
use agent_workflow_pack.Core.TaskPolicy.Evidence.{is_text_of, or_empty, validated_evidence}
use agent_workflow_pack.Json.{Fields}
use agent_workflow_pack.Platform.{Platform}
use agent_workflow_pack.Prelude.{
  Bool, List, Option, String, [], any, eqb, false, if◌then◌else◌, is_empty, keep, leb_text, ltb,
  map, mem, none, not, some, sorted_texts, true, ℕ, ◌&&◌, ◌==◌, ◌||◌, ◌∷◌,
}
use agent_workflow_pack.Prelude.Sort.{sorted}
use agent_workflow_pack.Result.{Result, ok, require, ◌>>=◌, ◌>>◌}

pub record TaskGateBlocker : Type 0 where
  pub code : String
  pub finding_id : String
  pub task_id : Option String
  pub path : Option String
  pub surface_id : Option String
  pub authority_id : Option String

pub record TaskGateResult : Type 0 where
  pub evaluator_id : String
  pub evaluator_version : ℕ
  pub operation : String
  pub blockers : List TaskGateBlocker
  pub primary_evaluator_blocker : Option String

abbrev pub layout_ambiguous : String
layout_ambiguous = "AWP_WORKSPACE_TASK_LAYOUT_AMBIGUOUS"

abbrev pub recovery_block : String
recovery_block = "AWP_WORKSPACE_TASK_RECOVERY_BLOCK"

abbrev pub active_task_block : String
active_task_block = "AWP_WORKSPACE_ACTIVE_TASK_BLOCK"

abbrev pub layout_stranded : String
layout_stranded = "AWP_WORKSPACE_LAYOUT_STATE_STRANDED"

-- `_blocker`
abbrev pub blocker : String → FindingFact → Option String → TaskGateBlocker
blocker code finding surface_id = record {
  code = code;
  finding_id = finding.finding_id;
  task_id = finding.task_id;
  path = finding.path;
  surface_id = surface_id;
  authority_id = none;
}

-- `_surface_changes_by_id`: the last change of an identity stands.
unfoldable pub change_at : List SurfaceChange → String → Option SurfaceChange
change_at [] id = none
change_at (c ∷ cs) id = elim (change_at cs id) [
  | some d ↦ some d
  | none ↦ if c.surface_id == id then some c else none
]

unfoldable pub pin_at : List SurfacePin → String → Option String
pin_at [] id = none
pin_at (p ∷ ps) id = elim (pin_at ps id) [
  | some d ↦ some d
  | none ↦ if p.surface_id == id then some p.surface_digest else none
]

-- The body of the loop over the surfaces that are both changed and pinned: the blocker's code.
unfoldable pub pin_conflict : SurfaceChange → String → Bool → Option String
pin_conflict change pinned_digest authorities_change =
    if not (change.contract_before_digest == pinned_digest)
    then some layout_ambiguous
    else if change.change_kind == "repair"
    then (if change.contract_before_digest == change.after_digest
          && change.after_digest == pinned_digest
          && not authorities_change
        then none
        else some layout_ambiguous)
    else if change.change_kind == "contract-change" && not (change.after_digest == pinned_digest)
    then some active_task_block
    else none

abbrev pub conflict_at : Option SurfaceChange → Option String → Bool → Option String
conflict_at (some change) (some pinned) authorities_change =
    pin_conflict change pinned authorities_change
conflict_at _ _ authorities_change = none

-- The first surface, in order, that makes a blocker.
unfoldable pub pins_blocker : FindingFact → CandidateImpact → List String → Option TaskGateBlocker
pins_blocker finding impact [] = none
pins_blocker finding impact (id ∷ ids) =
    let rest = pins_blocker finding impact ids in
    elim (conflict_at (change_at impact.surface_changes id) (pin_at finding.pinned_surfaces id)
      (not (is_empty impact.authority_changes))) [
        | some code ↦ some (blocker code finding (some id))
        | none ↦ rest
      ]

abbrev pub change_ids : List SurfaceChange → List String
change_ids changes = map (λ (c : SurfaceChange). c.surface_id) changes

-- `sorted(set(changes) & set(pin_by_id))`
abbrev pub matching_ids : FindingFact → CandidateImpact → List String
matching_ids finding impact = sorted_texts (
    distinct
      (keep (λ id. mem id (pin_ids finding.pinned_surfaces)) (change_ids impact.surface_changes)))

-- `_task_blocker`
unfoldable pub task_blocker : FindingFact → CandidateImpact → Option TaskGateBlocker
task_blocker finding impact = elim (pins_blocker finding impact (matching_ids finding impact)) [
  | some b ↦ some b
  | none ↦
      if is_text_of finding.mode "speckit-superpowers" && impact.contract_changing
      then some (blocker active_task_block finding none)
      else none
]

abbrev pub layout_changing : CandidateImpact → Bool
layout_changing impact =
    any (λ (c : AuthorityChange). c.authority_id == "trellis-layout") impact.authority_changes

abbrev pub installs : String → Bool
installs operation = mem operation ("init" ∷ "workspace-migrate" ∷ [])

-- The body of the loop over the findings.
unfoldable pub finding_blocker : String → CandidateImpact → FindingFact → Option TaskGateBlocker
finding_blocker operation impact finding =
    if mem finding.kind ambiguous_kinds
    then some (blocker layout_ambiguous finding none)
    else if finding.kind == "unfinished-task-transaction"
    then some (blocker recovery_block finding none)
    else if finding.kind == "non-archived-task"
    then (if installs operation
        then some (blocker active_task_block finding none)
        else task_blocker finding impact)
    else if finding.kind == "layout-state-stranded"
        && (installs operation || layout_changing impact)
    then some (blocker layout_stranded finding none)
    else none

unfoldable pub blockers_of : String → CandidateImpact → List FindingFact → List TaskGateBlocker
blockers_of operation impact [] = []
blockers_of operation impact (finding ∷ facts) =
    let rest = blockers_of operation impact facts in
    elim (finding_blocker operation impact finding) [ none ↦ rest | some b ↦ b ∷ rest ]

-- `class_order[code]`: the four codes are all that there are.
abbrev pub class_order : String → ℕ
class_order code =
    if code == layout_ambiguous
    then 0
    else if code == recovery_block
    then 1
    else if code == active_task_block
    then 2
    else 3

-- The texts of `_blocker_sort_key`, after the class.
abbrev pub key_texts : TaskGateBlocker → List String
key_texts b =
    or_empty b.task_id
    ∷ or_empty b.path
    ∷ or_empty b.surface_id
    ∷ or_empty b.authority_id
    ∷ b.finding_id
    ∷ []

unfoldable pub leb_texts : List String → List String → Bool
leb_texts [] ys = true
leb_texts (x ∷ xs) [] = false
leb_texts (x ∷ xs) (y ∷ ys) = let rest = leb_texts xs ys in if x == y then rest else leb_text x y

-- The order of the keys, as of Python's tuples.
unfoldable pub leb_blocker : TaskGateBlocker → TaskGateBlocker → Bool
leb_blocker a b =
    if eqb (class_order a.code) (class_order b.code)
    then leb_texts (key_texts a) (key_texts b)
    else ltb (class_order a.code) (class_order b.code)

abbrev pub first_code : List TaskGateBlocker → Option String
first_code [] = none
first_code (b ∷ bs) = some b.code

abbrev pub gate_result : String → List TaskGateBlocker → TaskGateResult
gate_result operation blockers = record {
  evaluator_id = "agent-workflow.task-gate";
  evaluator_version = 1;
  operation = operation;
  blockers = blockers;
  primary_evaluator_blocker = first_code blockers;
}

-- A `sync` without impact.
abbrev pub is_idle_sync : String → CandidateImpact → Bool
is_idle_sync operation impact =
    operation == "sync"
    && impact.impact_kind == "none"
    && is_empty impact.authority_changes
    && is_empty impact.surface_changes

unfoldable pub evaluate_task_gate :
    Platform → String → CandidateImpact → Fields → Fields → Result TaskGateResult
evaluate_task_gate py operation impact snapshot findings = do
  require (mem operation gate_operations) (schema_failure "task-gate operation is unsupported")
  evidence ← validated_evidence py snapshot findings
  if is_idle_sync operation impact
      then ok (gate_result operation [])
      else ok (gate_result operation (sorted leb_blocker (blockers_of operation impact evidence.1)))
