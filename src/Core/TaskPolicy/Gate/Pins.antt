-- ===== src/Core/TaskPolicy/Gate/Pins.antt =====
-- What an open gate of core/task_policy.py means for the surfaces that the tasks pin.
-- No matching surface makes a blocker.
use Prim.Native.Char.{code}
use agent_workflow_pack.Core.Impact.{CandidateImpact, SurfaceChange}
use agent_workflow_pack.Core.Impact.Changes.{mem-distinct}
use agent_workflow_pack.Core.Impact.Repair.{mem-keep}
use agent_workflow_pack.Core.TaskPolicy.{FindingFact, SurfacePin, ambiguous_kinds, pin_ids}
use agent_workflow_pack.Core.TaskPolicy.Evidence.{is_text_of}
use agent_workflow_pack.Core.TaskPolicy.Findings.{parse_findings}
use agent_workflow_pack.Core.TaskPolicy.Gate.{
  TaskGateBlocker, TaskGateResult, active_task_block, blocker, blockers_of, change_at, change_ids,
  conflict_at, evaluate_task_gate, finding_blocker, is_idle_sync, leb_blocker, matching_ids, pin_at,
  pin_conflict, pins_blocker, task_blocker,
}
use agent_workflow_pack.Core.TaskPolicy.Gate.Open.{
  evaluate_task_gate-ok, finding_blocker-open, sorted-empty,
}
use agent_workflow_pack.Json.{Fields}
use agent_workflow_pack.Platform.{Platform}
use agent_workflow_pack.Prelude.{
  Bool, Bool-cases, List, Option, Option-cases, String, [], ap, arith, eq_iff, false, get_elem?,
  if◌then◌else◌, inl, inr, is_empty, mem, none, not, refl, some, sym, true, true-&&, ℕ, ◌&&◌, ◌==◌,
  ◌||◌, ◌∙◌, ◌∷◌, ◌≡◌,
}
use agent_workflow_pack.Prelude.Sort.{sorted}
use agent_workflow_pack.Prelude.Text.Sets.{mem-sorted}
use agent_workflow_pack.Result.{ok, ok-injective}

pins_blocker-open :
    (f : FindingFact) (impact : CandidateImpact) (id : String) (ids : List String)
    → pins_blocker f impact ids ≡ none
    → mem id ids ≡ true
    → conflict_at
        (change_at impact.surface_changes id)
        (pin_at f.pinned_surfaces id)
        (not (is_empty impact.authority_changes))
      ≡ none
unfolding pins_blocker
pins_blocker-open f impact id [] h m = cc
pins_blocker-open f impact id (x ∷ ids) h m = elim (Bool-cases (x == id)) [
  | inl e ↦ ap conflict (sym ((eq_iff x id).0 e)) ∙ (first (conflict x) refl h).0
  | inr e ↦ pins_blocker-open f impact id ids (first (conflict x) refl h).1 (ground (arith, e, m))
]
  where
    conflict : String → Option String
    conflict k =
        conflict_at (change_at impact.surface_changes k) (pin_at f.pinned_surfaces k)
          (not (is_empty impact.authority_changes))

    first :
        (o : Option String)
        → conflict x ≡ o
        → elim o [ some code ↦ some (blocker code f (some x)) | none ↦ pins_blocker f impact ids ]
          ≡ none
        → (conflict x ≡ none) × (pins_blocker f impact ids ≡ none)
    first none e k = (e, k)
    first (some code) e k = cc

change_ids-mem :
    (changes : List SurfaceChange) (id : String) (c : SurfaceChange)
    → change_at changes id ≡ some c
    → mem id (change_ids changes) ≡ true
unfolding change_at
change_ids-mem [] id c h = cc
change_ids-mem (x ∷ changes) id c h = elim (Option-cases (change_at changes id)) [
  | inl e ↦ ground (arith, e, h)
  | inr (d, e) ↦ ground (arith, change_ids-mem changes id d e)
]

pin_ids-mem :
    (pins : List SurfacePin) (id d : String)
    → pin_at pins id ≡ some d
    → mem id (pin_ids pins) ≡ true
unfolding pin_at
pin_ids-mem [] id d h = cc
pin_ids-mem (x ∷ pins) id d h = elim (Option-cases (pin_at pins id)) [
  | inl e ↦ ground (arith, e, h)
  | inr (d', e) ↦ ground (arith, pin_ids-mem pins id d' e)
]

matching_ids-mem :
    (f : FindingFact) (impact : CandidateImpact) (id d : String) (c : SurfaceChange)
    → change_at impact.surface_changes id ≡ some c
    → pin_at f.pinned_surfaces id ≡ some d
    → mem id (matching_ids f impact) ≡ true
matching_ids-mem f impact id d c h k =
    mem-sorted id _
    ∙ mem-distinct id _
    ∙ mem-keep (λ x. mem x (pin_ids f.pinned_surfaces)) id (change_ids impact.surface_changes)
    ∙ true-&& _ _ (pin_ids-mem f.pinned_surfaces id d k)
        (change_ids-mem impact.surface_changes id c h)

task_blocker-open :
    (f : FindingFact) (impact : CandidateImpact)
    → task_blocker f impact ≡ none
    → pins_blocker f impact (matching_ids f impact) ≡ none
unfolding task_blocker
task_blocker-open f impact h = go (pins_blocker f impact (matching_ids f impact)) refl h
  where
    go :
        (o : Option TaskGateBlocker)
        → pins_blocker f impact (matching_ids f impact) ≡ o
        → elim o [
          | some b ↦ some b
          | none ↦
              if is_text_of f.mode "speckit-superpowers" && impact.contract_changing
              then some (blocker active_task_block f none)
              else none
        ]
          ≡ none
        → pins_blocker f impact (matching_ids f impact) ≡ none
    go none e k = e
    go (some b) e k = cc

finding_blocker-task :
    (operation : String) (impact : CandidateImpact) (f : FindingFact)
    → f.kind ≡ "non-archived-task"
    → finding_blocker operation impact f ≡ none
    → task_blocker f impact ≡ none
unfolding finding_blocker
finding_blocker-task operation impact f e h = ground (
  arith,
  ap (λ k. mem k ambiguous_kinds) e ∙ not_ambiguous,
  ap (λ k. k == "unfinished-task-transaction") e ∙ not_unfinished,
  (eq_iff f.kind "non-archived-task").1 e,
)
  where
    not_ambiguous : mem "non-archived-task" ambiguous_kinds ≡ false
    not_ambiguous = refl

    not_unfinished : ("non-archived-task" == "unfinished-task-transaction") ≡ false
    not_unfinished = refl

pin_conflict-none :
    (c : SurfaceChange) (d : String) (b : Bool)
    → pin_conflict c d b ≡ none
    → (c.change_kind == "contract-change" || c.change_kind == "repair") ≡ true
    → (c.contract_before_digest ≡ d) × (c.after_digest ≡ d)
unfolding pin_conflict
pin_conflict-none c d b h k =
    ground (arith, eq_iff c.contract_before_digest d, eq_iff c.after_digest d)

-- An impact with a change is no idle one.
changed-busy :
    (operation : String) (impact : CandidateImpact) (id : String) (c : SurfaceChange)
    → change_at impact.surface_changes id ≡ some c
    → is_idle_sync operation impact ≡ false
unfolding change_at
changed-busy operation impact id c h =
    busy (operation == "sync" && impact.impact_kind == "none" && is_empty impact.authority_changes)
      (some_change impact.surface_changes h)
  where
    busy : (a : Bool) {b : Bool} → b ≡ false → (a && b) ≡ false
    busy a h = ground arith

    some_change : (cs : List SurfaceChange) → change_at cs id ≡ some c → is_empty cs ≡ false
    some_change [] k = cc
    some_change (x ∷ cs) k = refl

-- Where the gate has no blocker, a surface that a live task pins does not move: its change, a repair
-- or a change of the contract, begins and ends at the pinned digest.
pub evaluate_task_gate-pinned :
    (py : Platform) (operation : String) (impact : CandidateImpact) (snapshot document : Fields)
    (r : TaskGateResult) (facts : List FindingFact) (n : ℕ) (f : FindingFact) (id d : String)
    (c : SurfaceChange)
    → evaluate_task_gate py operation impact snapshot document ≡ ok r
    → r.blockers ≡ []
    → parse_findings py document ≡ ok facts
    → get_elem? facts n ≡ some f
    → f.kind ≡ "non-archived-task"
    → pin_at f.pinned_surfaces id ≡ some d
    → change_at impact.surface_changes id ≡ some c
    → (c.change_kind == "contract-change" || c.change_kind == "repair") ≡ true
    → (c.contract_before_digest ≡ d) × (c.after_digest ≡ d)
evaluate_task_gate-pinned py operation impact snapshot document r facts n f id d c gate clear parsed
      here live pinned changed kind =
    let (facts', parsed', shape) =
      evaluate_task_gate-ok py operation impact snapshot document r
        (changed-busy operation impact id c changed) gate in
    let same = ok-injective (sym parsed' ∙ parsed) in
    let empty = sorted-empty leb_blocker (blockers_of operation impact facts) (
      ap (λ fs. sorted leb_blocker (blockers_of operation impact fs)) (sym same)
      ∙ sym (ap (λ (x : TaskGateResult). x.blockers) shape)
      ∙ clear) in
    let quiet =
      finding_blocker-task operation impact f live
        (finding_blocker-open operation impact facts n f empty here) in
    let conflict =
      pins_blocker-open f impact id (matching_ids f impact) (task_blocker-open f impact quiet)
        (matching_ids-mem f impact id d c changed pinned) in
    pin_conflict-none c d (not (is_empty impact.authority_changes))
      (sym (
          ap
            (λ o.
              conflict_at o (pin_at f.pinned_surfaces id) (not (is_empty impact.authority_changes)))
            changed
          ∙ ap (λ o. conflict_at (some c) o (not (is_empty impact.authority_changes))) pinned)
        ∙ conflict)
      kind
