-- ===== src/Core/TaskPolicy/Evidence/Laws.antt =====
-- What `_validated_evidence` of core/task_policy.py has checked when it returns.
use agent_workflow_pack.Canonical.{digest}
use agent_workflow_pack.Core.TaskPolicy.{FindingFact, TaskFact, policy_array, policy_sha256}
use agent_workflow_pack.Core.TaskPolicy.Evidence.{
  check_findings, delete, finding_ids, snapshot_fields, validated_evidence,
}
use agent_workflow_pack.Core.TaskPolicy.Findings.{parse_findings}
use agent_workflow_pack.Core.TaskPolicy.Snapshot.{task_facts, validate_snapshot_collections}
use agent_workflow_pack.Json.{Fields, as_texts, eq_value, get, has_fields, num, obj, text}
use agent_workflow_pack.Platform.{Platform}
use agent_workflow_pack.Prelude.{List, ap, eq_texts, sorted_texts, ◌&&◌, ◌==◌, ◌∙◌, ◌≡◌}
use agent_workflow_pack.Result.{>>=-eq-ok, ok, ok-injective, present-ok, require-ok}

module _ (py : Platform) where
  pub validated_evidence-parse :
      (snapshot document : Fields) (evidence : List TaskFact × List FindingFact)
      → validated_evidence py snapshot document ≡ ok evidence
      → parse_findings py document ≡ ok evidence.1
  unfolding validated_evidence
  validated_evidence-parse snapshot document evidence h =
      let (_, h₁) = require-ok (has_fields snapshot snapshot_fields) _ _ h in
      let (_, h₂) =
        require-ok
          (eq_value (get snapshot "schema_id") (text "agent-workflow.task-quiescence-snapshot")
            && eq_value (get snapshot "schema_version") (num 1))
          _ _ h₁ in
      let (expected, _, h₃) =
        >>=-eq-ok (policy_sha256 (get snapshot "task_quiescence_digest")) _ h₂ in
      let (actual, _, h₄) =
        >>=-eq-ok
          (digest py "agent-workflow.task-quiescence.v1"
            (obj (delete "task_quiescence_digest" snapshot)))
          _ h₃ in
      let (_, h₅) = require-ok (actual == expected) _ _ h₄ in
      let (tasks, _, h₆) = >>=-eq-ok (task_facts py snapshot) _ h₅ in
      let (_, _, h₇) = >>=-eq-ok (validate_snapshot_collections py snapshot) _ h₆ in
      let (findings, parsed, h₈) = >>=-eq-ok (parse_findings py document) _ h₇ in
      let (raw_ids, _, h₉) = >>=-eq-ok (policy_array (get snapshot "finding_ids")) _ h₈ in
      let (ids, _, h₁₀) = present-ok (as_texts raw_ids) _ _ h₉ in
      let (_, h₁₁) =
        require-ok
          (eq_texts ids (sorted_texts ids) && eq_texts ids (sorted_texts (finding_ids findings))) _
          _ h₁₀ in
      let (journals, _, h₁₂) = >>=-eq-ok (policy_array (get snapshot "task_journals")) _ h₁₁ in
      let (_, _, h₁₃) = >>=-eq-ok (check_findings tasks journals findings) _ h₁₂ in
      parsed ∙ ap (λ (e : List TaskFact × List FindingFact). ok e.1) (ok-injective h₁₃)
