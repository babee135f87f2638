-- ===== src/Core/TaskPolicy/Findings/Laws.antt =====
-- What the parsed findings of core/task_policy.py have: one of the eight kinds.
-- One of the eight kinds that `_FINDING_FIELDS` names.
use agent_workflow_pack.Core.TaskPolicy.{
  FindingFact, ambiguous_kinds, blocked_kinds, policy_array, policy_mapping, policy_string,
  policy_uuid,
}
use agent_workflow_pack.Core.TaskPolicy.Findings.{
  closed_finding, finding_fact, finding_path, findings_from, kind_fields, optional_field,
  parse_findings, task_part,
}
use agent_workflow_pack.Json.{Fields, Value, eq_value, find, get, has_fields, num, text}
use agent_workflow_pack.Platform.{Platform}
use agent_workflow_pack.Prelude.{
  Bool, List, String, [], all, arith, eq_iff, mem, refl, subst, sym, true, true-&&, ◌&&◌, ◌==◌,
  ◌||◌, ◌∷◌, ◌≡◌,
}
use agent_workflow_pack.Result.{>>=-eq-ok, map_result-ok, ok, ok-injective, reject-ok, require-ok}

abbrev pub is_known : String → Bool
is_known kind = mem kind ambiguous_kinds || mem kind blocked_kinds

pub eq_sym : (s t : String) → (s == t) ≡ (t == s)
eq_sym s t = ground (arith, eq_iff s t, eq_iff t s)

closed_finding-is_known :
    (kind : String) (d : Fields) → closed_finding d (kind_fields kind) ≡ true → is_known kind ≡ true
closed_finding-is_known kind d h = ground (
  arith,
  eq_sym kind "layout-ambiguous",
  eq_sym kind "unknown-entry",
  eq_sym kind "collision",
  eq_sym kind "scan-limit",
  eq_sym kind "interpretation-conflict",
  eq_sym kind "unfinished-task-transaction",
  eq_sym kind "non-archived-task",
  eq_sym kind "layout-state-stranded",
)

module _ (py : Platform) where
  finding_fact-is_known :
      (ids : List String) (raw : Value) (f : FindingFact)
      → finding_fact py ids raw ≡ ok f
      → is_known f.kind ≡ true
  unfolding finding_fact
  finding_fact-is_known ids raw f h =
      let (finding, _, h₁) = >>=-eq-ok (policy_mapping raw) _ h in
      let (kind, _, h₂) = >>=-eq-ok (policy_string (get finding "kind")) _ h₁ in
      let (closed, h₃) = require-ok (closed_finding finding (kind_fields kind)) _ _ h₂ in
      let (finding_id, _, h₄) = >>=-eq-ok (policy_string (get finding "finding_id")) _ h₃ in
      let (_, h₅) = reject-ok (mem finding_id ids) _ _ h₄ in
      let (task_id, _, h₆) = >>=-eq-ok (optional_field policy_uuid (find finding "task_id")) _ h₅ in
      let (path, _, h₇) = >>=-eq-ok (finding_path py kind finding) _ h₆ in
      let (part, _, h₈) = >>=-eq-ok (task_part py kind finding) _ h₇ in
      subst (λ (x : FindingFact). is_known x.kind ≡ true) (ok-injective h₈)
        (closed_finding-is_known kind finding closed)

  findings_from-is_known :
      (ids : List String) (raws : List Value) (facts : List FindingFact)
      → findings_from py ids raws ≡ ok facts
      → all (λ (f : FindingFact). is_known f.kind) facts ≡ true
  unfolding findings_from
  findings_from-is_known ids [] facts h =
      subst (λ fs. all (λ (f : FindingFact). is_known f.kind) fs ≡ true) (ok-injective h) refl
  findings_from-is_known ids (raw ∷ raws) facts h =
      let (fact, read, h₁) = >>=-eq-ok (finding_fact py ids raw) _ h in
      let (rest, later, same) =
        map_result-ok _ (findings_from py (fact.finding_id ∷ ids) raws) h₁ in
      subst (λ fs. all (λ (f : FindingFact). is_known f.kind) fs ≡ true) (sym same)
        (true-&& _ _ (finding_fact-is_known ids raw fact read)
          (findings_from-is_known (fact.finding_id ∷ ids) raws rest later))

  pub parse_findings-is_known :
      (document : Fields) (facts : List FindingFact)
      → parse_findings py document ≡ ok facts
      → all (λ (f : FindingFact). is_known f.kind) facts ≡ true
  unfolding parse_findings
  parse_findings-is_known document facts h =
      let (_, h₁) =
        require-ok (has_fields document ("schema_id" ∷ "schema_version" ∷ "findings" ∷ [])) _ _ h in
      let (_, h₂) =
        require-ok
          (eq_value (get document "schema_id") (text "agent-workflow.task-findings")
            && eq_value (get document "schema_version") (num 1))
          _ _ h₁ in
      let (raws, _, h₃) =
        >>=-eq-ok (policy_array (get document "findings")) (findings_from py []) h₂ in
      findings_from-is_known [] raws facts h₃
