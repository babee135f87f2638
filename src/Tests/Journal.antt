-- ===== src/Tests/Journal.antt =====
-- Runs of runtime/task_journal.py.
use agent_workflow_pack.Canonical.{
  canonical_json, digest, normalize_json_value, normalize_nfc, serialize,
}
use agent_workflow_pack.Canonical.Chars.{decimal, decimal_from}
use agent_workflow_pack.Ident.{is_uuid}
use agent_workflow_pack.Json.{Fields, Value, end, eq_value, eq_ℤ, field, get, obj, text}
use agent_workflow_pack.Prelude.{
  Option, String, if◌then◌else◌, none, refl, some, true, ℕ, ◌==◌, ◌≡◌, ◌≤◌,
}
use agent_workflow_pack.Prelude.Sort.{insert, sorted}
use agent_workflow_pack.Reconcile.Files.{FileNode, Tree, absent, directory}
use agent_workflow_pack.Result.{Result, ok}
use agent_workflow_pack.Runtime.TaskJournal.{
  check_header, check_identity, check_outcome, phase_rank, rank_of, validate_fields,
}
use agent_workflow_pack.Runtime.TaskJournal.Complete.{IsWritable, completed, with_journal}
use agent_workflow_pack.Runtime.TaskJournal.History.{
  History-complete, History-forward, advanced_to, started,
}
use agent_workflow_pack.Runtime.TaskJournal.Read.{journal_path, read_task_journal}
use agent_workflow_pack.Runtime.TaskJournal.Run.{
  advance_task_journal-completes, read_task_journal-advanced,
}
use agent_workflow_pack.Runtime.TaskJournal.Store.{
  advance_task_journal, advanced, atomic_json, make_root, planned_document, replace_journal,
}
use agent_workflow_pack.Tests.Samples.{sample_digest, sample_py, sample_uuid, value_of}

abbrev header : Fields
header = field "task_id" (text sample_uuid) (field "task_ref" (text "ref") end)

-- A journal of a claim, as it is written first.
abbrev planned : Fields
planned = planned_document sample_uuid "claim" sample_uuid "ref" header sample_digest

abbrev file : String
file = ".agent-workflow/task-transactions/11111111-1111-4111-8111-111111111111.json"

unfoldable nodes : String → FileNode
nodes path = if path == ".agent-workflow/task-transactions" then directory 493 else absent

abbrev tree : Tree
tree = record { real_root = true; node = nodes }

unfoldable moved : Result Fields × Tree
moved = advance_task_journal sample_py planned "integration_committed" none none tree

unfoldable ended : Result Fields × Tree
ended = advance_task_journal sample_py planned "complete" (some "committed") none tree

unfoldable again : Result Fields × Tree
again = advance_task_journal sample_py (value_of end ended.0) "complete" none none tree

moved_run :
    advance_task_journal sample_py planned "integration_committed" none none tree
    ≡ (ok (value_of end moved.0), moved.1)
unfolding moved advance_task_journal validate_fields check_identity phase_rank check_header
    check_outcome rank_of advanced atomic_json make_root replace_journal journal_path digest
    canonical_json normalize_json_value normalize_nfc serialize decimal decimal_from sorted insert
    is_uuid eq_value eq_ℤ nodes
moved_run = refl

ended_run :
    advance_task_journal sample_py planned "complete" (some "committed") none tree
    ≡ (ok (value_of end ended.0), ended.1)
unfolding ended advance_task_journal validate_fields check_identity phase_rank check_header
    check_outcome rank_of advanced atomic_json make_root replace_journal journal_path digest
    canonical_json normalize_json_value normalize_nfc serialize decimal decimal_from sorted insert
    is_uuid eq_value eq_ℤ nodes
ended_run = refl

again_run :
    advance_task_journal sample_py (value_of end ended.0) "complete" none none tree
    ≡ (ok (value_of end again.0), again.1)
unfolding again ended advance_task_journal validate_fields check_identity phase_rank check_header
    check_outcome rank_of advanced atomic_json make_root replace_journal journal_path digest
    canonical_json normalize_json_value normalize_nfc serialize decimal decimal_from sorted insert
    is_uuid eq_value eq_ℤ nodes
again_run = refl

abbrev first_rank : ℕ
first_rank = 0

planned_rank : phase_rank planned ≡ ok first_rank
unfolding phase_rank
planned_rank = refl

History-forward_example :
    (get (value_of end moved.0) "task_id" ≡ get planned "task_id")
    × ((m : ℕ) × (phase_rank (value_of end moved.0) ≡ ok m) × (first_rank ≤ m))
History-forward_example =
    History-forward sample_py planned (value_of end moved.0) first_rank "task_id"
      (advanced_to planned (value_of end moved.0) "integration_committed" none none tree moved.1
        started moved_run)
      planned_rank refl

ended_complete : get (value_of end ended.0) "phase" ≡ text "complete"
unfolding ended advance_task_journal validate_fields check_identity phase_rank check_header
    check_outcome rank_of advanced atomic_json make_root replace_journal journal_path digest
    canonical_json normalize_json_value normalize_nfc serialize decimal decimal_from sorted insert
    is_uuid eq_value eq_ℤ nodes
ended_complete = refl

History-complete_example : get (value_of end again.0) "phase" ≡ text "complete"
History-complete_example =
    History-complete sample_py (value_of end ended.0) (value_of end again.0)
      (advanced_to (value_of end ended.0) (value_of end again.0) "complete" none none tree again.1
        started again_run)
      ended_complete

-- A journal of an admission.
abbrev admitting : Fields
admitting = planned_document sample_uuid "admit" sample_uuid "ref" header sample_digest

admitting_valid : validate_fields sample_py admitting none ≡ ok admitting
unfolding validate_fields check_identity phase_rank check_header check_outcome digest canonical_json
    normalize_json_value normalize_nfc serialize decimal decimal_from sorted insert is_uuid eq_value
    eq_ℤ
admitting_valid = refl

unfoldable payload : String
payload = value_of "" (canonical_json sample_py (obj (completed admitting "rolled-back")))

payload_run : canonical_json sample_py (obj (completed admitting "rolled-back")) ≡ ok payload
unfolding payload advanced canonical_json normalize_json_value normalize_nfc serialize decimal
    decimal_from sorted insert
payload_run = refl

the_path : journal_path sample_uuid ≡ ok file
unfolding journal_path is_uuid
the_path = refl

tree-IsWritable : IsWritable tree file
unfolding nodes
tree-IsWritable = record { mode = 493; root = refl; free = refl }

advance_task_journal-completes_example :
    (advance_task_journal sample_py admitting "complete" (some "rolled-back") none tree
      ≡ (ok (completed admitting "rolled-back"), with_journal file payload tree))
    × (get (completed admitting "rolled-back") "phase" ≡ text "complete")
    × (get (completed admitting "rolled-back") "outcome" ≡ text "rolled-back")
advance_task_journal-completes_example =
    advance_task_journal-completes sample_py admitting "admit" "planned" "rolled-back" sample_uuid
      file payload tree admitting_valid refl refl refl refl the_path tree-IsWritable payload_run

-- A parser of one document.
abbrev loads : String → Option Value
loads s = some (obj (value_of end moved.0))

read_task_journal-advanced_example :
    read_task_journal sample_py loads sample_uuid moved.1 ≡ ok (value_of end moved.0)
read_task_journal-advanced_example =
    read_task_journal-advanced sample_py loads planned "integration_committed" none none tree
      (value_of end moved.0) moved.1 sample_uuid (λ p h. refl) moved_run refl
