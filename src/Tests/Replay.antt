-- ===== src/Tests/Replay.antt =====
-- Runs of runtime/replay.py and of the compare-and-swap below it.
use agent_workflow_pack.Canonical.{
  canonical_json, normalize_json_value, normalize_mode, normalize_nfc, normalize_path, serialize,
}
use agent_workflow_pack.Canonical.Chars.{decimal, decimal_from, join, split}
use agent_workflow_pack.Ident.{is_sha256, is_uuid}
use agent_workflow_pack.Json.{
  Fields, Value, end, eq_value, eq_ℤ, field, get, is_null, null, num, obj, text,
}
use agent_workflow_pack.Prelude.{
  Option, String, false, if◌then◌else◌, none, refl, some, true, ℕ, ◌==◌, ◌||◌, ◌≡◌, ◌⊎◌,
}
use agent_workflow_pack.Prelude.Sort.{insert, sorted}
use agent_workflow_pack.Reconcile.Cas.{assert_state, compare_and_swap, replace_file}
use agent_workflow_pack.Reconcile.Cas.Laws.{OnlyAt, Seen, compare_and_swap-ok}
use agent_workflow_pack.Reconcile.Files.{
  FileNode, FileState, Tree, absent, directory, observe_file_state, regular, same_state,
  state_document, state_of, target,
}
use agent_workflow_pack.Result.{Result, ok}
use agent_workflow_pack.Runtime.Replay.{
  Clock, ReplayEntry, candidate_state, check_ledger, entry_of, load_ledger, parse_time,
  proof_key_of, replay_path,
}
use agent_workflow_pack.Runtime.Replay.Laws.{consume_proof-ok, reserve_proof-ok}
use agent_workflow_pack.Runtime.Replay.Ledger.{
  Loaded, Reservation, consume_proof, consumed_entry, create_entry, reserve_proof, settle_entry,
  store_ledger, write_entry,
}
use agent_workflow_pack.Runtime.Replay.Writes.{Kept}
use agent_workflow_pack.Tests.Samples.{other_uuid, sample_digest, sample_py, sample_uuid, value_of}

abbrev entry_json : Value
entry_json = obj (
    field "bound_transaction_id" (text other_uuid) (
      field "state" (text "reserved") (
        field "validated_at" (text "1Z")
          (field "proof_expires_at" (text "1Z") (field "consumed_at" null end)))))

abbrev ledger : Fields → Fields
ledger entries_ = field "schema_id" (text "agent-workflow.approval-replay") (
    field "schema_version" (num 1) (
      field "project_id" (text sample_uuid)
        (field "workspace_instance_id" (text sample_uuid) (field "entries" (obj entries_) end))))

abbrev held : Fields
held = field sample_digest entry_json end

-- A clock that always shows the same time, and a parser of one document.
abbrev clock_of : Fields → Clock
clock_of entries_ = record {
  json_loads = λ s. some (obj (ledger entries_));
  from_isoformat = λ s. some 5;
  isoformat = λ t. "1Z";
}

unfoldable content_for : Fields → String
content_for entries_ = value_of "" (canonical_json sample_py (obj (ledger entries_)))

unfoldable nodes : Fields → String → FileNode
nodes entries_ path =
    if path == replay_path
    then regular 384 (content_for entries_)
    else (if path == ".agent-workflow" || path == ".agent-workflow/local"
        then directory 448
        else absent)

abbrev tree : Fields → Tree
tree entries_ = record { real_root = true; node = nodes entries_ }

abbrev reservation : Reservation
reservation = record {
  project_id = sample_uuid;
  workspace_instance_id = sample_uuid;
  approval_id = sample_uuid;
  approval_challenge = sample_digest;
  route_decision_digest = sample_digest;
  transaction_id = other_uuid;
  validated_at = some 5;
  proof_expires_at = some 5;
  now = some 5;
  recovery = false;
}

abbrev no_entry : ReplayEntry
no_entry = record {
  proof_key = "";
  bound_transaction_id = "";
  state = "";
  validated_at = "";
  proof_expires_at = "";
  consumed_at = none;
}

unfoldable reserved : Result ReplayEntry × Tree
reserved = reserve_proof sample_py (clock_of end) reservation (tree end)

unfoldable consumed : Result ReplayEntry × Tree
consumed = consume_proof sample_py (clock_of held) sample_digest other_uuid (some 6) (tree held)

reserved_run :
    reserve_proof sample_py (clock_of end) reservation (tree end)
    ≡ (ok (value_of no_entry reserved.0), reserved.1)
unfolding reserved reserve_proof settle_entry create_entry write_entry store_ledger compare_and_swap
    replace_file assert_state same_state state_document observe_file_state state_of target
    load_ledger check_ledger candidate_state proof_key_of parse_time entry_of canonical_json
    normalize_json_value normalize_nfc normalize_path normalize_mode serialize decimal decimal_from
    sorted insert split join is_uuid is_sha256 eq_value eq_ℤ nodes content_for
reserved_run = refl

consumed_run :
    consume_proof sample_py (clock_of held) sample_digest other_uuid (some 6) (tree held)
    ≡ (ok (value_of no_entry consumed.0), consumed.1)
unfolding consumed consume_proof write_entry store_ledger compare_and_swap replace_file assert_state
    same_state state_document observe_file_state state_of target load_ledger check_ledger
    candidate_state parse_time entry_of canonical_json normalize_json_value normalize_nfc
    normalize_path normalize_mode serialize decimal decimal_from sorted insert split join is_uuid
    is_sha256 eq_value eq_ℤ nodes content_for
consumed_run = refl

reserve_proof-ok_example :
    (loaded : Loaded) × (proof_key_of sample_py sample_uuid sample_digest sample_digest sample_uuid
      ≡ ok (value_of no_entry reserved.0).proof_key)
    × (load_ledger sample_py (clock_of end) (some sample_uuid) (some sample_uuid) (tree end)
        ≡ ok loaded)
    × ((value_of no_entry reserved.0).bound_transaction_id ≡ reservation.transaction_id)
    × ((value_of no_entry reserved.0).state ≡ "reserved")
    × (((entry_of
              (clock_of end)
              (value_of no_entry reserved.0).proof_key
              (get loaded.0.1 (value_of no_entry reserved.0).proof_key)
            ≡ ok (value_of no_entry reserved.0))
          × (reserved.1 ≡ tree end))
        ⊎ ((is_null (get loaded.0.1 (value_of no_entry reserved.0).proof_key) ≡ true)
            × Seen sample_py loaded.1.managed_block_hash loaded.1 (tree end)))
reserve_proof-ok_example =
    reserve_proof-ok sample_py (clock_of end) reservation (tree end) reserved_run

abbrev the_uuid : String
the_uuid = other_uuid

consume_proof-ok_example :
    (loaded : Loaded) × (found : ReplayEntry) × (load_ledger sample_py
        (clock_of held)
        none
        none
        (tree held)
      ≡ ok loaded)
    × (entry_of (clock_of held) sample_digest (get loaded.0.1 sample_digest) ≡ ok found)
    × (found.bound_transaction_id ≡ the_uuid)
    × ((value_of no_entry consumed.0).state ≡ "consumed")
    × (((found.state ≡ "consumed")
          × (value_of no_entry consumed.0 ≡ found)
          × (consumed.1 ≡ tree held))
        ⊎ ((t : ℕ) × (◌≡◌ {A = Option ℕ} (some 6) (some t))
            × (found.state ≡ "reserved")
            × (value_of no_entry consumed.0 ≡ consumed_entry sample_py (clock_of held) found t)
            × Seen sample_py loaded.1.managed_block_hash loaded.1 (tree held)
            × Kept sample_py
                (clock_of held)
                (value_of no_entry consumed.0)
                loaded
                (tree held)
                consumed.1))
consume_proof-ok_example =
    consume_proof-ok sample_py (clock_of held) sample_digest the_uuid (some 6) (tree held)
      consumed_run

abbrev expected : FileState
expected = record {
  path = replay_path;
  present_ = true;
  file_type = "regular";
  byte_hash = sample_digest;
  mode = "0600";
  non_symlink = true;
  managed_block_hash = "canonical-null";
}

unfoldable swapped : Result FileState × Tree
swapped = compare_and_swap sample_py expected expected (some "{}") (tree end)

swapped_run :
    compare_and_swap sample_py expected expected (some "{}") (tree end)
    ≡ (ok (value_of expected swapped.0), swapped.1)
unfolding swapped compare_and_swap replace_file assert_state same_state state_document
    observe_file_state state_of target normalize_nfc normalize_path normalize_mode split join
    eq_value eq_ℤ nodes
swapped_run = refl

compare_and_swap-ok_example :
    (path : String) × (managed : String) × (target sample_py (tree end) replay_path ≡ ok path)
    × Seen sample_py "canonical-null" expected (tree end)
    × (observe_file_state sample_py replay_path managed swapped.1
        ≡ ok (value_of expected swapped.0))
    × (same_state sample_py (value_of expected swapped.0) expected ≡ true)
    × OnlyAt path (tree end) swapped.1
compare_and_swap-ok_example =
    compare_and_swap-ok sample_py expected expected (some "{}") (tree end) swapped_run
