-- ===== src/Tests/Attempts.antt =====
-- Runs of providers/attempts.py: one attempt from its preparation to its end.
use agent_workflow_pack.Canonical.{normalize_json_value, normalize_nfc}
use agent_workflow_pack.Ident.{is_sha256, is_uuid}
use agent_workflow_pack.Json.{Fields, Value, end, eq_value, eq_ℤ, list, obj, put, text}
use agent_workflow_pack.Prelude.{
  List, String, [], all, any, false, mem, no_repeat, none, refl, true, ◌++◌, ◌↔◌, ◌∷◌, ◌≡◌, ◌≤◌,
  ◌⊎◌,
}
use agent_workflow_pack.Providers.Attempts.{
  AttemptRecord, Plan, Store, attempt_record, attempts_of, check_journal, corrupt, empty_journal,
  find_from, is_live, load, str_of, terminal_states, validate_attempts, validate_from,
}
use agent_workflow_pack.Providers.Attempts.Methods.{
  Outcome, Preparation, load_receipt, prepare, prepared_attempt, record_released, record_terminal,
  recover_interrupted, replace_attempt, write, write_receipt,
}
use agent_workflow_pack.Providers.Attempts.Moves.{Advanced}
use agent_workflow_pack.Providers.Attempts.Progress.{
  record_released-Advanced, record_terminal-Advanced,
}
use agent_workflow_pack.Providers.Attempts.Receipts.{expected_receipt, validate_receipt}
use agent_workflow_pack.Providers.Attempts.Recovery.{
  HasEnded, Interrupted, prepare-appends, recover_interrupted-Advanced,
}
use agent_workflow_pack.Providers.Attempts.Steps.{Written}
use agent_workflow_pack.Providers.Attempts.Validate.{
  ids_of, live_count, tokens_of, validate_attempts_iff, well_formed,
}
use agent_workflow_pack.Providers.Attempts.Write.{prepare_atomic}
use agent_workflow_pack.Result.{Result, err, ok}
use agent_workflow_pack.Tests.Samples.{other_uuid, sample_digest, sample_py, sample_uuid, value_of}

abbrev plan : Plan
plan = record {
  workspace_instance_id = sample_uuid;
  provider_plan_digest = sample_digest;
  prospective_transaction_id = other_uuid;
  approval_digest = "canonical-null";
}

abbrev nothing : Store
nothing = record { journal = none; receipts = λ k. none }

abbrev preparation : Preparation
preparation = record {
  attempt_id = other_uuid;
  release_token_digest = sample_digest;
  broker_liveness_identity = "broker";
  prepared_at = "t0";
  release_deadline = "t1";
  command_digest = sample_digest;
  isolation_measurements = end;
}

abbrev receipt : Fields
receipt = put "released_at" (text "t2") (expected_receipt plan (prepared_attempt preparation))

abbrev gone : String
gone = "gone"

abbrev outcome : Outcome
outcome = record {
  state = "succeeded";
  terminal_at = "t3";
  result_category = "success";
  sanitized_output_digest = sample_digest;
  candidate_output_digest = "canonical-null";
}

abbrev no_record : AttemptRecord
no_record = record {
  attempt_id = "";
  state = "";
  release_token_digest = "";
  broker_liveness_identity = "";
  document = end;
}

-- The store that a method leaves, and the record that it returns.
abbrev reported : Result AttemptRecord × Store → AttemptRecord
reported r = value_of no_record r.0

unfoldable prepared : Result AttemptRecord × Store
prepared = prepare sample_py plan preparation nothing

unfoldable released : Result AttemptRecord × Store
released = record_released sample_py plan other_uuid receipt prepared.1

unfoldable finished : Result AttemptRecord × Store
finished = record_terminal sample_py plan other_uuid outcome released.1

unfoldable recovered : Result AttemptRecord × Store
recovered = recover_interrupted sample_py plan other_uuid "gone" none "t4" released.1

prepared_run : prepare sample_py plan preparation nothing ≡ (ok (reported prepared), prepared.1)
unfolding prepared prepare write load check_journal validate_attempts validate_from str_of
    attempt_record empty_journal normalize_json_value normalize_nfc is_uuid is_sha256
prepared_run = refl

released_run :
    record_released sample_py plan other_uuid receipt prepared.1
    ≡ (ok (reported released), released.1)
unfolding released prepared record_released replace_attempt validate_receipt load_receipt
    write_receipt find_from prepare write load check_journal validate_attempts validate_from str_of
    attempt_record empty_journal normalize_json_value normalize_nfc is_uuid is_sha256 eq_value eq_ℤ
released_run = refl

finished_run :
    record_terminal sample_py plan other_uuid outcome released.1
    ≡ (ok (reported finished), finished.1)
unfolding finished released prepared record_terminal record_released replace_attempt
    validate_receipt load_receipt write_receipt find_from prepare write load check_journal
    validate_attempts validate_from str_of attempt_record empty_journal normalize_json_value
    normalize_nfc is_uuid is_sha256 eq_value eq_ℤ
finished_run = refl

recovered_run :
    recover_interrupted sample_py plan other_uuid "gone" none "t4" released.1
    ≡ (ok (reported recovered), recovered.1)
unfolding recovered released prepared recover_interrupted record_released replace_attempt
    validate_receipt load_receipt write_receipt find_from prepare write load check_journal
    validate_attempts validate_from str_of attempt_record empty_journal normalize_json_value
    normalize_nfc is_uuid is_sha256 eq_value eq_ℤ
recovered_run = refl

prepare-appends_example :
    (before : List Value) × (any is_live before ≡ false)
    × Written sample_py plan nothing prepared.1 before
        (before ++ obj (prepared_attempt preparation) ∷ [])
prepare-appends_example = prepare-appends sample_py plan nothing preparation prepared_run

record_released-Advanced_example :
    (before : List Value) × (after : List Value) × Written sample_py plan prepared.1 released.1
      before after
    × Advanced before after other_uuid (text "prepared") (text "released")
record_released-Advanced_example =
    record_released-Advanced sample_py plan prepared.1 other_uuid receipt released_run

record_terminal-Advanced_example :
    (before : List Value) × (after : List Value) × Written sample_py plan released.1 finished.1
      before after
    × Advanced before after other_uuid (text "released") (text "succeeded")
    × (mem "succeeded" terminal_states ≡ true)
record_terminal-Advanced_example =
    record_terminal-Advanced sample_py plan released.1 other_uuid outcome finished_run

recover_interrupted-Advanced_example :
    (gone ≡ "gone")
    × ((document : Fields) × (before : List Value) × (load plan released.1 ≡ ok document)
        × (attempts_of document ≡ ok before)
        × (((recovered.1 ≡ released.1) × HasEnded before other_uuid)
            ⊎ Interrupted sample_py plan released.1 before other_uuid recovered.1))
recover_interrupted-Advanced_example =
    recover_interrupted-Advanced sample_py plan released.1 other_uuid "gone" none "t4" recovered_run

validate_attempts_iff_example :
    (validate_attempts (list (obj (prepared_attempt preparation) ∷ [])) ≡ ok tt) ↔ (
      (all well_formed (obj (prepared_attempt preparation) ∷ []) ≡ true)
      × (no_repeat (ids_of (obj (prepared_attempt preparation) ∷ [])) ≡ true)
      × (no_repeat (tokens_of (obj (prepared_attempt preparation) ∷ [])) ≡ true)
      × (live_count (obj (prepared_attempt preparation) ∷ []) ≤ 1))
validate_attempts_iff_example = validate_attempts_iff (obj (prepared_attempt preparation) ∷ [])

-- A second preparation while the first attempt is live.
second_run :
    (prepare sample_py plan preparation prepared.1).0
    ≡ err (corrupt "a provider attempt is already live or ambiguous")
unfolding prepared prepare write load check_journal validate_attempts validate_from str_of
    attempt_record empty_journal normalize_json_value normalize_nfc is_uuid is_sha256 eq_value eq_ℤ
second_run = refl

prepare_atomic_example : (prepare sample_py plan preparation prepared.1).1 ≡ prepared.1
prepare_atomic_example =
    prepare_atomic sample_py plan preparation prepared.1
      (corrupt "a provider attempt is already live or ambiguous") second_run
