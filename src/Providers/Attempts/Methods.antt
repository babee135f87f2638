-- ===== src/Providers/Attempts/Methods.antt =====
-- The methods of `AttemptStore` in src/agent_stack/providers/attempts.py.
use agent_workflow_pack.Canonical.{canonical_null, normalize_json_value}
use agent_workflow_pack.Io.{Io, asks, lift, ◌>>=◌, ◌>>◌}
use agent_workflow_pack.Json.{
  Fields, Value, end, eq_value, field, get, list, mem_value, obj, put, text, update,
}
use agent_workflow_pack.Platform.{Platform}
use agent_workflow_pack.Prelude.{
  Bool, List, Option, String, [], any, false, if◌then◌else◌, mem, none, set, some, ℕ, ◌++◌, ◌==◌,
  ◌||◌, ◌∷◌,
}
use agent_workflow_pack.Providers.Attempts.{
  AttemptRecord, Node, Plan, Store, attempt_record, attempts_of, check_digest, check_digest_or_null,
  check_uuid, corrupt, find_from, irregular, is_live, json, listed_attempts, load, terminal_states,
  unreadable, validate_attempts,
}
use agent_workflow_pack.Providers.Attempts.Receipts.{
  check_effective, disagree, effective, validate_receipt,
}
use agent_workflow_pack.Result.{err, failure, ok, reject, require}

module _ (py : Platform) where
  -- `_write`: validation, then the atomic replacement of the file.
  unfoldable pub write : Fields → Io Store (Unit {0})
  write document = do
    lift (validate_attempts (get document "attempts"))
    v ← lift (normalize_json_value py (obj document))
    λ s. (ok tt, record s { journal = some (json v) })

  -- `_load_receipt`, after the check of the identity in its path.
  unfoldable pub load_receipt : String → Io Store (Option Fields)
  load_receipt attempt_id = do
    lift (check_uuid attempt_id)
    asks (λ s. elim (s.receipts attempt_id) [
      | none ↦ ok none
      | some node ↦ elim node [
        | irregular ↦ err (corrupt "release receipt is not a regular file")
        | unreadable ↦ err (corrupt "release receipt is corrupt")
        | json v ↦ elim v [
          | obj receipt ↦ ok (some receipt)
          | _ ↦ err (corrupt "release receipt must be an object")
        ]
      ]
    ])

  abbrev pub with_receipt : (String → Option Node) → String → Node → String → Option Node
  with_receipt receipts attempt_id node k = if k == attempt_id then some node else receipts k

  -- `_write_receipt`: the file is created only where none stands, and removed if writing it fails.
  unfoldable pub write_receipt : String → Fields → Io Store (Unit {0})
  write_receipt attempt_id receipt = do
    lift (check_uuid attempt_id)
    asks (λ s. elim (s.receipts attempt_id) [
      | none ↦ ok tt
      | some node ↦ err (corrupt "release receipt already exists")
    ])
    v ← lift (normalize_json_value py (obj receipt))
    λ s. (ok tt, record s { receipts = with_receipt s.receipts attempt_id (json v) })

abbrev pub repeats : String → String → Value → Bool
repeats attempt_id token (obj raw) =
    eq_value (get raw "attempt_id") (text attempt_id)
    || eq_value (get raw "release_token_digest") (text token)
repeats attempt_id token _ = false

-- The arguments of `prepare`.
pub record Preparation : Type 0 where
  pub attempt_id : String
  pub release_token_digest : String
  pub broker_liveness_identity : String
  pub prepared_at : String
  pub release_deadline : String
  pub command_digest : String
  pub isolation_measurements : Fields

abbrev pub prepared_attempt : Preparation → Fields
prepared_attempt a = field "attempt_id" (text a.attempt_id) (
    field "state" (text "prepared") (
      field "release_token_digest" (text a.release_token_digest) (
        field "broker_liveness_identity" (text a.broker_liveness_identity) (
          field "prepared_at" (text a.prepared_at) (
            field "release_deadline" (text a.release_deadline) (
              field "command_digest" (text a.command_digest)
                (field "isolation_measurements" (obj a.isolation_measurements) end)))))))

abbrev pub with_attempts : Fields → List Value → Fields
with_attempts document attempts = put "attempts" (list attempts) document

abbrev pub released_attempt : Fields → Fields → Fields
released_attempt attempt receipt =
    put "released_at" (get receipt "released_at") (put "state" (text "released") attempt)

module _ (py : Platform) (p : Plan) where
  unfoldable pub prepare : Preparation → Io Store AttemptRecord
  prepare a = do
    document ← asks (load p)
    attempts ← lift (attempts_of document)
    lift (reject (any is_live attempts) (corrupt "a provider attempt is already live or ambiguous"))
    lift (check_uuid a.attempt_id)
    lift (check_digest a.release_token_digest)
    lift (
        reject (any (repeats a.attempt_id a.release_token_digest) attempts)
          (corrupt "attempt id or release token repeats"))
    lift (reject (a.broker_liveness_identity == "") (corrupt "broker liveness identity is empty"))
    lift (check_digest a.command_digest)
    write py (with_attempts document (attempts ++ obj (prepared_attempt a) ∷ []))
    lift (attempt_record (prepared_attempt a))

  -- The last steps of each later method: replace the attempt at its index, write, and report it.
  unfoldable pub replace_attempt : Fields → List Value → ℕ → Fields → Io Store AttemptRecord
  replace_attempt document attempts index changed = do
    write py (with_attempts document (set attempts index (obj changed)))
    lift (attempt_record changed)

  -- The receipt on disk is created, or it is the one that the broker acknowledges.
  abbrev pub settle_receipt : String → Fields → Option Fields → Io Store (Unit {0})
  settle_receipt attempt_id receipt none = write_receipt py attempt_id receipt
  settle_receipt attempt_id receipt (some stored) = lift (
      require (eq_value (obj stored) (obj receipt))
        (corrupt "stored release receipt disagrees with broker acknowledgement"))

  unfoldable pub record_released : String → Fields → Io Store AttemptRecord
  record_released attempt_id receipt = do
    document ← asks (load p)
    attempts ← lift (listed_attempts document)
    found ← lift (find_from 0 attempts attempt_id)
    lift (
        require (eq_value (get found.1 "state") (text "prepared"))
          (corrupt "only a prepared attempt may become released"))
    lift (validate_receipt p found.1 receipt)
    stored ← load_receipt py attempt_id
    settle_receipt attempt_id receipt stored
    replace_attempt document attempts found.0 (released_attempt found.1 receipt)

  unfoldable pub get_attempt : String → Io Store AttemptRecord
  get_attempt attempt_id = do
    document ← asks (load p)
    attempts ← lift (listed_attempts document)
    found ← lift (find_from 0 attempts attempt_id)
    lift (attempt_record found.1)

-- The arguments of `record_terminal`.
pub record Outcome : Type 0 where
  pub state : String
  pub terminal_at : String
  pub result_category : String
  pub sanitized_output_digest : String
  pub candidate_output_digest : String

abbrev pub terminal_attempt : Fields → Outcome → Fields
terminal_attempt attempt o = update attempt (
    field "state" (text o.state) (
      field "terminal_at" (text o.terminal_at) (
        field "result_category" (text o.result_category) (
          field "sanitized_output_digest" (text o.sanitized_output_digest)
            (field "candidate_output_digest" (text o.candidate_output_digest) end)))))

abbrev pub interruption : String → Outcome
interruption recorded_at = record {
  state = "interrupted";
  terminal_at = recorded_at;
  result_category = "interrupted";
  sanitized_output_digest = canonical_null;
  candidate_output_digest = canonical_null;
}

module _ (py : Platform) (p : Plan) where
  unfoldable pub record_terminal : String → Outcome → Io Store AttemptRecord
  record_terminal attempt_id o = do
    lift (require (mem o.state terminal_states) (corrupt "terminal attempt state is invalid"))
    document ← asks (load p)
    attempts ← lift (listed_attempts document)
    found ← lift (find_from 0 attempts attempt_id)
    lift (
        require (eq_value (get found.1 "state") (text "released"))
          (corrupt "only a released attempt may record a provider result"))
    lift (check_digest o.sanitized_output_digest)
    lift (check_digest_or_null o.candidate_output_digest)
    replace_attempt py p document attempts found.0 (terminal_attempt found.1 o)

  abbrev pub interrupt :
      String → Option Fields → String → Fields → List Value → ℕ × Fields → Io Store AttemptRecord
  interrupt attempt_id receipt recorded_at document attempts found = do
    stored ← load_receipt py attempt_id
    lift
        (reject (disagree receipt stored) (corrupt "supplied and stored release receipts disagree"))
    lift (check_effective p found.1 (effective receipt stored) stored)
    replace_attempt py p document attempts found.0
        (terminal_attempt found.1 (interruption recorded_at))

  -- An attempt that has ended is reported as it is.
  unfoldable pub recover_interrupted :
      String → String → Option Fields → String → Io Store AttemptRecord
  recover_interrupted attempt_id containment_state receipt recorded_at = do
    lift (
        reject (mem containment_state ("live" ∷ "ambiguous" ∷ [])) (
          failure "AWP_PROVIDER_CONTAINMENT_AMBIGUOUS"
            "prior provider containment is still live or ambiguous"))
    lift (require (containment_state == "gone") (corrupt "containment liveness state is invalid"))
    document ← asks (load p)
    attempts ← lift (listed_attempts document)
    found ← lift (find_from 0 attempts attempt_id)
    if mem_value (get found.1 "state") terminal_states
        then lift (attempt_record found.1)
        else interrupt attempt_id receipt recorded_at document attempts found
