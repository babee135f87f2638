-- ===== src/Runtime/Replay/Ledger.antt =====
-- `reserve_proof` and `consume_proof` of src/agent_stack/runtime/replay.py, over the files of the root.
use Prim.Native.Char.{code}
use agent_workflow_pack.Canonical.{canonical_json}
use agent_workflow_pack.Io.{Io, asks, lift, pure, ◌>>=◌, ◌>>◌}
use agent_workflow_pack.Json.{Fields, Value, get, is_null, obj}
use agent_workflow_pack.Platform.{Platform}
use agent_workflow_pack.Prelude.{
  Bool, Option, String, if◌then◌else◌, ltb, none, not, some, ℕ, ◌&&◌, ◌==◌, ◌||◌,
}
use agent_workflow_pack.Reconcile.Cas.{compare_and_swap}
use agent_workflow_pack.Reconcile.Files.{FileState, Tree}
use agent_workflow_pack.Result.{Exn, Result, err, failure, ok, reject, require, value_error}
use agent_workflow_pack.Runtime.Replay.{
  Clock, ReplayEntry, candidate_state, canonical_uuid, entry_of, load_ledger, proof_key_of,
  replay_failure, same_entry, sha256_text, utc, with_entry,
}

-- `except ValueError`: every failure of the program is a ValueError.
abbrev pub recast : Exn → Exn → Exn
recast (failure code message) e = e
recast value_error e = e
recast x e = x

abbrev pub recast_result : {A : Type 0} → Result A → Exn → Result A
recast_result (ok a) e = ok a
recast_result (err x) e = err (recast x e)

abbrev pub rethrow : {A : Type 0} → Io Tree A → Exn → Io Tree A
rethrow m e tree = (recast_result (m tree).0 e, (m tree).1)

-- A proof that is put forward for reservation.
pub record Reservation : Type 0 where
  pub project_id : String
  pub workspace_instance_id : String
  pub approval_id : String
  pub approval_challenge : String
  pub route_decision_digest : String
  pub transaction_id : String
  pub validated_at : Option ℕ
  pub proof_expires_at : Option ℕ
  pub now : Option ℕ
  pub recovery : Bool

abbrev pub Loaded : Type 0
Loaded = (Fields × Fields) × FileState

module _ (py : Platform) (clock : Clock) where
  -- `_store`
  unfoldable pub store_ledger : FileState → Fields → Io Tree (Unit {0})
  store_ledger before document = do
    payload ← lift (canonical_json py (obj document))
    _ ←
        rethrow
          (compare_and_swap py before (candidate_state py clock before payload) (some payload))
          (replay_failure "approval replay ledger changed during CAS")
    pure tt

  abbrev pub reserved_entry : String → String → ℕ → ℕ → ReplayEntry
  reserved_entry key transaction validated expires = record {
    proof_key = key;
    bound_transaction_id = transaction;
    state = "reserved";
    validated_at = clock.isoformat validated;
    proof_expires_at = clock.isoformat expires;
    consumed_at = none;
  }

  -- An entry that is there already has to be the very one asked for.
  unfoldable pub repeat_entry : ReplayEntry → Value → Io Tree ReplayEntry
  repeat_entry expected existing = do
    entry ← lift (entry_of clock expected.proof_key existing)
    lift (
        require (same_entry entry expected)
          (replay_failure "approval proof is rebound or already consumed"))
    pure entry

  unfoldable pub write_entry : ReplayEntry → Loaded → Io Tree ReplayEntry
  write_entry e loaded = do store_ledger loaded.1 (with_entry loaded.0.0 loaded.0.1 e); pure e

  -- A new entry has to be in time, unless it recovers a transaction.
  unfoldable pub create_entry : Bool → ReplayEntry → Loaded → Io Tree ReplayEntry
  create_entry late e loaded = do
    lift (reject late (replay_failure "approval proof is expired or not yet valid"))
    write_entry e loaded

  -- `existing = entries.get(key)`, and its two branches
  unfoldable pub settle_entry : Bool → ReplayEntry → Loaded → Io Tree ReplayEntry
  settle_entry late e loaded =
      if is_null (get loaded.0.1 e.proof_key)
      then create_entry late e loaded
      else repeat_entry e (get loaded.0.1 e.proof_key)

  unfoldable pub reserve_proof : Reservation → Io Tree ReplayEntry
  reserve_proof r = do
    transaction ← lift (canonical_uuid r.transaction_id)
    validated ← lift (utc r.validated_at)
    expires ← lift (utc r.proof_expires_at)
    now ← lift (utc r.now)
    lift (
        reject (ltb expires validated)
          (replay_failure "approval proof expires before successful validation"))
    key ← lift (
        proof_key_of py r.approval_id r.approval_challenge r.route_decision_digest
          r.workspace_instance_id)
    loaded ← asks (load_ledger py clock (some r.project_id) (some r.workspace_instance_id))
    settle_entry (not r.recovery && (ltb now validated || ltb expires now))
        (reserved_entry key transaction validated expires) loaded

  abbrev pub consumed_entry : ReplayEntry → ℕ → ReplayEntry
  consumed_entry e consumed = record e {
    state = "consumed";
    consumed_at = some (clock.isoformat consumed);
  }

  unfoldable pub consume_proof : String → String → Option ℕ → Io Tree ReplayEntry
  consume_proof proof_key transaction_id consumed_at = do
    key ← lift (sha256_text proof_key)
    transaction ← lift (canonical_uuid transaction_id)
    consumed ← lift (utc consumed_at)
    loaded ← asks (load_ledger py clock none none)
    lift (
        reject (is_null (get loaded.0.1 key))
          (replay_failure "approval proof has no reserved state"))
    entry ← lift (entry_of clock key (get loaded.0.1 key))
    lift (
        require (entry.bound_transaction_id == transaction)
          (replay_failure "approval proof belongs to another transaction"))
    if entry.state == "consumed"
        then pure entry
        else write_entry (consumed_entry entry consumed) loaded
