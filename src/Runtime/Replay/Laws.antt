-- ===== src/Runtime/Replay/Laws.antt =====
-- What the methods of src/agent_stack/runtime/replay.py that succeed have done with a proof.
use agent_workflow_pack.Ident.{is_sha256, is_uuid}
use agent_workflow_pack.Io.{lift-ok, pure}
use agent_workflow_pack.Json.{get, is_null}
use agent_workflow_pack.Platform.{Platform}
use agent_workflow_pack.Prelude.{
  Bool, Option, String, ap, arith, eq_iff, false, if◌then◌else◌, inl, inr, ltb, none, not, refl,
  some, subst, sym, true, ℕ, ◌&&◌, ◌==◌, ◌||◌, ◌∙◌, ◌≡◌, ◌⊎◌,
}
use agent_workflow_pack.Reconcile.Cas.Laws.{Seen}
use agent_workflow_pack.Reconcile.Files.{Tree}
use agent_workflow_pack.Result.{Result, ok, ok-injective, reject, require}
use agent_workflow_pack.Runtime.Replay.{
  Clock, ReplayEntry, canonical_uuid, entry_of, load_ledger, proof_key_of, same_entry, sha256_text,
  utc,
}
use agent_workflow_pack.Runtime.Replay.Ledger.{
  Loaded, Reservation, consume_proof, consumed_entry, create_entry, repeat_entry, reserve_proof,
  reserved_entry, settle_entry, write_entry,
}
use agent_workflow_pack.Runtime.Replay.Writes.{
  Kept, checked, entry_of-state, still_reserved, utc-ok, write_entry-ok,
}

module _ (py : Platform) (clock : Clock) where
  consume_step :
      (b : Bool) (found : ReplayEntry) (t : ℕ) (loaded : Loaded) (s : Tree) {e : ReplayEntry}
      {s' : Tree}
      → (found.state == "consumed") ≡ b
      → (if b then pure found else write_entry py clock (consumed_entry py clock found t) loaded) s
        ≡ (ok e, s')
      → (e.state ≡ "consumed")
        × (((found.state ≡ "consumed") × (e ≡ found) × (s' ≡ s))
            ⊎ (((found.state == "consumed") ≡ false)
                × (e ≡ consumed_entry py clock found t)
                × Seen py loaded.1.managed_block_hash loaded.1 s
                × Kept py clock e loaded s s'))
  consume_step true found t loaded s consumed h =
      let same = ok-injective (ap (λ (x : Result ReplayEntry × Tree). x.0) h) in
      let ended = (eq_iff found.state "consumed").0 consumed in
      (
        ap (λ (x : ReplayEntry). x.state) (sym same) ∙ ended,
        inl (ended, sym same, sym (ap (λ (x : Result ReplayEntry × Tree). x.1) h)),
      )
  consume_step false found t loaded s {e} {s'} consumed h =
      let (same, seen, kept) =
        write_entry-ok py clock (consumed_entry py clock found t) loaded s h in
      (
        ap (λ (x : ReplayEntry). x.state) same,
        inr (consumed, same, seen, subst (λ x. Kept py clock x loaded s s') (sym same) kept),
      )

  -- A consumption that succeeds returns the entry of its own transaction, in the state "consumed". The
  -- entry was consumed already and nothing changes, or it was reserved, what is returned differs from it
  -- in the state and the time of consumption only, and the ledger's file, which was still in the state in
  -- which it had been read, now holds that entry beside the others as they were.
  pub consume_proof-ok :
      (proof_key transaction_id : String) (consumed_at : Option ℕ) (s : Tree) {e : ReplayEntry}
      {s' : Tree}
      → consume_proof py clock proof_key transaction_id consumed_at s ≡ (ok e, s')
      → (loaded : Loaded) × (found : ReplayEntry) × (load_ledger py clock none none s ≡ ok loaded)
        × (entry_of clock proof_key (get loaded.0.1 proof_key) ≡ ok found)
        × (found.bound_transaction_id ≡ transaction_id)
        × (e.state ≡ "consumed")
        × (((found.state ≡ "consumed") × (e ≡ found) × (s' ≡ s))
            ⊎ ((t : ℕ) × (consumed_at ≡ some t)
                × (found.state ≡ "reserved")
                × (e ≡ consumed_entry py clock found t)
                × Seen py loaded.1.managed_block_hash loaded.1 s
                × Kept py clock e loaded s s'))
  unfolding consume_proof
  consume_proof-ok proof_key transaction_id consumed_at s {e} {s'} h =
      let (key, key_ok, h₁) = lift-ok (sha256_text proof_key) _ s h in
      let (transaction, transaction_ok, h₂) = lift-ok (canonical_uuid transaction_id) _ s h₁ in
      let (t, time_ok, h₃) = lift-ok (utc consumed_at) _ s h₂ in
      let (loaded, load_ok, h₄) = lift-ok (load_ledger py clock none none s) _ s h₃ in
      let (_, _, h₅) = lift-ok (reject (is_null (get loaded.0.1 key)) _) _ s h₄ in
      let (found, entry_ok, h₆) = lift-ok (entry_of clock key (get loaded.0.1 key)) _ s h₅ in
      let (_, owner, h₇) = lift-ok (require (found.bound_transaction_id == transaction) _) _ s h₆ in
      let (_, same_key) = checked (is_sha256 proof_key) proof_key key _ key_ok in
      let (_, same_transaction) =
        checked (is_uuid transaction_id) transaction_id transaction _ transaction_ok in
      let (state, cases) = consume_step (found.state == "consumed") found t loaded s refl h₇ in
      (
        loaded,
        found,
        load_ok,
        subst (λ k. entry_of clock k (get loaded.0.1 k) ≡ ok found) same_key entry_ok,
        (eq_iff found.bound_transaction_id transaction).0 (ground (arith, owner))
            ∙ same_transaction,
        state,
        elim cases [
          | inl done ↦ inl done
          | inr (open_, same, seen, kept) ↦ inr (
            t,
            utc-ok consumed_at t time_ok,
            still_reserved found.state
                (entry_of-state clock key (get loaded.0.1 key) found entry_ok) open_,
            same,
            seen,
            kept,
          )
        ],
      )

  same_entry-fields :
      (d : ReplayEntry) (key transaction : String) (validated expires : ℕ)
      → same_entry d (reserved_entry py clock key transaction validated expires) ≡ true
      → (d.proof_key ≡ key) × (d.bound_transaction_id ≡ transaction) × (d.state ≡ "reserved")
  unfolding same_entry
  same_entry-fields d key transaction validated expires h = ground (
    arith,
    eq_iff d.proof_key key,
    eq_iff d.bound_transaction_id transaction,
    eq_iff d.state "reserved",
  )

  reserve_step :
      (b late : Bool) (key transaction : String) (validated expires : ℕ) (loaded : Loaded)
      (s : Tree) {e : ReplayEntry} {s' : Tree}
      → is_null (get loaded.0.1 key) ≡ b
      → (if b
            then create_entry py clock late
                (reserved_entry py clock key transaction validated expires)
                loaded
            else repeat_entry py clock
                (reserved_entry py clock key transaction validated expires)
                (get loaded.0.1 key))
          s
        ≡ (ok e, s')
      → (e.proof_key ≡ key)
        × (e.bound_transaction_id ≡ transaction)
        × (e.state ≡ "reserved")
        × (((entry_of clock key (get loaded.0.1 key) ≡ ok e) × (s' ≡ s))
            ⊎ ((is_null (get loaded.0.1 key) ≡ true)
                × (late ≡ false)
                × Seen py loaded.1.managed_block_hash loaded.1 s))
  unfolding create_entry repeat_entry
  reserve_step true late key transaction validated expires loaded s new h =
      let wanted = reserved_entry py clock key transaction validated expires in
      let (_, on_time, h₁) = lift-ok (reject late _) _ s h in
      let (same, seen, _) = write_entry-ok py clock wanted loaded s h₁ in
      (
        ap (λ (x : ReplayEntry). x.proof_key) same,
        ap (λ (x : ReplayEntry). x.bound_transaction_id) same,
        ap (λ (x : ReplayEntry). x.state) same,
        inr (new, ground (arith, on_time), seen),
      )
  reserve_step false late key transaction validated expires loaded s old h =
      let (d, entry_ok, h₁) = lift-ok (entry_of clock key (get loaded.0.1 key)) _ s h in
      let (_, same, h₂) =
        lift-ok
          (require (same_entry d (reserved_entry py clock key transaction validated expires)) _) _ s
          h₁ in
      let here = ok-injective (ap (λ (x : Result ReplayEntry × Tree). x.0) h₂) in
      let (k, t, state) =
        same_entry-fields d key transaction validated expires (ground (arith, same)) in
      (
        subst (λ (x : ReplayEntry). x.proof_key ≡ key) here k,
        subst (λ (x : ReplayEntry). x.bound_transaction_id ≡ transaction) here t,
        subst (λ (x : ReplayEntry). x.state ≡ "reserved") here state,
        inl (entry_ok ∙ ap ok here, sym (ap (λ (x : Result ReplayEntry × Tree). x.1) h₂)),
      )

  settle_entry-ok :
      (late : Bool) (key transaction : String) (validated expires : ℕ) (loaded : Loaded) (s : Tree)
      {e : ReplayEntry} {s' : Tree}
      → settle_entry py clock late
          (reserved_entry py clock key transaction validated expires)
          loaded
          s
        ≡ (ok e, s')
      → (e.proof_key ≡ key)
        × (e.bound_transaction_id ≡ transaction)
        × (e.state ≡ "reserved")
        × (((entry_of clock e.proof_key (get loaded.0.1 e.proof_key) ≡ ok e) × (s' ≡ s))
            ⊎ ((is_null (get loaded.0.1 e.proof_key) ≡ true)
                × Seen py loaded.1.managed_block_hash loaded.1 s))
  unfolding settle_entry
  settle_entry-ok late key transaction validated expires loaded s {e} {s'} h =
      let (same_key, bound, state, cases) =
        reserve_step (is_null (get loaded.0.1 key)) late key transaction validated expires loaded s
          refl h in
      (
        same_key,
        bound,
        state,
        elim cases [
          | inl (there, still) ↦
              inl (
                subst (λ k. entry_of clock k (get loaded.0.1 k) ≡ ok e) (sym same_key) there,
                still,
              )
          | inr (new, _, seen) ↦
              inr (subst (λ k. is_null (get loaded.0.1 k) ≡ true) (sym same_key) new, seen)
        ],
      )

  -- A reservation that succeeds returns a reserved entry of its own transaction under the key of the
  -- proof. That entry was in the ledger already and nothing changes, or the ledger had no entry under
  -- the key. A proof that was consumed, or is bound to another transaction, is therefore never reserved.
  pub reserve_proof-ok :
      (r : Reservation) (s : Tree) {e : ReplayEntry} {s' : Tree}
      → reserve_proof py clock r s ≡ (ok e, s')
      → (loaded : Loaded) × (proof_key_of py r.approval_id r.approval_challenge
            r.route_decision_digest r.workspace_instance_id
          ≡ ok e.proof_key)
        × (load_ledger py clock (some r.project_id) (some r.workspace_instance_id) s ≡ ok loaded)
        × (e.bound_transaction_id ≡ r.transaction_id)
        × (e.state ≡ "reserved")
        × (((entry_of clock e.proof_key (get loaded.0.1 e.proof_key) ≡ ok e) × (s' ≡ s))
            ⊎ ((is_null (get loaded.0.1 e.proof_key) ≡ true)
                × Seen py loaded.1.managed_block_hash loaded.1 s))
  unfolding reserve_proof
  reserve_proof-ok r s {e} {s'} h =
      let (transaction, transaction_ok, h₁) = lift-ok (canonical_uuid r.transaction_id) _ s h in
      let (validated, _, h₂) = lift-ok (utc r.validated_at) _ s h₁ in
      let (expires, _, h₃) = lift-ok (utc r.proof_expires_at) _ s h₂ in
      let (now, _, h₄) = lift-ok (utc r.now) _ s h₃ in
      let (_, _, h₅) = lift-ok (reject (ltb expires validated) _) _ s h₄ in
      let (key, key_ok, h₆) =
        lift-ok
          (proof_key_of py r.approval_id r.approval_challenge r.route_decision_digest
            r.workspace_instance_id)
          _ s h₅ in
      let (loaded, load_ok, h₇) =
        lift-ok (load_ledger py clock (some r.project_id) (some r.workspace_instance_id) s) _ s
          h₆ in
      let (same_key, bound, state, cases) =
        settle_entry-ok (not r.recovery && (ltb now validated || ltb expires now)) key transaction
          validated expires loaded s h₇ in
      let (_, same_transaction) =
        checked (is_uuid r.transaction_id) r.transaction_id transaction _ transaction_ok in
      (loaded, key_ok ∙ ap ok (sym same_key), load_ok, bound ∙ same_transaction, state, cases)
