-- ===== src/Runtime/Replay/Writes.antt =====
-- What the checks of src/agent_stack/runtime/replay.py leave of their arguments, and what the writing of an
-- entry leaves in the ledger's file.
use agent_workflow_pack.Canonical.{canonical_json}
use agent_workflow_pack.Io.{bind-ok, lift-ok}
use agent_workflow_pack.Json.{Fields, Value, arr, bool, get, has_fields, int, null, obj, put, text}
use agent_workflow_pack.Json.Laws.{get-put}
use agent_workflow_pack.Platform.{Platform}
use agent_workflow_pack.Prelude.{
  Bool, Bool-cases, Option, String, [], ap, arith, eq_iff, false, if◌then◌else◌, inl, inr, ltb, mem,
  none, refl, some, subst, sym, true, ℕ, ◌==◌, ◌∙◌, ◌∷◌, ◌≡◌,
}
use agent_workflow_pack.Reconcile.Cas.{compare_and_swap}
use agent_workflow_pack.Reconcile.Cas.Laws.{Seen, compare_and_swap-ok}
use agent_workflow_pack.Reconcile.Cas.Stored.{Holds, compare_and_swap-Holds}
use agent_workflow_pack.Reconcile.Files.{Tree}
use agent_workflow_pack.Result.{
  >>=-eq-ok, Exn, Result, err, ok, ok-injective, reject-ok, require-ok,
}
use agent_workflow_pack.Runtime.Replay.{
  Clock, ReplayEntry, candidate_state, consumed_time, entry_document, entry_fields, entry_of,
  entry_state, parse_time, replay_failure, utc, uuid_field, with_entry,
}
use agent_workflow_pack.Runtime.Replay.Ledger.{
  Loaded, recast_result, rethrow, store_ledger, write_entry,
}

pub checked :
    (good : Bool) (v k : String) (x : Exn)
    → (if good then ok v else err x) ≡ ok k
    → (good ≡ true) × (k ≡ v)
checked true v k x h = (refl, sym (ok-injective h))
checked false v k x h = cc

recast_result-ok :
    {A : Type 0} (r : Result A) (e : Exn) (a : A) → recast_result r e ≡ ok a → r ≡ ok a
recast_result-ok (ok b) e a h = h
recast_result-ok (err x) e a h = cc

pub utc-ok : (o : Option ℕ) (t : ℕ) → utc o ≡ ok t → o ≡ some t
utc-ok (some n) t h = ap some (ok-injective h)
utc-ok none t h = cc

pub rethrow-ok :
    {A : Type 0} (r : Result A × Tree) (e : Exn) (a : A) (t : Tree)
    → ◌≡◌ {A = Result A × Tree} (recast_result r.0 e, r.1) (ok a, t)
    → r ≡ (ok a, t)
rethrow-ok {A} r e a t h = λ i. (
  recast_result-ok r.0 e a (ap (λ (x : Result A × Tree). x.0) h) i,
  ap (λ (x : Result A × Tree). x.1) h i,
)

entry_state-ok :
    (v : Value) (state : String)
    → entry_state v ≡ ok state
    → mem state ("reserved" ∷ "consumed" ∷ []) ≡ true
entry_state-ok (text s) state h =
    let (known, same) = checked (mem s ("reserved" ∷ "consumed" ∷ [])) s state _ h in
    subst (λ x. mem x ("reserved" ∷ "consumed" ∷ []) ≡ true) (sym same) known
entry_state-ok null state h = cc
entry_state-ok (bool b) state h = cc
entry_state-ok (int n) state h = cc
entry_state-ok (arr vs) state h = cc
entry_state-ok (obj d) state h = cc

pub entry_of-state :
    (clock : Clock) (key : String) (v : Value) (e : ReplayEntry)
    → entry_of clock key v ≡ ok e
    → mem e.state ("reserved" ∷ "consumed" ∷ []) ≡ true
unfolding entry_of
entry_of-state clock key (obj raw) e h =
    let (_, h₁) = require-ok (has_fields raw entry_fields) _ _ h in
    let (_, _, h₂) = >>=-eq-ok (uuid_field (get raw "bound_transaction_id")) _ h₁ in
    let (state, known, h₃) = >>=-eq-ok (entry_state (get raw "state")) _ h₂ in
    let (validated, _, h₄) = >>=-eq-ok (parse_time clock (get raw "validated_at")) _ h₃ in
    let (expires, _, h₅) = >>=-eq-ok (parse_time clock (get raw "proof_expires_at")) _ h₄ in
    let (consumed, _, h₆) = >>=-eq-ok (consumed_time clock state (get raw "consumed_at")) _ h₅ in
    let (_, h₇) = reject-ok (ltb expires validated) _ _ h₆ in
    subst (λ (x : ReplayEntry). mem x.state ("reserved" ∷ "consumed" ∷ []) ≡ true) (ok-injective h₇)
      (entry_state-ok (get raw "state") state known)
entry_of-state clock key null e h = cc
entry_of-state clock key (bool b) e h = cc
entry_of-state clock key (int n) e h = cc
entry_of-state clock key (arr vs) e h = cc
entry_of-state clock key (text s) e h = cc

pub still_reserved :
    (state : String)
    → mem state ("reserved" ∷ "consumed" ∷ []) ≡ true
    → (state == "consumed") ≡ false
    → state ≡ "reserved"
still_reserved state h k = elim (Bool-cases ("reserved" == state)) [
  | inl e ↦ sym ((eq_iff "reserved" state).0 e)
  | inr e ↦ absurd (ground (arith, h, k, e, eq_iff "consumed" state, eq_iff state "consumed"))
]

module _ (py : Platform) (clock : Clock) where
  -- The ledger's file holds a document whose entries are those that were loaded, with one put in.
  pub Kept : ReplayEntry → Loaded → Tree → Tree → Type 0
  Kept e loaded before after =
      (document : Fields) × (entries_ : Fields) × (payload : String) × (get document "entries"
        ≡ obj entries_)
      × ((k : String)
          → get entries_ k ≡ (if e.proof_key == k then entry_document e else get loaded.0.1 k))
      × (canonical_json py (obj document) ≡ ok payload)
      × Holds py before loaded.1 after payload

  -- An entry that was written: the swap has seen the file in the state in which the ledger was read.
  pub write_entry-ok :
      (e : ReplayEntry) (loaded : Loaded) (s : Tree) {r : ReplayEntry} {s' : Tree}
      → write_entry py clock e loaded s ≡ (ok r, s')
      → (r ≡ e) × Seen py loaded.1.managed_block_hash loaded.1 s × Kept e loaded s s'
  unfolding write_entry store_ledger Kept candidate_state
  write_entry-ok e loaded s {r} {s'} h =
      let (_, t, stored, h₁) =
        bind-ok (store_ledger py clock loaded.1 (with_entry loaded.0.0 loaded.0.1 e)) _ s h in
      let (payload, written, h₂) =
        lift-ok (canonical_json py (obj (with_entry loaded.0.0 loaded.0.1 e))) _ s stored in
      let (f, w, swapped, rest) =
        bind-ok
          (rethrow
            (compare_and_swap py loaded.1 (candidate_state py clock loaded.1 payload)
              (some payload))
            (replay_failure "approval replay ledger changed during CAS"))
          _ s h₂ in
      let swap =
        rethrow-ok
          (compare_and_swap py loaded.1 (candidate_state py clock loaded.1 payload) (some payload)
            s)
          (replay_failure "approval replay ledger changed during CAS") f w swapped in
      let (_, _, _, seen, _, _, _) =
        compare_and_swap-ok py loaded.1 (candidate_state py clock loaded.1 payload) (some payload) s
          swap in
      let holds =
        compare_and_swap-Holds py loaded.1 (candidate_state py clock loaded.1 payload) payload s
          refl refl swap in
      let still : w ≡ s' =
        ap (λ (x : Result (Unit {0}) × Tree). x.1) rest
        ∙ ap (λ (x : Result ReplayEntry × Tree). x.1) h₁ in
      (
        sym (ok-injective (ap (λ (x : Result ReplayEntry × Tree). x.0) h₁)),
        seen,
        (
          with_entry loaded.0.0 loaded.0.1 e,
          put e.proof_key (entry_document e) loaded.0.1,
          payload,
          get-put loaded.0.0 "entries" "entries" _,
          (λ k. get-put loaded.0.1 e.proof_key k (entry_document e)),
          written,
          subst (λ x. Holds py s loaded.1 x payload) still holds,
        ),
      )
