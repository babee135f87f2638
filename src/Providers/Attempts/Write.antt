-- ===== src/Providers/Attempts/Write.antt =====
-- The writes of providers/attempts.py: what a successful write leaves, and what a failed method leaves.
use agent_workflow_pack.Canonical.{normalize_json_value}
use agent_workflow_pack.Io.{Io, bind-ind, lift, lift-ind, lift-ok, ◌>>=◌, ◌>>◌}
use agent_workflow_pack.Json.{Fields, Value, get, obj}
use agent_workflow_pack.Platform.{Platform}
use agent_workflow_pack.Prelude.{[], any, ap, refl, some, sym, ◌++◌, ◌==◌, ◌∷◌, ◌≡◌}
use agent_workflow_pack.Providers.Attempts.{
  Plan, Store, attempt_record, attempts_of, check_digest, check_uuid, is_live, json, load,
  validate_attempts,
}
use agent_workflow_pack.Providers.Attempts.Methods.{
  Preparation, prepare, prepared_attempt, repeats, with_attempts, write,
}
use agent_workflow_pack.Result.{Exn, Result, err, ok, reject}

module _ (py : Platform) (document : Fields) (s : Store) where
  -- A write that succeeds has validated the attempts, and the file holds the normalised document.
  pub write-ok :
      {u : Unit {0}} {s' : Store}
      → write py document s ≡ (ok u, s')
      → (v : Value) × (validate_attempts (get document "attempts") ≡ ok tt)
        × (normalize_json_value py (obj document) ≡ ok v)
        × (s' ≡ record s { journal = some (json v) })
  unfolding write
  write-ok {u} {s'} h =
      let (unit, valid, h₁) = lift-ok (validate_attempts (get document "attempts")) _ s h in
      let (v, normal, h₂) = lift-ok (normalize_json_value py (obj document)) _ s h₁ in
      (v, valid, normal, ap (λ (r : Result (Unit {0}) × Store). r.1) (sym h₂))

  -- A write that fails changes nothing.
  pub write-err : (e : Exn) → (write py document s).0 ≡ err e → (write py document s).1 ≡ s
  unfolding write
  write-err e =
      lift-ind (λ r. r.0 ≡ err e → r.1 ≡ s) (validate_attempts (get document "attempts")) _ s
        (λ x h. refl)
        λ u valid.
          lift-ind (λ r. r.0 ≡ err e → r.1 ≡ s) (normalize_json_value py (obj document)) _ s
            (λ x h. refl) (λ v normal h. cc)

abbrev Untouched : {A : Type 0} → Store → Result A × Store → Type 0
Untouched s r = (e : Exn) → r.0 ≡ err e → r.1 ≡ s

Untouched-lift :
    {A B : Type 0} (r : Result A) (f : A → Io Store B) (s : Store)
    → ((a : A) → Untouched s (f a s))
    → Untouched s ((lift r >>= f) s)
Untouched-lift r f s rest = lift-ind (Untouched s) r f s (λ e x h. refl) (λ a _. rest a)

-- A preparation that fails, for whatever reason, leaves the journal and the receipts as they were.
pub prepare_atomic :
    (py : Platform) (p : Plan) (a : Preparation) (s : Store) (e : Exn)
    → (prepare py p a s).0 ≡ err e
    → (prepare py p a s).1 ≡ s
unfolding prepare attempt_record
prepare_atomic py p a s = Untouched-lift (load p s) _ s λ document.
    Untouched-lift (attempts_of document) _ s λ attempts.
      Untouched-lift (reject (any is_live attempts) _) _ s λ _.
        Untouched-lift (check_uuid a.attempt_id) _ s λ _.
          Untouched-lift (check_digest a.release_token_digest) _ s λ _.
            Untouched-lift (reject (any (repeats a.attempt_id a.release_token_digest) attempts) _) _
              s
              λ _. Untouched-lift (reject (a.broker_liveness_identity == "") _) _ s λ _.
                Untouched-lift (check_digest a.command_digest) _ s
                  λ _. written (with_attempts document (attempts ++ obj (prepared_attempt a) ∷ []))
  where
    written :
        (document : Fields)
        → Untouched s ((do write py document; lift (attempt_record (prepared_attempt a))) s)
    written document =
        bind-ind (Untouched s) (write py document) _ s
          (λ e failed x h. write-err py document s e failed) λ u done x h. cc
