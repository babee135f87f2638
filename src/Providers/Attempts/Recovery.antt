-- ===== src/Providers/Attempts/Recovery.antt =====
-- The preparation of an attempt and the recovery of an interrupted one in providers/attempts.py.
use agent_workflow_pack.Io.{bind-ok, lift, lift-ok}
use agent_workflow_pack.Json.{
  Fields, Value, arr, as_arr, bool, get, has_fields, int, keys, list, mem_value, null, obj, text,
}
use agent_workflow_pack.Json.Laws.{of_list-to_list}
use agent_workflow_pack.Platform.{Platform}
use agent_workflow_pack.Prelude.{
  Bool, List, Option, String, [], all, any, ap, arith, eq_iff, false, get_elem?, if◌then◌else◌, inl,
  inr, mem, none, refl, some, subst, suc, sym, true, zero, ℕ, ◌&&◌, ◌++◌, ◌==◌, ◌∷◌, ◌≡◌, ◌⊎◌,
}
use agent_workflow_pack.Providers.Attempts.{
  AttemptRecord, Node, Plan, Store, agree, attempt_record, attempt_states, attempts_of,
  check_digest, check_journal, check_uuid, empty_journal, find_from, identity_fields, irregular,
  is_arr, is_live, json, listed_attempts, live_states, load, named, read_journal, terminal_states,
  unreadable, validate_attempts,
}
use agent_workflow_pack.Providers.Attempts.Methods.{
  Preparation, interrupt, interruption, load_receipt, prepare, prepared_attempt,
  recover_interrupted, repeats, with_attempts, write,
}
use agent_workflow_pack.Providers.Attempts.Moves.{Advanced, stop}
use agent_workflow_pack.Providers.Attempts.Progress.{ended_step}
use agent_workflow_pack.Providers.Attempts.Receipts.{check_effective, disagree, effective}
use agent_workflow_pack.Providers.Attempts.Steps.{
  Written, find_from-ok, listed_attempts-ok, write-Written,
}
use agent_workflow_pack.Providers.Attempts.Validate.{validate_attempts_iff, well_formed}
use agent_workflow_pack.Result.{
  >>=-eq-ok, Result, assertion_error, ok, ok-injective, present, reject, require, require-ok,
}
use agent_workflow_pack.Runtime.TaskJournal.Store.{advanced}

check_journal-valid :
    (p : Plan) (v : Value) (d : Fields)
    → check_journal p v ≡ ok d
    → validate_attempts (get d "attempts") ≡ ok tt
unfolding check_journal
check_journal-valid p (obj document) d h =
    let (_, h₁) = require-ok (agree document (empty_journal p) identity_fields) _ _ h in
    let (_, h₂) =
      require-ok (has_fields document (keys (empty_journal p)) && is_arr (get document "attempts"))
        _ _ h₁ in
    let (_, valid, h₃) = >>=-eq-ok (validate_attempts (get document "attempts")) _ h₂ in
    subst (λ e. validate_attempts (get e "attempts") ≡ ok tt) (ok-injective h₃) valid
check_journal-valid p null d h = cc
check_journal-valid p (bool b) d h = cc
check_journal-valid p (int n) d h = cc
check_journal-valid p (text x) d h = cc
check_journal-valid p (arr vs) d h = cc

empty-valid : (p : Plan) → validate_attempts (get (empty_journal p) "attempts") ≡ ok tt
unfolding empty_journal validate_attempts
empty-valid p = refl

read_journal-valid :
    (p : Plan) (j : Option Node) (d : Fields)
    → read_journal p j ≡ ok d
    → validate_attempts (get d "attempts") ≡ ok tt
read_journal-valid p none d h =
    subst (λ e. validate_attempts (get e "attempts") ≡ ok tt) (ok-injective h) (empty-valid p)
read_journal-valid p (some irregular) d h = cc
read_journal-valid p (some unreadable) d h = cc
read_journal-valid p (some (json v)) d h = check_journal-valid p v d h

as_arr-list :
    (v : Value) (vs : List Value) → present (as_arr v) assertion_error ≡ ok vs → v ≡ list vs
as_arr-list (arr ws) vs h =
    subst (λ us. arr ws ≡ list us) (ok-injective h) (sym (ap arr (of_list-to_list ws)))
as_arr-list null vs h = cc
as_arr-list (bool b) vs h = cc
as_arr-list (int n) vs h = cc
as_arr-list (text x) vs h = cc
as_arr-list (obj d) vs h = cc

get_elem?-all :
    {A : Type 0} (t : A → Bool) (xs : List A) (i : ℕ) (x : A)
    → all t xs ≡ true
    → get_elem? xs i ≡ some x
    → t x ≡ true
get_elem?-all t [] i x h e = cc
get_elem?-all t (y ∷ xs) zero x h e = ground (arith, h, e)
get_elem?-all t (y ∷ xs) (suc i) x h e = get_elem?-all t xs i x (ground (arith, h)) e

-- The journal that a method has loaded is valid: at most one attempt is live, and so on.
pub load-valid :
    (p : Plan) (s : Store) (document : Fields) (before : List Value)
    → load p s ≡ ok document
    → attempts_of document ≡ ok before
    → validate_attempts (list before) ≡ ok tt
unfolding load
load-valid p s document before loaded held =
    subst (λ v. validate_attempts v ≡ ok tt) (as_arr-list (get document "attempts") before held)
      (read_journal-valid p s.journal document loaded)

-- A live attempt of a valid journal is prepared or released.
live_state :
    (v : Value)
    → mem_value v attempt_states ≡ true
    → mem_value v terminal_states ≡ false
    → (x : String) × (v ≡ text x) × (mem x live_states ≡ true)
live_state (text x) h e = (x, refl, ground (arith, h, e))
live_state null h e = cc
live_state (bool b) h e = cc
live_state (int n) h e = cc
live_state (arr vs) h e = cc
live_state (obj d) h e = cc

well_formed-state :
    (raw : Fields)
    → well_formed (obj raw) ≡ true
    → mem_value (get raw "state") attempt_states ≡ true
unfolding well_formed
well_formed-state raw h = ground (arith, h)

live_found :
    (before : List Value) (attempt_id : String) (found : ℕ × Fields)
    → validate_attempts (list before) ≡ ok tt
    → find_from 0 before attempt_id ≡ ok found
    → mem_value (get found.1 "state") terminal_states ≡ false
    → (x : String) × (get found.1 "state" ≡ text x) × (mem x live_states ≡ true)
live_found before attempt_id found valid same running =
    let (stands, _) = find_from-ok before attempt_id found same in
    let (formed, _, _, _) = (validate_attempts_iff before).0 valid in
    live_state (get found.1 "state")
      (well_formed-state found.1
        (get_elem?-all well_formed before found.0 (obj found.1) formed stands))
      running

-- The journal lists the attempt with the identity, in a terminal state.
pub HasEnded : List Value → String → Type 0
HasEnded before attempt_id =
    (index : ℕ) × (raw : Fields) × (get_elem? before index ≡ some (obj raw))
    × (get raw "attempt_id" ≡ text attempt_id)
    × (mem_value (get raw "state") terminal_states ≡ true)

module _ (py : Platform) (p : Plan) (s : Store) where
  -- The attempt with the identity was live, and the store holds it interrupted.
  pub Interrupted : List Value → String → Store → Type 0
  Interrupted before attempt_id s' =
      (after : List Value) × (x : String) × (mem x live_states ≡ true)
      × Written py p s s' before after
      × Advanced before after attempt_id (text x) (text "interrupted")

  interrupt-Advanced :
      (attempt_id : String) (receipt : Option Fields) (recorded_at : String) (document : Fields)
      (before : List Value) (found : ℕ × Fields) {r : AttemptRecord} {s' : Store}
      → load p s ≡ ok document
      → attempts_of document ≡ ok before
      → find_from 0 before attempt_id ≡ ok found
      → mem_value (get found.1 "state") terminal_states ≡ false
      → interrupt py p attempt_id receipt recorded_at document before found s ≡ (ok r, s')
      → Interrupted before attempt_id s'
  unfolding Interrupted
  interrupt-Advanced attempt_id receipt recorded_at document before found loaded held same running
        h =
      let (stored, t, _, h₁) = bind-ok (load_receipt py attempt_id) _ s h in
      let (_, _, h₂) = lift-ok (reject (disagree receipt stored) _) _ t h₁ in
      let (_, _, h₃) =
        lift-ok (check_effective p found.1 (effective receipt stored) stored) _ t h₂ in
      let (x, was, live) =
        live_found before attempt_id found (load-valid p s document before loaded held) same
          running in
      let (after, written, advanced) =
        ended_step py p s t document before attempt_id found (interruption recorded_at) (text x)
          loaded held same was (stop x live) h₃ in
      (after, x, live, written, advanced)

  recover_step :
      (ended_already : Bool) (attempt_id : String) (receipt : Option Fields) (recorded_at : String)
      (document : Fields) (before : List Value) (found : ℕ × Fields) {r : AttemptRecord}
      {s' : Store}
      → load p s ≡ ok document
      → attempts_of document ≡ ok before
      → find_from 0 before attempt_id ≡ ok found
      → mem_value (get found.1 "state") terminal_states ≡ ended_already
      → (if ended_already
            then lift (attempt_record found.1)
            else interrupt py p attempt_id receipt recorded_at document before found)
          s
        ≡ (ok r, s')
      → ((s' ≡ s) × HasEnded before attempt_id) ⊎ Interrupted before attempt_id s'
  unfolding HasEnded
  recover_step true attempt_id receipt recorded_at document before found loaded held same e h =
      let (stands, named) = find_from-ok before attempt_id found same in
      inl (
        ap (λ (x : Result AttemptRecord × Store). x.1) (sym h),
        (found.0, found.1, stands, named, e),
      )
  recover_step false attempt_id receipt recorded_at document before found loaded held same e h =
      inr (
        interrupt-Advanced attempt_id receipt recorded_at document before found loaded held same e
          h)

  -- A recovery that succeeds has been told that the containment is gone. Either the attempt with the
  -- identity had ended and the store is as it was, or that attempt was live and has been moved to
  -- interrupted, in a journal that was validated before it was written.
  pub recover_interrupted-Advanced :
      (attempt_id : String) (containment : String) (receipt : Option Fields) (recorded_at : String)
      {r : AttemptRecord} {s' : Store}
      → recover_interrupted py p attempt_id containment receipt recorded_at s ≡ (ok r, s')
      → (containment ≡ "gone")
        × ((document : Fields) × (before : List Value) × (load p s ≡ ok document)
            × (attempts_of document ≡ ok before)
            × (((s' ≡ s) × HasEnded before attempt_id) ⊎ Interrupted before attempt_id s'))
  unfolding recover_interrupted
  recover_interrupted-Advanced attempt_id containment receipt recorded_at {r} {s'} h =
      let (_, _, h₁) = lift-ok (reject (mem containment ("live" ∷ "ambiguous" ∷ [])) _) _ s h in
      let (_, gone, h₂) = lift-ok (require (containment == "gone") _) _ s h₁ in
      let (document, loaded, h₃) = lift-ok (load p s) _ s h₂ in
      let (before, listed, h₄) = lift-ok (listed_attempts document) _ s h₃ in
      let held = listed_attempts-ok document before listed in
      let (found, same, h₅) = lift-ok (find_from 0 before attempt_id) _ s h₄ in
      (
        (eq_iff containment "gone").0 (ground (arith, gone)),
        (
          document,
          before,
          loaded,
          held,
          recover_step (mem_value (get found.1 "state") terminal_states) attempt_id receipt
              recorded_at document before found loaded held same refl h₅,
        ),
      )

  -- A preparation that succeeds has found no live attempt, and has added the prepared one at the end of
  -- the journal.
  pub prepare-appends :
      (a : Preparation) {r : AttemptRecord} {s' : Store}
      → prepare py p a s ≡ (ok r, s')
      → (before : List Value) × (any is_live before ≡ false)
        × Written py p s s' before (before ++ obj (prepared_attempt a) ∷ [])
  unfolding prepare
  prepare-appends a {r} {s'} h =
      let (document, loaded, h₁) = lift-ok (load p s) _ s h in
      let (before, held, h₂) = lift-ok (attempts_of document) _ s h₁ in
      let (_, idle, h₃) = lift-ok (reject (any is_live before) _) _ s h₂ in
      let (_, _, h₄) = lift-ok (check_uuid a.attempt_id) _ s h₃ in
      let (_, _, h₅) = lift-ok (check_digest a.release_token_digest) _ s h₄ in
      let (_, _, h₆) =
        lift-ok (reject (any (repeats a.attempt_id a.release_token_digest) before) _) _ s h₅ in
      let (_, _, h₇) = lift-ok (reject (a.broker_liveness_identity == "") _) _ s h₆ in
      let (_, _, h₈) = lift-ok (check_digest a.command_digest) _ s h₇ in
      let (u, middle, done, rest) =
        bind-ok (write py (with_attempts document (before ++ obj (prepared_attempt a) ∷ []))) _ s
          h₈ in
      (
        before,
        ground (arith, idle),
        write-Written py p document s s before (before ++ obj (prepared_attempt a) ∷ []) loaded held
            (subst
              (λ x.
                write py (with_attempts document (before ++ obj (prepared_attempt a) ∷ [])) s
                ≡ (ok u, x))
              (ap (λ (x : Result AttemptRecord × Store). x.1) rest) done),
      )
