-- ===== src/Providers/Attempts/Progress.antt =====
-- The methods of providers/attempts.py that succeed: the journal each of them found, and the one it left.
use agent_workflow_pack.Io.{bind-ok, lift-ok}
use agent_workflow_pack.Json.{Fields, Value, eq_value, get, obj, text}
use agent_workflow_pack.Json.Laws.{eq_value-text, get-put}
use agent_workflow_pack.Platform.{Platform}
use agent_workflow_pack.Prelude.{
  List, String, arith, if◌then◌else◌, mem, refl, set, true, ℕ, ◌==◌, ◌≡◌,
}
use agent_workflow_pack.Providers.Attempts.{
  AttemptRecord, Plan, Store, attempts_of, check_digest, check_digest_or_null, find_from,
  listed_attempts, load, terminal_states,
}
use agent_workflow_pack.Providers.Attempts.Methods.{
  Outcome, load_receipt, record_released, record_terminal, released_attempt, replace_attempt,
  settle_receipt, terminal_attempt,
}
use agent_workflow_pack.Providers.Attempts.Moves.{Advanced, Move, finish, release}
use agent_workflow_pack.Providers.Attempts.Receipts.{validate_receipt}
use agent_workflow_pack.Providers.Attempts.Steps.{
  Written, find_from-ok, listed_attempts-ok, replace_attempt-Written,
}
use agent_workflow_pack.Result.{ok, require}
use agent_workflow_pack.Runtime.TaskJournal.Store.{advanced}

get-terminal_attempt :
    (raw : Fields) (o : Outcome) (name : String)
    → get (terminal_attempt raw o) name ≡ (
        if "candidate_output_digest" == name
        then text o.candidate_output_digest
        else if "sanitized_output_digest" == name
        then text o.sanitized_output_digest
        else if "result_category" == name
        then text o.result_category
        else if "terminal_at" == name
        then text o.terminal_at
        else if "state" == name
        then text o.state
        else get raw name)
get-terminal_attempt raw o name = simp (get-put)

get-released_attempt :
    (raw receipt : Fields) (name : String)
    → get (released_attempt raw receipt) name ≡ (
        if "released_at" == name
        then get receipt "released_at"
        else if "state" == name
        then text "released"
        else get raw name)
get-released_attempt raw receipt name = simp (get-put)

-- The attempt that `_find` has found, replaced.
advance :
    (before : List Value) (attempt_id : String) (found : ℕ × Fields) (changed : Fields)
    (from_state to_state : Value)
    → find_from 0 before attempt_id ≡ ok found
    → get found.1 "state" ≡ from_state
    → get changed "state" ≡ to_state
    → Move from_state to_state
    → get changed "attempt_id" ≡ get found.1 "attempt_id"
    → get changed "release_token_digest" ≡ get found.1 "release_token_digest"
    → Advanced before (set before found.0 (obj changed)) attempt_id from_state to_state
advance before attempt_id found changed from_state to_state h was is move same_id same_token =
    record {
      index = found.0;
      raw = found.1;
      changed = changed;
      at = (find_from-ok before attempt_id found h).0;
      replaced = refl;
      named_id = (find_from-ok before attempt_id found h).1;
      was = was;
      is = is;
      move = move;
      same_id = same_id;
      same_token = same_token;
    }

-- One attempt ends, and the journal is written.
pub ended_step :
    (py : Platform) (p : Plan) (s t : Store) (document : Fields) (before : List Value)
    (attempt_id : String) (found : ℕ × Fields) (o : Outcome) (from_state : Value)
    {r : AttemptRecord} {s' : Store}
    → load p s ≡ ok document
    → attempts_of document ≡ ok before
    → find_from 0 before attempt_id ≡ ok found
    → get found.1 "state" ≡ from_state
    → Move from_state (text o.state)
    → replace_attempt py p document before found.0 (terminal_attempt found.1 o) t ≡ (ok r, s')
    → (after : List Value) × Written py p s s' before after
      × Advanced before after attempt_id from_state (text o.state)
ended_step py p s t document before attempt_id found o from_state loaded held same was move h = (
  set before found.0 (obj (terminal_attempt found.1 o)),
  replace_attempt-Written py p document s t before found.0 (terminal_attempt found.1 o) loaded held
      h,
  advance before attempt_id found (terminal_attempt found.1 o) from_state (text o.state) same was
      (get-terminal_attempt found.1 o "state") move (get-terminal_attempt found.1 o "attempt_id")
      (get-terminal_attempt found.1 o "release_token_digest"),
)

module _ (py : Platform) (p : Plan) (s : Store) where
  released_step :
      (t : Store) (document : Fields) (before : List Value) (attempt_id : String)
      (found : ℕ × Fields) (receipt : Fields) {r : AttemptRecord} {s' : Store}
      → load p s ≡ ok document
      → attempts_of document ≡ ok before
      → find_from 0 before attempt_id ≡ ok found
      → get found.1 "state" ≡ text "prepared"
      → replace_attempt py p document before found.0 (released_attempt found.1 receipt) t
        ≡ (ok r, s')
      → (after : List Value) × Written py p s s' before after
        × Advanced before after attempt_id (text "prepared") (text "released")
  released_step t document before attempt_id found receipt loaded held same prepared h = (
    set before found.0 (obj (released_attempt found.1 receipt)),
    replace_attempt-Written py p document s t before found.0 (released_attempt found.1 receipt)
        loaded held h,
    advance before attempt_id found (released_attempt found.1 receipt) (text "prepared")
        (text "released") same prepared (get-released_attempt found.1 receipt "state") release
        (get-released_attempt found.1 receipt "attempt_id")
        (get-released_attempt found.1 receipt "release_token_digest"),
  )

  -- A terminal result that is recorded has moved the attempt with the identity from released to the named
  -- state, which is a terminal one, in a journal that was validated before it was written.
  pub record_terminal-Advanced :
      (attempt_id : String) (o : Outcome) {r : AttemptRecord} {s' : Store}
      → record_terminal py p attempt_id o s ≡ (ok r, s')
      → (before : List Value) × (after : List Value) × Written py p s s' before after
        × Advanced before after attempt_id (text "released") (text o.state)
        × (mem o.state terminal_states ≡ true)
  unfolding record_terminal
  record_terminal-Advanced attempt_id o h =
      let (_, allowed, h₁) = lift-ok (require (mem o.state terminal_states) _) _ s h in
      let (document, loaded, h₂) = lift-ok (load p s) _ s h₁ in
      let (before, listed, h₃) = lift-ok (listed_attempts document) _ s h₂ in
      let held = listed_attempts-ok document before listed in
      let (found, same, h₄) = lift-ok (find_from 0 before attempt_id) _ s h₃ in
      let (_, released, h₅) =
        lift-ok (require (eq_value (get found.1 "state") (text "released")) _) _ s h₄ in
      let (_, _, h₆) = lift-ok (check_digest o.sanitized_output_digest) _ s h₅ in
      let (_, _, h₇) = lift-ok (check_digest_or_null o.candidate_output_digest) _ s h₆ in
      let (after, written, advanced) =
        ended_step py p s s document before attempt_id found o (text "released") loaded held same
          (eq_value-text (get found.1 "state") "released" (ground (arith, released)))
          (finish o.state (ground (arith, allowed))) h₇ in
      (before, after, written, advanced, ground (arith, allowed))

  -- A release that is recorded has moved the attempt with the identity from prepared to released, in a
  -- journal that was validated before it was written.
  pub record_released-Advanced :
      (attempt_id : String) (receipt : Fields) {r : AttemptRecord} {s' : Store}
      → record_released py p attempt_id receipt s ≡ (ok r, s')
      → (before : List Value) × (after : List Value) × Written py p s s' before after
        × Advanced before after attempt_id (text "prepared") (text "released")
  unfolding record_released
  record_released-Advanced attempt_id receipt h =
      let (document, loaded, h₁) = lift-ok (load p s) _ s h in
      let (before, listed, h₂) = lift-ok (listed_attempts document) _ s h₁ in
      let held = listed_attempts-ok document before listed in
      let (found, same, h₃) = lift-ok (find_from 0 before attempt_id) _ s h₂ in
      let (_, prepared, h₄) =
        lift-ok (require (eq_value (get found.1 "state") (text "prepared")) _) _ s h₃ in
      let (_, _, h₅) = lift-ok (validate_receipt p found.1 receipt) _ s h₄ in
      let (stored, t, _, h₆) = bind-ok (load_receipt py attempt_id) _ s h₅ in
      let (_, w, _, h₇) = bind-ok (settle_receipt py p attempt_id receipt stored) _ t h₆ in
      let (after, written, advanced) =
        released_step w document before attempt_id found receipt loaded held same
          (eq_value-text (get found.1 "state") "prepared" (ground (arith, prepared))) h₇ in
      (before, after, written, advanced)
