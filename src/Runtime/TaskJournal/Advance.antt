-- ===== src/Runtime/TaskJournal/Advance.antt =====
-- How `advance_task_journal` of runtime/task_journal.py moves a journal.
use mathlib.Core.Option
use agent_workflow_pack.Io.{bind-ok, lift-ok, pure}
use agent_workflow_pack.Json.{Fields, Value, as_text, get, obj, text}
use agent_workflow_pack.Json.Laws.{get-put}
use agent_workflow_pack.Platform.{Platform}
use agent_workflow_pack.Prelude.{
  Bool, List, Option, String, [], ap, arith, false, if-false, mem, none, refl, some, subst, sym,
  true, ◌==◌, ◌∙◌, ◌∷◌, ◌≡◌,
}
use agent_workflow_pack.Reconcile.Files.{Tree}
use agent_workflow_pack.Result.{Exn, Result, key_error, ok, ok-injective, present, require}
use agent_workflow_pack.Runtime.TaskJournal.{journal_failure, phase_rank, rank_of, validate_fields}
use agent_workflow_pack.Runtime.TaskJournal.Check.{Valid, as_text-some, validate_fields-ok}
use agent_workflow_pack.Runtime.TaskJournal.Read.{journal_path}
use agent_workflow_pack.Runtime.TaskJournal.Store.{
  advance_task_journal, advanced, atomic_json, not_backward, put_optional, text_of,
}
-- The fields that an advance may write.
use agent_workflow_pack.Io.{bind-ok, lift-ok, pure}
use agent_workflow_pack.Json.{Fields, Value, as_text, get, obj, text}
use agent_workflow_pack.Json.Laws.{get-put}
use agent_workflow_pack.Platform.{Platform}
use agent_workflow_pack.Prelude.{
  Bool, List, Option, String, [], ap, arith, false, if-false, mem, none, refl, some, subst, sym,
  true, ◌==◌, ◌∙◌, ◌∷◌, ◌≡◌,
}
use agent_workflow_pack.Reconcile.Files.{Tree}
use agent_workflow_pack.Result.{Exn, Result, key_error, ok, ok-injective, present, require}
use agent_workflow_pack.Runtime.TaskJournal.{journal_failure, phase_rank, rank_of, validate_fields}
use agent_workflow_pack.Runtime.TaskJournal.Check.{Valid, as_text-some, validate_fields-ok}
use agent_workflow_pack.Runtime.TaskJournal.Read.{journal_path}
use agent_workflow_pack.Runtime.TaskJournal.Store.{
  advance_task_journal, advanced, atomic_json, not_backward, put_optional, text_of,
}

abbrev pub mutable_fields : List String
mutable_fields = "phase" ∷ "outcome" ∷ "rollback_state" ∷ []

get-put_optional :
    (k j : String) (o : Option Value) (d : Fields)
    → (k == j) ≡ false
    → get (put_optional k o d) j ≡ get d j
get-put_optional k j none d h = refl
get-put_optional k j (some v) d h = get-put d k j v ∙ if-false (k == j) v (get d j) h

module _ (document : Fields) (phase : String) (outcome : Option String)
    (rollback : Option Fields) where
  -- The phase of the candidate is the new one.
  pub get-advanced_phase : get (advanced document phase outcome rollback) "phase" ≡ text phase
  unfolding advanced
  get-advanced_phase =
      get-put_optional "rollback_state" "phase" (Option.map obj rollback) _ refl
      ∙ get-put_optional "outcome" "phase" (Option.map text outcome) _ refl
      ∙ get-put document "phase" "phase" (text phase)

  -- Every field that an advance may not write is kept.
  pub get-advanced :
      (k : String)
      → mem k mutable_fields ≡ false
      → get (advanced document phase outcome rollback) k ≡ get document k
  unfolding advanced
  get-advanced k h =
      get-put_optional "rollback_state" k (Option.map obj rollback) _ (ground arith)
      ∙ get-put_optional "outcome" k (Option.map text outcome) _ (ground arith)
      ∙ get-put document "phase" k (text phase)
      ∙ if-false ("phase" == k) (text phase) (get document k) (ground arith)

-- What an advance that returned has done.
pub record Advanced (py : Platform) (document : Fields) (phase : String) (outcome : Option String)
    (rollback : Option Fields) (tree : Tree) (c : Fields) (tree' : Tree) : Type 0 where
  pub candidate : c ≡ advanced document phase outcome rollback
  pub before : Valid py document none
  pub transaction_id : String
  pub after : Valid py c (some transaction_id)
  pub identity : get c "transaction_id" ≡ text transaction_id
  pub operation : String
  pub has_operation : get document "operation" ≡ text operation
  pub reached : not_backward (rank_of operation phase) before.rank ≡ true
  pub path : String
  pub has_path : journal_path transaction_id ≡ ok path
  pub stored : atomic_json py path c tree ≡ (ok tt, tree')

text_of-ok :
    (document : Fields) (k s : String) → text_of document k ≡ ok s → get document k ≡ text s
text_of-ok document k s h = as_text-some _ s (go (as_text (get document k)) h)
  where
    go : (o : Option String) → present o key_error ≡ ok s → o ≡ some s
    go none e = cc
    go (some t) e = ap (λ x. some x) (ok-injective e)

pub advance_task_journal-Advanced :
    (py : Platform) (document : Fields) (phase : String) (outcome : Option String)
    (rollback : Option Fields) (tree : Tree) (c : Fields) (tree' : Tree)
    → advance_task_journal py document phase outcome rollback tree ≡ (ok c, tree')
    → Advanced py document phase outcome rollback tree c tree'
unfolding advance_task_journal
advance_task_journal-Advanced py document phase outcome rollback tree c tree' h =
    let (current, valid, h₁) = lift-ok (validate_fields py document none) _ tree h in
    let (same, before) = validate_fields-ok py document none current valid in
    let (operation, named, h₂) = lift-ok (text_of current "operation") _ tree h₁ in
    let (rank, ranked, h₃) = lift-ok (phase_rank current) _ tree h₂ in
    let (_, forward, h₄) =
      lift-ok
        (require (not_backward (rank_of operation phase) rank)
          (journal_failure "task journal phase would move backward"))
        _ tree h₃ in
    let candidate = advanced current phase outcome rollback in
    let (id, identified, h₅) = lift-ok (text_of candidate "transaction_id") _ tree h₄ in
    let (checked, accepted, h₆) = lift-ok (validate_fields py candidate (some id)) _ tree h₅ in
    let (same', after) = validate_fields-ok py candidate (some id) checked accepted in
    let (path, at, h₇) = lift-ok (journal_path id) _ tree h₆ in
    let (_, t, stored, h₈) = bind-ok (atomic_json py path checked) (λ _. pure checked) tree h₇ in
    let returned : checked ≡ c = ok-injective (ap (λ (r : Result Fields × Tree). r.0) h₈) in
    let ends : t ≡ tree' = ap (λ (r : Result Fields × Tree). r.1) h₈ in
    record {
      candidate = sym returned ∙ same' ∙ ap (λ d. advanced d phase outcome rollback) same;
      before = before;
      transaction_id = id;
      after = subst (λ d. Valid py d (some id)) (sym same' ∙ returned) after;
      identity =
          subst (λ d. get d "transaction_id" ≡ text id) (sym same' ∙ returned)
            (text_of-ok candidate "transaction_id" id identified);
      operation = operation;
      has_operation =
          ap (λ d. get d "operation") (sym same) ∙ text_of-ok current "operation" operation named;
      reached =
          subst (λ n. not_backward (rank_of operation phase) n ≡ true)
            (ok-injective (sym ranked ∙ ap phase_rank same ∙ before.ranked))
            (require_true _ _ forward);
      path = path;
      has_path = at;
      stored =
          ap (λ d. atomic_json py path d tree) (sym returned) ∙ stored ∙ ap (λ x. (ok tt, x)) ends;
    }
  where
    require_true : (b : Bool) (e : Exn) {u : Unit} → require b e ≡ ok u → b ≡ true
    require_true true e k = refl
    require_true false e k = cc
