-- ===== src/Runtime/TaskJournal/Complete.antt =====
-- That a journal of runtime/task_journal.py can be brought to its end, and read back.
-- The nodes that the writing of a journal needs.
use agent_workflow_pack.Canonical.{canonical_json}
use agent_workflow_pack.Ident.{is_uuid}
use agent_workflow_pack.Io.{bind-run, lift-run}
use agent_workflow_pack.Json.{
  Fields, Value, as_arr, as_obj, as_text, eq_value, get, has_fields, keys, num, obj, put, text,
}
use agent_workflow_pack.Json.Laws.{get-put, keys-put}
use agent_workflow_pack.Platform.{Platform}
use agent_workflow_pack.Prelude.{
  &&-true, Bool, Bool-cases, List, String, ap, arith, eq_iff, eq_refl, false, if-false,
  if◌then◌else◌, inl, inr, mem, none, refl, some, subset, sym, true, true-&&, ℕ, ◌&&◌, ◌==◌, ◌||◌,
  ◌∙◌, ◌≡◌,
}
use agent_workflow_pack.Prelude.Text.Sets.{mem_of_subset, subset_of_mem}
use agent_workflow_pack.Reconcile.Files.{Tree, directory, is_directory, regular}
use agent_workflow_pack.Result.{ok, present-ok, reject, require-ok}
use agent_workflow_pack.Runtime.TaskJournal.{
  check_header, check_identity, check_outcome, is_some, journal_failure, transaction_fields,
  outcomes,
}
use agent_workflow_pack.Runtime.TaskJournal.Advance.{get-advanced}
use agent_workflow_pack.Runtime.TaskJournal.Check.{as_text-some, text-injective}
use agent_workflow_pack.Runtime.TaskJournal.Read.{journal_root}
use agent_workflow_pack.Runtime.TaskJournal.Store.{
  advanced, atomic_json, make_root, replace_journal,
}

pub record IsWritable (tree : Tree) (path : String) : Type 0 where
  pub mode : ℕ
  pub root : tree.node journal_root ≡ directory mode
  pub free : is_directory (tree.node path) ≡ false

make_root-ok :
    (tree : Tree) (mode : ℕ)
    → tree.node journal_root ≡ directory mode
    → make_root tree ≡ (ok tt, tree)
unfolding make_root
make_root-ok tree mode h = rw (h, make_root) refl

-- The tree with a journal at its path.
abbrev pub with_journal : String → String → Tree → Tree
with_journal path payload tree = record tree {
  node = λ k. if k == path then regular 384 payload else tree.node k;
}

replace_journal-ok :
    (path payload : String) (tree : Tree)
    → is_directory (tree.node path) ≡ false
    → replace_journal path payload tree ≡ (ok tt, with_journal path payload tree)
unfolding replace_journal
replace_journal-ok path payload tree h = if-false (is_directory (tree.node path)) _ _ h

pub atomic_json-ok :
    (py : Platform) (path payload : String) (document : Fields) (tree : Tree)
    → canonical_json py (obj document) ≡ ok payload
    → IsWritable tree path
    → atomic_json py path document tree ≡ (ok tt, with_journal path payload tree)
unfolding atomic_json
atomic_json-ok py path payload document tree h w =
    bind-run make_root _ tree (make_root-ok tree w.mode w.root)
    ∙ lift-run (canonical_json py (obj document)) _ tree h
    ∙ replace_journal-ok path payload tree w.free

has_fields-put :
    (k : String) (v : Value) (d : Fields) (names : List String)
    → mem k names ≡ true
    → has_fields d names ≡ true
    → has_fields (put k v d) names ≡ true
has_fields-put k v d names m h =
    let (left, right) = &&-true (subset (keys d) names) (subset names (keys d)) h in
    true-&& _ _
      (subset_of_mem (keys (put k v d)) names
        (λ x e. one x (subset-name x left) (sym (keys-put d k x v) ∙ e)))
      (subset_of_mem names (keys (put k v d))
        (λ x e. keys-put d k x v ∙ other x (mem_of_subset x names (keys d) right e)))
  where
    subset-name :
        (x : String) → subset (keys d) names ≡ true → mem x (keys d) ≡ true → mem x names ≡ true
    subset-name x l e = mem_of_subset x (keys d) names l e

    one :
        (x : String)
        → (mem x (keys d) ≡ true → mem x names ≡ true)
        → (k == x || mem x (keys d)) ≡ true
        → mem x names ≡ true
    one x f e = elim (Bool-cases (k == x)) [
      | inl same ↦ ap (λ y. mem y names) (sym ((eq_iff k x).0 same)) ∙ m
      | inr differ ↦ f (ground (arith, differ, e))
    ]

    other : (x : String) → mem x (keys d) ≡ true → (k == x || mem x (keys d)) ≡ true
    other x e = ground (arith, e)

-- The candidate that completes a journal.
abbrev pub completed : Fields → String → Fields
completed document outcome = advanced document "complete" (some outcome) none

pub get-completed_outcome :
    (document : Fields) (outcome : String)
    → get (completed document outcome) "outcome" ≡ text outcome
unfolding advanced
get-completed_outcome document outcome =
    get-put (put "phase" (text "complete") document) "outcome" "outcome" (text outcome)

get-completed_rollback :
    (document : Fields) (outcome : String)
    → get (completed document outcome) "rollback_state" ≡ get document "rollback_state"
unfolding advanced
get-completed_rollback document outcome =
    get-put (put "phase" (text "complete") document) "outcome" "rollback_state" (text outcome)
    ∙ get-put document "phase" "rollback_state" (text "complete")

has_fields-completed :
    (document : Fields) (outcome : String)
    → has_fields document transaction_fields ≡ true
    → has_fields (completed document outcome) transaction_fields ≡ true
unfolding advanced
has_fields-completed document outcome h =
    has_fields-put "outcome" (text outcome) (put "phase" (text "complete") document)
      transaction_fields refl
      (has_fields-put "phase" (text "complete") document transaction_fields refl h)

pub check_identity-completed :
    (document : Fields) (outcome id : String)
    → get document "transaction_id" ≡ text id
    → check_identity document none ≡ ok tt
    → check_identity (completed document outcome) (some id) ≡ ok tt
unfolding check_identity
check_identity-completed document outcome id named h =
    let (closed, h₁) = require-ok (has_fields document transaction_fields) _ _ h in
    let (versioned, h₂) =
      require-ok
        (eq_value (get document "schema_id") (text "agent-workflow.task-transaction")
          && eq_value (get document "schema_version") (num 1))
        _ _ h₁ in
    let (transaction_id, read, h₃) = present-ok (as_text (get document "transaction_id")) _ _ h₂ in
    let (canonical, _) = require-ok (is_uuid transaction_id) _ _ h₃ in
    let same : transaction_id ≡ id =
      text-injective (sym (as_text-some _ transaction_id read) ∙ named) in
    let keeps = get-advanced document "complete" (some outcome) none in
    rw
      (
        has_fields-completed document outcome closed,
        keeps "schema_id" refl,
        keeps "schema_version" refl,
        keeps "transaction_id" refl,
        versioned,
        named,
        sym (ap is_uuid same) ∙ canonical,
        eq_refl id,
      )
      refl

pub check_header-completed :
    (py : Platform) (document : Fields) (outcome : String)
    → check_header py (completed document outcome) ≡ check_header py document
unfolding check_header
check_header-completed py document outcome =
    let keeps = get-advanced document "complete" (some outcome) none in
    rw
      (
        keeps "immutable_header" refl,
        keeps "journal_binding_digest" refl,
        keeps "task_id" refl,
        keeps "task_ref" refl,
      )
      refl

pub check_outcome-completed :
    (document : Fields) (outcome : String)
    → mem outcome outcomes ≡ true
    → check_outcome document ≡ ok tt
    → check_outcome (completed document outcome) ≡ ok tt
unfolding check_outcome
check_outcome-completed document outcome m h =
    let (mutable_state, _) =
      require-ok
        (is_some (as_arr (get document "diagnostics"))
          && is_some (as_obj (get document "rollback_state")))
        _ _ h in
    rw
      (
        get-advanced document "complete" (some outcome) none "diagnostics" refl,
        get-completed_rollback document outcome,
        get-completed_outcome document outcome,
        mutable_state,
        m,
      )
      (no_null (eq_value (get (completed document outcome) "phase") (text "complete")))
  where
    no_null :
        (b : Bool)
        → reject (b && false) (journal_failure "complete task journal has no outcome") ≡ ok tt
    no_null true = refl
    no_null false = refl
