-- ===== src/Runtime/TaskJournal/Run.antt =====
-- That runtime/task_journal.py can end a valid journal, and reads back what it wrote.
use mathlib.Core.Option.{some-injective}
use agent_workflow_pack.Canonical.{canonical_json}
use agent_workflow_pack.Core.Catalog.{rank}
use agent_workflow_pack.Io.{bind-ok, bind-run, lift-ok, lift-run, pure}
use agent_workflow_pack.Json.{Fields, Value, as_text, get, obj, text}
use agent_workflow_pack.Platform.{Platform}
use agent_workflow_pack.Prelude.{
  Bool, Bool-cases, Option, String, [], ap, arith, eq_iff, eq_refl, false, if-false, if-true, inl,
  inr, leb, mem, none, refl, some, subst, sym, true, ℕ, ◌&&◌, ◌==◌, ◌||◌, ◌∙◌, ◌∷◌, ◌≡◌,
}
use agent_workflow_pack.Reconcile.Files.{Tree, is_directory, regular}
use agent_workflow_pack.Result.{
  >>=-run, Result, err, is_ok, key_error, ok, os_error, present, require, require-run,
}
use agent_workflow_pack.Runtime.TaskJournal.{
  journal_failure, outcomes, phase_rank, rank_of, validate_fields,
}
use agent_workflow_pack.Runtime.TaskJournal.Advance.{
  advance_task_journal-Advanced, get-advanced, get-advanced_phase,
}
use agent_workflow_pack.Runtime.TaskJournal.Check.{
  Valid, phase_rank-of, phase_rank-ok, text-injective, validate_fields-Valid, validate_fields-ok,
}
use agent_workflow_pack.Runtime.TaskJournal.Complete.{
  IsWritable, atomic_json-ok, check_header-completed, check_identity-completed,
  check_outcome-completed, completed, get-completed_outcome, with_journal,
}
use agent_workflow_pack.Runtime.TaskJournal.Final.{rank_of_complete}
use agent_workflow_pack.Runtime.TaskJournal.Read.{journal_path, read_task_journal, read_text}
use agent_workflow_pack.Runtime.TaskJournal.Store.{
  advance_task_journal, atomic_json, make_root, not_backward, replace_journal, text_of,
}

not_backward_complete :
    (operation phase : String) (rank : ℕ)
    → rank_of operation phase ≡ some rank
    → not_backward (rank_of operation "complete") rank ≡ true
not_backward_complete operation phase rank h =
    let (top, last, below) = rank_of_complete operation phase rank h in
    ap (λ o. not_backward o rank) last ∙ (elim (Bool-cases (phase == "complete")) [
      | inl e ↦ same_rank (
          some-injective rank top
            (sym h ∙ ap (rank_of operation) ((eq_iff phase "complete").0 e) ∙ last))
      | inr e ↦ ground (arith, e, below)
    ])
  where
    same_rank : {top : ℕ} → rank ≡ top → leb rank top ≡ true
    same_rank e = ground (arith, e)

completed-Valid :
    (py : Platform) (document : Fields) (outcome id : String)
    → Valid py document none
    → get document "transaction_id" ≡ text id
    → mem outcome outcomes ≡ true
    → Valid py (completed document outcome) (some id)
completed-Valid py document outcome id v named m =
    let r = phase_rank-ok document v.rank v.ranked in
    let (top, last, below) = rank_of_complete r.operation r.phase v.rank r.has_rank in
    record {
      identity = check_identity-completed document outcome id named v.identity;
      rank = top;
      ranked =
          phase_rank-of (completed document outcome) r.operation "complete" top
            (get-advanced document "complete" (some outcome) none "operation" refl
              ∙ r.has_operation)
            (get-advanced_phase document "complete" (some outcome) none) last;
      header = check_header-completed py document outcome ∙ v.header;
      outcome = check_outcome-completed document outcome m v.outcome;
    }

text_of-run :
    (document : Fields) (k s : String) → get document k ≡ text s → text_of document k ≡ ok s
text_of-run document k s h = ap (λ v. present (as_text v) key_error) h

-- The ends that the design of a task transaction allows: as committed once only the cleanup is pending,
-- and as rolled back before the commit, where the operation moves a task.
abbrev pub may_end : String → String → String → Bool
may_end operation phase outcome =
    phase == "cleanup_pending" && outcome == "committed"
    || mem operation ("admit" ∷ "archive" ∷ [])
      && mem phase ("planned" ∷ "staged" ∷ "state_marked" ∷ "task_moved" ∷ "metadata_applied" ∷ [])
      && outcome == "rolled-back"

may_end-outcomes :
    (operation phase outcome : String)
    → may_end operation phase outcome ≡ true
    → mem outcome outcomes ≡ true
may_end-outcomes operation phase outcome h = ground (
  arith,
  h,
  eq_iff outcome "committed",
  eq_iff "committed" outcome,
  eq_iff outcome "rolled-back",
  eq_iff "rolled-back" outcome,
)

-- A transaction that may end in an outcome does so, where its journal is valid, the journals' directory
-- is there and the candidate has a canonical text: as committed when only its cleanup is pending, as
-- rolled back when an admission or an archival has not reached its commit. The call returns the journal
-- with the phase `complete` and that outcome, and its file holds the text.
pub advance_task_journal-completes :
    (py : Platform) (document : Fields) (operation phase outcome id path payload : String)
    (tree : Tree)
    → validate_fields py document none ≡ ok document
    → get document "operation" ≡ text operation
    → get document "phase" ≡ text phase
    → may_end operation phase outcome ≡ true
    → get document "transaction_id" ≡ text id
    → journal_path id ≡ ok path
    → IsWritable tree path
    → canonical_json py (obj (completed document outcome)) ≡ ok payload
    → (advance_task_journal py document "complete" (some outcome) none tree
        ≡ (ok (completed document outcome), with_journal path payload tree))
      × (get (completed document outcome) "phase" ≡ text "complete")
      × (get (completed document outcome) "outcome" ≡ text outcome)
unfolding advance_task_journal
advance_task_journal-completes py document operation phase outcome id path payload tree valid
      has_operation has_phase may named at w written =
    let m = may_end-outcomes operation phase outcome may in
    let (_, v) = validate_fields-ok py document none document valid in
    let r = phase_rank-ok document v.rank v.ranked in
    let kept = get-advanced document "complete" (some outcome) none "transaction_id" refl ∙ named in
    (
      lift-run (validate_fields py document none) _ tree valid
          ∙ lift-run (text_of document "operation") _ tree
              (text_of-run document _ _ r.has_operation)
          ∙ lift-run (phase_rank document) _ tree v.ranked
          ∙ lift-run _ _ tree
              (require-run _ _ (not_backward_complete r.operation r.phase v.rank r.has_rank))
          ∙ lift-run (text_of (completed document outcome) "transaction_id") _ tree
              (text_of-run (completed document outcome) _ id kept)
          ∙ lift-run (validate_fields py (completed document outcome) (some id)) _ tree
              (validate_fields-Valid py _ _ (completed-Valid py document outcome id v named m))
          ∙ lift-run (journal_path id) _ tree at
          ∙ bind-run (atomic_json py path (completed document outcome))
              (λ _. pure (completed document outcome)) tree
              (atomic_json-ok py path payload (completed document outcome) tree written w),
      get-advanced_phase document "complete" (some outcome) none,
      get-completed_outcome document outcome,
    )

-- What was written.
replace_journal-node :
    (path payload : String) (tree tree' : Tree)
    → replace_journal path payload tree ≡ (ok tt, tree')
    → tree'.node path ≡ regular 384 payload
unfolding replace_journal
replace_journal-node path payload tree tree' h = elim (Bool-cases (is_directory (tree.node path))) [
  | inl e ↦ absurd (failed (sym (if-true (is_directory (tree.node path)) _ _ e) ∙ h))
  | inr e ↦
      ap (λ (r : Result (Unit {0}) × Tree). r.1.node path)
        (sym h ∙ if-false (is_directory (tree.node path)) _ _ e)
      ∙ if-true (path == path) _ _ (eq_refl path)
]
  where
    failed : {s : Tree} → ◌≡◌ {A = Result (Unit {0}) × Tree} (err os_error, s) (ok tt, tree') → ⊥
    failed k = clash (ap (λ (r : Result (Unit {0}) × Tree). is_ok r.0) k)
      where
        clash : false ≡ true → ⊥
        clash c = cc

atomic_json-node :
    (py : Platform) (path : String) (document : Fields) (tree tree' : Tree)
    → atomic_json py path document tree ≡ (ok tt, tree')
    → (payload : String) × (canonical_json py (obj document) ≡ ok payload)
      × (tree'.node path ≡ regular 384 payload)
unfolding atomic_json
atomic_json-node py path document tree tree' h =
    let (_, s, _, h₁) = bind-ok make_root _ tree h in
    let (payload, written, h₂) = lift-ok (canonical_json py (obj document)) _ s h₁ in
    (payload, written, replace_journal-node path payload s tree' h₂)

read_text-run :
    (path payload : String) (tree : Tree)
    → tree.node path ≡ regular 384 payload
    → read_text path tree ≡ ok payload
read_text-run path payload tree h = rw (h, read_text) refl

-- A journal that an advance has returned is what a reader finds at its path, where `json.loads` gives
-- the returned document back from its canonical text.
pub read_task_journal-advanced :
    (py : Platform) (json_loads : String → Option Value) (document : Fields) (phase : String)
    (outcome : Option String) (rollback : Option Fields) (tree : Tree) (c : Fields) (tree' : Tree)
    (id : String)
    → ((payload : String)
        → canonical_json py (obj c) ≡ ok payload
        → json_loads payload ≡ some (obj c))
    → advance_task_journal py document phase outcome rollback tree ≡ (ok c, tree')
    → get document "transaction_id" ≡ text id
    → read_task_journal py json_loads id tree' ≡ ok c
unfolding read_task_journal
read_task_journal-advanced py json_loads document phase outcome rollback tree c tree' id loads h
      named =
    let a = advance_task_journal-Advanced py document phase outcome rollback tree c tree' h in
    let (payload, written, holds) = atomic_json-node py a.path c tree tree' a.stored in
    let same : a.transaction_id ≡ id = text-injective (
      sym a.identity
      ∙ ap (λ d. get d "transaction_id") a.candidate
      ∙ get-advanced document phase outcome rollback "transaction_id" refl
      ∙ named) in
    >>=-run (journal_path id) _ (sym (ap journal_path same) ∙ a.has_path)
    ∙ >>=-run (read_text a.path tree') _ (read_text-run a.path payload tree' holds)
    ∙ >>=-run (present (json_loads payload) (journal_failure "task journal is corrupt")) _
        (ap (λ o. present o (journal_failure "task journal is corrupt")) (loads payload written))
    ∙ >>=-run (canonical_json py (obj c)) _ written
    ∙ >>=-run (require (payload == payload) (journal_failure "task journal is not canonical")) _
        (require-run (payload == payload) _ (eq_refl payload))
    ∙ validate_fields-Valid py c (some id) (subst (λ x. Valid py c (some x)) same a.after)
