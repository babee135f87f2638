-- ===== src/Runtime/TaskJournal/History.antt =====
-- The life of a journal of runtime/task_journal.py: its phases go forward, and its identity stays.
use agent_workflow_pack.Json.{Fields, get, text}
use agent_workflow_pack.Platform.{Platform}
use agent_workflow_pack.Prelude.{
  Option, String, ap, arith, false, mem, none, refl, some, subst, sym, true, ℕ, ◌∙◌, ◌≡◌, ◌≤◌,
}
use agent_workflow_pack.Reconcile.Files.{Tree}
use agent_workflow_pack.Result.{ok, ok-injective}
use agent_workflow_pack.Runtime.TaskJournal.{phase_rank, rank_of, validate_fields}
use agent_workflow_pack.Runtime.TaskJournal.Advance.{
  advance_task_journal-Advanced, get-advanced, get-advanced_phase, mutable_fields,
}
use agent_workflow_pack.Runtime.TaskJournal.Check.{
  Valid-unexpected, phase_rank-of, phase_rank-ok, text-injective, validate_fields-Valid,
}
use agent_workflow_pack.Runtime.TaskJournal.Final.{complete_stays}
use agent_workflow_pack.Runtime.TaskJournal.Store.{advance_task_journal, not_backward}

not_backward-leb :
    (o : Option ℕ) (n : ℕ) → not_backward o n ≡ true → (m : ℕ) × (o ≡ some m) × (n ≤ m)
not_backward-leb none n h = cc
not_backward-leb (some m) n h = (m, refl, ground arith)

-- An advance that returns keeps every field but the phase, the outcome and the state of a rollback, and
-- does not lower the rank of the phase; what it returns is a valid journal.
pub advance_task_journal-forward :
    (py : Platform) (document : Fields) (phase : String) (outcome : Option String)
    (rollback : Option Fields) (tree : Tree) (c : Fields) (tree' : Tree) (n : ℕ) (k : String)
    → advance_task_journal py document phase outcome rollback tree ≡ (ok c, tree')
    → phase_rank document ≡ ok n
    → mem k mutable_fields ≡ false
    → (get c k ≡ get document k)
      × ((m : ℕ) × (phase_rank c ≡ ok m) × (n ≤ m))
      × (validate_fields py c none ≡ ok c)
advance_task_journal-forward py document phase outcome rollback tree c tree' n k h ranked kept =
    let a = advance_task_journal-Advanced py document phase outcome rollback tree c tree' h in
    let (m, at, up) = not_backward-leb (rank_of a.operation phase) a.before.rank a.reached in
    let keeps = λ (j : String) (e : mem j mutable_fields ≡ false).
      ap (λ d. get d j) a.candidate ∙ get-advanced document phase outcome rollback j e in
    (
      keeps k kept,
      (
        m,
        phase_rank-of c a.operation phase m (keeps "operation" refl ∙ a.has_operation)
            (ap (λ d. get d "phase") a.candidate
              ∙ get-advanced_phase document phase outcome rollback)
            at,
        subst (λ x. x ≤ m) (ok-injective (sym a.before.ranked ∙ ranked)) up,
      ),
      validate_fields-Valid py c none (Valid-unexpected py c a.transaction_id a.after),
    )

-- The journals that advances lead to from one journal, whatever the files are between them.
pub data History (py : Platform) (start : Fields) : Fields → Type 0 where
  started : History py start start
  advanced_to :
      (d c : Fields) (phase : String) (outcome : Option String) (rollback : Option Fields)
      (tree tree' : Tree)
      → History py start d
      → advance_task_journal py d phase outcome rollback tree ≡ (ok c, tree')
      → History py start c

-- Along any sequence of advances the identity of the transaction and every other field that is not
-- the phase, the outcome or the state of a rollback stay as they were, and the rank of the phase never
-- falls below the one at the start.
pub History-forward :
    (py : Platform) (start c : Fields) (n : ℕ) (k : String)
    → History py start c
    → phase_rank start ≡ ok n
    → mem k mutable_fields ≡ false
    → (get c k ≡ get start k) × ((m : ℕ) × (phase_rank c ≡ ok m) × (n ≤ m))
History-forward py start _ n k started ranked kept = (refl, (n, ranked, ground arith))
History-forward py start _ n k (advanced_to d c p o r t t' life h) ranked kept =
    let (same, (m, at, up)) = History-forward py start d n k life ranked kept in
    let (same', (m', at', up'), _) = advance_task_journal-forward py d p o r t c t' m k h at kept in
    (same' ∙ same, (m', at', ground (arith, up, up')))

advance_task_journal_complete :
    (py : Platform) (document : Fields) (phase : String) (outcome : Option String)
    (rollback : Option Fields) (tree : Tree) (c : Fields) (tree' : Tree)
    → advance_task_journal py document phase outcome rollback tree ≡ (ok c, tree')
    → get document "phase" ≡ text "complete"
    → get c "phase" ≡ text "complete"
advance_task_journal_complete py document phase outcome rollback tree c tree' h complete =
    let a = advance_task_journal-Advanced py document phase outcome rollback tree c tree' h in
    let (m, at, up) = not_backward-leb (rank_of a.operation phase) a.before.rank a.reached in
    let r = phase_rank-ok document a.before.rank a.before.ranked in
    let operation = text-injective (sym r.has_operation ∙ a.has_operation) in
    let last = text-injective (sym r.has_phase ∙ complete) in
    ap (λ d. get d "phase") a.candidate
    ∙ get-advanced_phase document phase outcome rollback
    ∙ ap text (
        complete_stays a.operation phase a.before.rank m
          (ap (λ o. rank_of o "complete") (sym operation)
            ∙ ap (rank_of r.operation) (sym last)
            ∙ r.has_rank)
          at up)

-- A transaction that is complete stays complete, whatever advances follow.
pub History-complete :
    (py : Platform) (start c : Fields)
    → History py start c
    → get start "phase" ≡ text "complete"
    → get c "phase" ≡ text "complete"
History-complete py start _ started complete = complete
History-complete py start _ (advanced_to d c p o r t t' life h) complete =
    advance_task_journal_complete py d p o r t c t' h (History-complete py start d life complete)
