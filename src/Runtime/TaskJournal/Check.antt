-- ===== src/Runtime/TaskJournal/Check.antt =====
-- What a journal has that `_validate` of runtime/task_journal.py accepts.
use mathlib.Core.Option.{some-injective}
use agent_workflow_pack.Ident.{is_uuid}
use agent_workflow_pack.Json.{
  Fields, Value, arr, as_text, bool, eq_value, get, has_fields, int, lookup, null, num, obj, text,
}
use agent_workflow_pack.Platform.{Platform}
use agent_workflow_pack.Prelude.{List, Option, String, ap, none, refl, some, sym, ℕ, ◌&&◌, ◌∙◌, ◌≡◌}
use agent_workflow_pack.Result.{
  >>=-eq-ok, Exn, ok, ok-injective, present, present-ok, require-ok, ◌>>=◌,
}
use agent_workflow_pack.Runtime.TaskJournal.{
  check_header, check_identity, check_outcome, journal_failure, transaction_fields, phase_rank,
  phases, rank_of, validate_fields,
}

pub as_text-some : (v : Value) (s : String) → as_text v ≡ some s → v ≡ text s
as_text-some (text t) s h = ap text (some-injective t s h)
as_text-some null s h = cc
as_text-some (bool b) s h = cc
as_text-some (int n) s h = cc
as_text-some (arr vs) s h = cc
as_text-some (obj d) s h = cc

-- The parts of an accepted journal.
pub record Valid (py : Platform) (document : Fields) (expected : Option String) : Type 0 where
  pub identity : check_identity document expected ≡ ok tt
  pub rank : ℕ
  pub ranked : phase_rank document ≡ ok rank
  pub header : check_header py document ≡ ok tt
  pub outcome : check_outcome document ≡ ok tt

pub validate_fields-ok :
    (py : Platform) (document : Fields) (expected : Option String) (c : Fields)
    → validate_fields py document expected ≡ ok c
    → (c ≡ document) × Valid py document expected
unfolding validate_fields
validate_fields-ok py document expected c h =
    let (tt, identity, h₁) = >>=-eq-ok (check_identity document expected) _ h in
    let (rank, ranked, h₂) = >>=-eq-ok (phase_rank document) _ h₁ in
    let (tt, header, h₃) = >>=-eq-ok (check_header py document) _ h₂ in
    let (tt, outcome, h₄) = >>=-eq-ok (check_outcome document) _ h₃ in
    (
      sym (ok-injective h₄),
      record {
        identity = identity;
        rank = rank;
        ranked = ranked;
        header = header;
        outcome = outcome;
      },
    )

-- A journal whose parts are accepted is accepted.
pub validate_fields-Valid :
    (py : Platform) (document : Fields) (expected : Option String)
    → Valid py document expected
    → validate_fields py document expected ≡ ok document
unfolding validate_fields
validate_fields-Valid py document expected v = rw (v.identity, v.ranked, v.header, v.outcome) refl

-- The operation and the phase of a journal whose phase has a rank.
pub record Ranked (document : Fields) (rank : ℕ) : Type 0 where
  pub operation : String
  pub phase : String
  pub has_operation : get document "operation" ≡ text operation
  pub has_phase : get document "phase" ≡ text phase
  pub has_rank : rank_of operation phase ≡ some rank

pub rank_of-found :
    (operation phase : String) (ranks : List (String × ℕ)) (rank : ℕ)
    → lookup phases operation ≡ some ranks
    → lookup ranks phase ≡ some rank
    → rank_of operation phase ≡ some rank
unfolding rank_of
rank_of-found operation phase ranks rank e at =
    ap (λ o. elim o [ none ↦ none | some rs ↦ lookup rs phase ]) e ∙ at

pub phase_rank-ok :
    (document : Fields) (rank : ℕ) → phase_rank document ≡ ok rank → Ranked document rank
unfolding phase_rank
phase_rank-ok document rank h =
    let (operation, e, h₁) = present-ok (as_text (get document "operation")) _ _ h in
    let (ranks, found, h₂) = present-ok (lookup phases operation) _ _ h₁ in
    let (phase, e', h₃) = present-ok (as_text (get document "phase")) _ _ h₂ in
    let (r, at, same) = present_last (lookup ranks phase) _ h₃ in
    record {
      operation = operation;
      phase = phase;
      has_operation = as_text-some _ operation e;
      has_phase = as_text-some _ phase e';
      has_rank = rank_of-found operation phase ranks rank found (at ∙ ap (λ n. some n) same);
    }
  where
    present_last :
        (o : Option ℕ) (x : Exn) → present o x ≡ ok rank → (r : ℕ) × (o ≡ some r) × (r ≡ rank)
    present_last none x k = cc
    present_last (some r) x k = (r, refl, ok-injective k)

-- The rank of a journal is that of its operation's phase.
pub phase_rank-of :
    (document : Fields) (operation phase : String) (rank : ℕ)
    → get document "operation" ≡ text operation
    → get document "phase" ≡ text phase
    → rank_of operation phase ≡ some rank
    → phase_rank document ≡ ok rank
unfolding phase_rank rank_of
phase_rank-of document operation phase rank e e' h = rw (e, e') (go (lookup phases operation) h)
  where
    go :
        (o : Option (List (String × ℕ)))
        → elim o [ none ↦ none | some ranks ↦ lookup ranks phase ] ≡ some rank
        → (present o (journal_failure "task journal operation is invalid") >>= λ ranks.
            present (lookup ranks phase) (journal_failure "task journal phase is invalid"))
          ≡ ok rank
    go none k = cc
    go (some ranks) k = rw k refl

-- A journal that is valid at its path is valid where no path is expected.
pub check_identity-unexpected :
    (document : Fields) (id : String)
    → check_identity document (some id) ≡ ok tt
    → check_identity document none ≡ ok tt
unfolding check_identity
check_identity-unexpected document id h =
    let (closed, h₁) = require-ok (has_fields document transaction_fields) _ _ h in
    let (versioned, h₂) =
      require-ok
        (eq_value (get document "schema_id") (text "agent-workflow.task-transaction")
          && eq_value (get document "schema_version") (num 1))
        _ _ h₁ in
    let (transaction_id, named, h₃) = present-ok (as_text (get document "transaction_id")) _ _ h₂ in
    let (canonical, _) = require-ok (is_uuid transaction_id) _ _ h₃ in
    rw (closed, versioned, named, canonical) refl

pub Valid-unexpected :
    (py : Platform) (document : Fields) (id : String)
    → Valid py document (some id)
    → Valid py document none
Valid-unexpected py document id v = record {
  identity = check_identity-unexpected document id v.identity;
  rank = v.rank;
  ranked = v.ranked;
  header = v.header;
  outcome = v.outcome;
}

pub text-injective : {s t : String} → text s ≡ text t → s ≡ t
text-injective {s} {t} h = ap (λ v. from v) h
  where
    from : Value → String
    from (text x) = x
    from _ = s
