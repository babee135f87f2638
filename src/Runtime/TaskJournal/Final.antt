-- ===== src/Runtime/TaskJournal/Final.antt =====
-- The last phase of runtime/task_journal.py's `_PHASES`: `complete` stands above every other phase.
use mathlib.Core.Option.{some-injective}
use agent_workflow_pack.Json.{lookup}
use agent_workflow_pack.Prelude.{
  &&-true, Bool, Bool-cases, List, Option, String, [], all, arith, eq_iff, false, if-false, if-true,
  inl, inr, ltb, none, refl, some, subst, sym, true, ℕ, ◌==◌, ◌||◌, ◌∙◌, ◌∷◌, ◌≡◌, ◌≤◌,
}
use agent_workflow_pack.Runtime.TaskJournal.{phases, rank_of}
use agent_workflow_pack.Runtime.TaskJournal.Check.{rank_of-found}

abbrev is_final : List (String × ℕ) → Bool
is_final ranks = elim (lookup ranks "complete") [
  | none ↦ false
  | some top ↦ all (λ (e : String × ℕ). e.0 == "complete" || ltb e.1 top) ranks
]

all_final : all (λ (e : String × List (String × ℕ)). is_final e.1) phases ≡ true
all_final = refl

lookup-all :
    {A : Type 0} (p : String × A → Bool) (m : List (String × A)) (k : String) (a : A)
    → all p m ≡ true
    → lookup m k ≡ some a
    → p (k, a) ≡ true
lookup-all p [] k a h e = cc
lookup-all p ((j, b) ∷ m) k a h e = elim (Bool-cases (j == k)) [
  | inl same ↦
      subst (λ x. p x ≡ true)
        (λ i. (
          (eq_iff j k).0 same i,
          some-injective b a (sym (if-true (j == k) (some b) (lookup m k) same) ∙ e) i,
        ))
        (&&-true (p (j, b)) (all p m) h).0
  | inr other ↦
      lookup-all p m k a (&&-true (p (j, b)) (all p m) h).1
        (sym (if-false (j == k) (some b) (lookup m k) other) ∙ e)
]

rank_of-ranks :
    (operation phase : String) (rank : ℕ)
    → rank_of operation phase ≡ some rank
    → (ranks : List (String × ℕ)) × (lookup phases operation ≡ some ranks)
      × (lookup ranks phase ≡ some rank)
unfolding rank_of
rank_of-ranks operation phase rank h = go (lookup phases operation) h
  where
    go :
        (o : Option (List (String × ℕ)))
        → elim o [ none ↦ none | some rs ↦ lookup rs phase ] ≡ some rank
        → (ranks : List (String × ℕ)) × (o ≡ some ranks) × (lookup ranks phase ≡ some rank)
    go none k = cc
    go (some ranks) k = (ranks, refl, k)

final_ranks :
    (ranks : List (String × ℕ))
    → is_final ranks ≡ true
    → (top : ℕ) × (lookup ranks "complete" ≡ some top)
      × (all (λ (e : String × ℕ). e.0 == "complete" || ltb e.1 top) ranks ≡ true)
final_ranks ranks h = go (lookup ranks "complete") h
  where
    go :
        (o : Option ℕ)
        → elim o [
          | none ↦ false
          | some top ↦ all (λ (e : String × ℕ). e.0 == "complete" || ltb e.1 top) ranks
        ]
          ≡ true
        → (top : ℕ) × (o ≡ some top)
          × (all (λ (e : String × ℕ). e.0 == "complete" || ltb e.1 top) ranks ≡ true)
    go none k = cc
    go (some top) k = (top, refl, k)

-- Every phase of an operation is `complete` or stands below it.
pub rank_of_complete :
    (operation phase : String) (rank : ℕ)
    → rank_of operation phase ≡ some rank
    → (top : ℕ) × (rank_of operation "complete" ≡ some top)
      × ((phase == "complete" || ltb rank top) ≡ true)
rank_of_complete operation phase rank h =
    let (ranks, found, at) = rank_of-ranks operation phase rank h in
    let final =
      lookup-all (λ (e : String × List (String × ℕ)). is_final e.1) phases operation ranks all_final
        found in
    let (top, last, below) = final_ranks ranks final in
    (
      top,
      rank_of-found operation "complete" ranks top found last,
      lookup-all (λ (e : String × ℕ). e.0 == "complete" || ltb e.1 top) ranks phase rank below at,
    )

-- From `complete` no rank leads to another phase.
pub complete_stays :
    (operation phase : String) (n m : ℕ)
    → rank_of operation "complete" ≡ some n
    → rank_of operation phase ≡ some m
    → n ≤ m
    → phase ≡ "complete"
complete_stays operation phase n m e h le =
    let (top, last, below) = rank_of_complete operation phase m h in
    (eq_iff phase "complete").0 (go (some-injective n top (sym e ∙ last)) below)
  where
    go :
        {top : ℕ}
        → n ≡ top
        → (phase == "complete" || ltb m top) ≡ true
        → (phase == "complete") ≡ true
    go same k = ground (arith, le)
