-- ===== src/Route/Calculator/Fresh.antt =====
-- The loop of route/calculator.py that draws a task identity until one is free.
-- The first `n` UUIDs of the stream.
use agent_workflow_pack.Canonical.{distinct}
use agent_workflow_pack.Prelude.{
  Bool-cases, List, String, [], ap, arith, false, inl, inr, length, mem, no_repeat, refl, subset,
  suc, true, zero, ℕ, ◌∷◌, ◌≡◌, ◌⊎◌,
}
use agent_workflow_pack.Prelude.Text.Sets.{pigeonhole}
use agent_workflow_pack.Result.{ok}
use agent_workflow_pack.Route.Calculator.{fresh_task_id}

abbrev pub drawn : ℕ → (ℕ → String) → List String
drawn zero uuids = []
drawn (suc n) uuids = uuids 0 ∷ drawn n (λ k. uuids (suc k))

length-drawn : (n : ℕ) (uuids : ℕ → String) → length (drawn n uuids) ≡ n
length-drawn zero uuids = refl
length-drawn (suc n) uuids = ap suc (length-drawn n (λ k. uuids (suc k)))

-- A drawn identity is free.
pub fresh_task_id-free :
    (rounds : ℕ) (uuids : ℕ → String) (taken : List String) {id : String}
    → fresh_task_id rounds uuids taken ≡ ok id
    → mem id taken ≡ false
unfolding fresh_task_id
fresh_task_id-free zero uuids taken h = cc
fresh_task_id-free (suc n) uuids taken h = elim (Bool-cases (mem (uuids 0) taken)) [
  | inl used ↦ fresh_task_id-free n (λ k. uuids (suc k)) taken (ground arith)
  | inr free ↦ ground arith
]

-- The loop ends with an identity, or all that it drew is taken.
fresh_task_id-cases :
    (rounds : ℕ) (uuids : ℕ → String) (taken : List String)
    → ((id : String) × (fresh_task_id rounds uuids taken ≡ ok id))
      ⊎ (subset (drawn rounds uuids) taken ≡ true)
unfolding fresh_task_id
fresh_task_id-cases zero uuids taken = inr refl
fresh_task_id-cases (suc n) uuids taken = elim (Bool-cases (mem (uuids 0) taken)) [
  | inl used ↦ elim (fresh_task_id-cases n (λ k. uuids (suc k)) taken) [
    | inl (id, e) ↦ inl (id, ground arith)
    | inr all_used ↦ inr (ground arith)
  ]
  | inr free ↦ inl (uuids 0, ground arith)
]

-- Where the UUIDs drawn are distinct, one more draw than there are tasks ends the loop, with an
-- identity that no task has.
pub fresh_task_id-total :
    (uuids : ℕ → String) (taken : List String)
    → no_repeat (drawn (suc (length taken)) uuids) ≡ true
    → (id : String) × (fresh_task_id (suc (length taken)) uuids taken ≡ ok id)
      × (mem id taken ≡ false)
fresh_task_id-total uuids taken distinct =
    elim (fresh_task_id-cases (suc (length taken)) uuids taken) [
      | inl (id, e) ↦ (id, e, fresh_task_id-free (suc (length taken)) uuids taken e)
      | inr used ↦ absurd (
          omega (
            arith,
            pigeonhole (drawn (suc (length taken)) uuids) taken distinct used,
            length-drawn (suc (length taken)) uuids,
          ))
    ]
