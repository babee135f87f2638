-- ===== src/Providers/Attempts/Moves.antt =====
-- The state machine of one provider attempt in providers/attempts.py.
-- prepared → released → succeeded, failed or interrupted; a live attempt may be interrupted.
use agent_workflow_pack.Json.{Fields, Value, get, mem_value, obj, text}
use agent_workflow_pack.Prelude.{
  Bool-cases, List, String, [], ap, arith, eq_iff, false, get_elem?, inl, inr, mem, none, refl, set,
  some, subst, suc, true, zero, ℕ, ◌==◌, ◌∙◌, ◌∷◌, ◌≡◌, ◌⊎◌,
}
use agent_workflow_pack.Providers.Attempts.{live_states, terminal_states}

pub data Move : Value → Value → Type 0 where
  release : Move (text "prepared") (text "released")
  finish : (s : String) → mem s terminal_states ≡ true → Move (text "released") (text s)
  stop : (s : String) → mem s live_states ≡ true → Move (text s) (text "interrupted")

abbrev pub IsTerminal : Fields → Type 0
IsTerminal raw = mem_value (get raw "state") terminal_states ≡ true

-- Nothing moves out of a terminal state.
pub Move-source : {v w : Value} → Move v w → mem_value v terminal_states ≡ false
Move-source release = refl
Move-source (finish s h) = refl
Move-source (stop s h) = go s h
  where
    go : (s : String) → mem s live_states ≡ true → mem s terminal_states ≡ false
    go s h = elim (Bool-cases ("prepared" == s)) [
      | inl e ↦ subst (λ x. mem x terminal_states ≡ false) ((eq_iff "prepared" s).0 e) refl
      | inr e ↦
          subst (λ x. mem x terminal_states ≡ false)
            ((eq_iff "released" s).0 (ground (arith, e, h))) refl
    ]

-- The attempt with an identity, at its index, has made the move from one state to another; its identity
-- and token are what they were.
pub record Advanced (before after : List Value) (attempt_id : String) (from_state to_state : Value)
    : Type 0 where
  pub index : ℕ
  pub raw : Fields
  pub changed : Fields
  pub at : get_elem? before index ≡ some (obj raw)
  pub replaced : after ≡ set before index (obj changed)
  pub named_id : get raw "attempt_id" ≡ text attempt_id
  pub was : get raw "state" ≡ from_state
  pub is : get changed "state" ≡ to_state
  pub move : Move from_state to_state
  pub same_id : get changed "attempt_id" ≡ get raw "attempt_id"
  pub same_token : get changed "release_token_digest" ≡ get raw "release_token_digest"

get_elem?-set :
    {A : Type 0} (xs : List A) (i j : ℕ) (v : A)
    → (get_elem? (set xs i v) j ≡ get_elem? xs j)
      ⊎ ((i ≡ j) × (get_elem? (set xs i v) j ≡ some v))
      ⊎ (get_elem? xs i ≡ none)
get_elem?-set [] i j v = inl refl
get_elem?-set (x ∷ xs) zero zero v = inr (inl (refl, refl))
get_elem?-set (x ∷ xs) zero (suc j) v = inl refl
get_elem?-set (x ∷ xs) (suc i) zero v = inl refl
get_elem?-set (x ∷ xs) (suc i) (suc j) v = elim (get_elem?-set xs i j v) [
  | inl e ↦ inl e
  | inr (inl (e, f)) ↦ inr (inl (ap suc e, f))
  | inr (inr e) ↦ inr (inr e)
]

-- An attempt that has ended stays as it is.
pub Advanced-keeps_terminal :
    {before after : List Value} {id : String} {v w : Value} (j : ℕ) (r : Fields)
    → Advanced before after id v w
    → get_elem? before j ≡ some (obj r)
    → IsTerminal r
    → get_elem? after j ≡ some (obj r)
Advanced-keeps_terminal {before} {after} {id} {v} {w} j r a at ended =
    elim (get_elem?-set before a.index j (obj a.changed)) [
      | inl same ↦ rw (a.replaced) (same ∙ at)
      | inr (inl (here, _)) ↦ absurd (
          ground (
            arith,
            at,
            a.at,
            ended,
            here,
            ap (λ i. get_elem? before i) here,
            a.was,
            Move-source a.move,
          ))
      | inr (inr out) ↦ absurd (cc (a.at, out))
    ]
