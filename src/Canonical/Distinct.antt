-- ===== src/Canonical/Distinct.antt =====
-- `set(xs)` of texts, as the list that Canonical's `distinct` makes of it.
use agent_workflow_pack.Canonical.{distinct}
use agent_workflow_pack.Prelude.{
  Bool, Bool-cases, List, String, [], any, ap, arith, eq_iff, inl, inr, mem, refl, true, ◌∷◌, ◌≡◌,
}

pub any_of_mem :
    (p : String → Bool) (x : String) (xs : List String)
    → mem x xs ≡ true
    → p x ≡ true
    → any p xs ≡ true
any_of_mem p x [] m h = cc
any_of_mem p x (y ∷ xs) m h = ground (arith, any_of_mem p x xs, λ (e : x ≡ y). ap p e, eq_iff y x)

-- A test that some text passes does not see that the repeated ones are left out.
pub any-distinct : (p : String → Bool) (xs : List String) → any p (distinct xs) ≡ any p xs
any-distinct p [] = refl
any-distinct p (x ∷ xs) = elim (Bool-cases (mem x (distinct xs))) [
  | inl seen ↦ ground (arith, seen, any-distinct p xs, any_of_mem p x (distinct xs) seen)
  | inr new ↦ ground (arith, new, any-distinct p xs)
]
