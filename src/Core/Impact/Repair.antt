-- ===== src/Core/Impact/Repair.antt =====
-- Repairs in core/impact.py: the selection is the drift, and the repaired surfaces are the contract's.
use agent_workflow_pack.Canonical.{distinct}
use agent_workflow_pack.Core.Impact.{
  Digests, SurfaceChange, drifted, names, repair_changes, repaired, same_digests, value_at,
}
use agent_workflow_pack.Core.Impact.Changes.{apply_surfaces, mem-distinct, value_at-missing}
use agent_workflow_pack.Prelude.{
  &&-true, Bool, Bool-cases, List, String, [], all, any, any-append, ap, arith, eq_iff, false,
  if◌then◌else◌, inl, inr, is_empty, keep, map, mem, not, refl, same_set, subset, subst, sym, true,
  true_of_iff, ◌&&◌, ◌++◌, ◌==◌, ◌||◌, ◌∙◌, ◌∷◌, ◌≡◌,
}
use agent_workflow_pack.Prelude.Text.Sets.{mem_of_subset}
use agent_workflow_pack.Result.{ok, ok-injective, reject-ok, require-ok}

pub mem-keep :
    (p : String → Bool) (k : String) (xs : List String) → mem k (keep p xs) ≡ (p k && mem k xs)
mem-keep p k [] = ground arith
mem-keep p k (x ∷ xs) = elim (Bool-cases (p x)) [
  | inl kept ↦ ground (arith, kept, eq_iff x k, λ (e : x ≡ k). ap p e, mem-keep p k xs)
  | inr gone ↦ ground (arith, gone, eq_iff x k, λ (e : x ≡ k). ap p e, mem-keep p k xs)
]

all_of_mem :
    (p : String → Bool) (k : String) (xs : List String)
    → all p xs ≡ true
    → mem k xs ≡ true
    → p k ≡ true
all_of_mem p k [] h m = cc
all_of_mem p k (x ∷ xs) h m = ground (arith, eq_iff x k, λ (e : x ≡ k). ap p e, all_of_mem p k xs)

both_missing :
    (a b : Digests) (k : String)
    → mem k (names a) ≡ false
    → mem k (names b) ≡ false
    → value_at a k ≡ value_at b k
both_missing a b k h e = value_at-missing a k h ∙ sym (value_at-missing b k e)

mem-distinct_names :
    (k : String) (xs ys : List String) → mem k (distinct (xs ++ ys)) ≡ (mem k xs || mem k ys)
mem-distinct_names k xs ys = mem-distinct k (xs ++ ys) ∙ any-append (λ y. y == k) xs ys

-- The surfaces that have drifted are those whose observed digest differs from the contract's.
pub drifted-mem :
    (current observed : Digests) (k : String)
    → mem k (drifted current observed) ≡ not (value_at observed k == value_at current k)
unfolding drifted
drifted-mem current observed k =
    let e =
      mem-keep (λ k. not (value_at observed k == value_at current k)) k
        (distinct (names current ++ names observed)) in
    let known = mem-distinct_names k (names current) (names observed) in
    elim (Bool-cases (mem k (distinct (names current ++ names observed)))) [
      | inl here ↦ e ∙ ground (arith, here)
      | inr out ↦
          let same =
            both_missing observed current k (ground (arith, out, known))
              (ground (arith, out, known)) in
          e ∙ ground (arith, out, same, eq_iff (value_at observed k) (value_at current k))
    ]

repaired-applied :
    (current observed candidate : Digests) (k : String) (selected : List String)
    → apply_surfaces (map (repaired current observed candidate) selected) observed k
      ≡ (if mem k selected then value_at candidate k else value_at observed k)
unfolding apply_surfaces
repaired-applied current observed candidate k [] = refl
repaired-applied current observed candidate k (i ∷ ids) = ground (
  arith,
  eq_iff i k,
  repaired-applied current observed candidate k ids,
  ap (λ x. value_at candidate x),
)

pub same_digests-at :
    (a b : Digests) (k : String) → same_digests a b ≡ true → value_at a k ≡ value_at b k
unfolding same_digests
same_digests-at a b k h =
    let (names_same, values_same) = &&-true (same_set (names a) (names b)) _ h in
    let (_, back) = &&-true (subset (names a) (names b)) _ names_same in
    elim (Bool-cases (mem k (names a))) [
      | inl here ↦
          (eq_iff (value_at a k) (value_at b k)).0
            (all_of_mem (λ k. value_at a k == value_at b k) k (names a) values_same here)
      | inr out ↦
          both_missing a b k out (ground (arith, out, mem_of_subset k (names b) (names a) back))
    ]

-- A repair that is accepted selects exactly the surfaces that have drifted, leaves the contract as it
-- is, and, applied to what is observed, gives every surface the digest of the contract.
pub repair_changes-applied :
    (current observed candidate : Digests) (selected : List String) (cs : List SurfaceChange)
    → repair_changes current observed candidate selected ≡ ok cs
    → (k : String)
    → (mem k selected ≡ not (value_at observed k == value_at current k))
      × (value_at candidate k ≡ value_at current k)
      × (apply_surfaces cs observed k ≡ value_at current k)
unfolding repair_changes
repair_changes-applied current observed candidate selected cs h k =
    let (unchanged, h₁) = require-ok (same_digests current candidate) _ _ h in
    let (_, h₂) = reject-ok (is_empty selected) _ _ h₁ in
    let (_, h₃) = require-ok (subset selected (names current)) _ _ h₂ in
    let (covered, h₄) = require-ok (same_set (drifted current observed) selected) _ _ h₃ in
    let (there, back) = &&-true (subset (drifted current observed) selected) _ covered in
    let exact : mem k selected ≡ mem k (drifted current observed) =
      true_of_iff (mem k selected) (mem k (drifted current observed))
        (mem_of_subset k selected (drifted current observed) back)
        (mem_of_subset k (drifted current observed) selected there) in
    let contract = same_digests-at current candidate k unchanged in
    (
      exact ∙ drifted-mem current observed k,
      sym contract,
      subst (λ x. apply_surfaces x observed k ≡ value_at current k) (ok-injective h₄)
          (repaired-applied current observed candidate k selected
            ∙ ground (
              arith,
              exact,
              contract,
              drifted-mem current observed k,
              eq_iff (value_at observed k) (value_at current k),
            )),
    )

-- No change of a repair is a change of the contract.
pub repair_changes-kind :
    (current observed candidate : Digests) (selected : List String) (cs : List SurfaceChange)
    → repair_changes current observed candidate selected ≡ ok cs
    → any (λ (c : SurfaceChange). c.change_kind == "contract-change") cs ≡ false
unfolding repair_changes
repair_changes-kind current observed candidate selected cs h =
    let (_, h₁) = require-ok (same_digests current candidate) _ _ h in
    let (_, h₂) = reject-ok (is_empty selected) _ _ h₁ in
    let (_, h₃) = require-ok (subset selected (names current)) _ _ h₂ in
    let (_, h₄) = require-ok (same_set (drifted current observed) selected) _ _ h₃ in
    subst (λ x. any (λ (c : SurfaceChange). c.change_kind == "contract-change") x ≡ false)
      (ok-injective h₄) (go selected)
  where
    go :
        (ids : List String)
        → any
            (λ (c : SurfaceChange). c.change_kind == "contract-change")
            (map (repaired current observed candidate) ids)
          ≡ false
    go [] = refl
    go (k ∷ ids) = go ids
