-- ===== src/Core/Impact/Changes.antt =====
-- The change lists of core/impact.py: applied to what stands, each gives the candidate.
use agent_workflow_pack.Canonical.{canonical_null, distinct}
use agent_workflow_pack.Canonical.Distinct.{any-distinct}
use agent_workflow_pack.Core.Impact.{
  AuthorityChange, Digests, SurfaceChange, authority_changes, authority_changes_from, authority_ids,
  contract_changes, contract_changes_from, names, value_at,
}
use agent_workflow_pack.Json.{lookup}
use agent_workflow_pack.Prelude.{
  All, Bool, Bool-cases, List, String, [], any-append, ap, arith, eq_iff, false, if◌then◌else◌, inl,
  inr, keep_if, mem, none, not, refl, sorted_texts, subst, sym, true, ◌++◌, ◌==◌, ◌||◌, ◌∙◌, ◌∷◌,
  ◌≡◌, ◌⊎◌,
}
use agent_workflow_pack.Prelude.Text.Sets.{mem-sorted}
use agent_workflow_pack.Result.{map_result-ok, ok, ok-injective, require-ok}

lookup-missing : (m : Digests) (k : String) → mem k (names m) ≡ false → lookup m k ≡ none
lookup-missing [] k h = refl
lookup-missing ((j, d) ∷ m) k h = ground (arith, lookup-missing m k)

pub value_at-missing :
    (m : Digests) (k : String) → mem k (names m) ≡ false → value_at m k ≡ canonical_null
unfolding value_at
value_at-missing m k h = rw (value_at, lookup-missing m k h) refl

pub mem-distinct : (x : String) (xs : List String) → mem x (distinct xs) ≡ mem x xs
mem-distinct x xs = any-distinct (λ y. y == x) xs

-- What an authority has after the listed changes.
unfoldable pub apply_authorities : List AuthorityChange → Digests → String → String
apply_authorities [] current k = value_at current k
apply_authorities (c ∷ cs) current k =
    let rest = apply_authorities cs current k in
    if c.authority_id == k then c.after_digest else rest

unfoldable pub apply_surfaces : List SurfaceChange → Digests → String → String
apply_surfaces [] current k = value_at current k
apply_surfaces (c ∷ cs) current k =
    let rest = apply_surfaces cs current k in if c.surface_id == k then c.after_digest else rest

authorities_step :
    (current candidate : Digests) (i k : String) (ids : List String)
    → ((mem k ids ≡ true) ⊎ (value_at current k ≡ value_at candidate k)
        → apply_authorities (authority_changes_from current candidate ids) current k
          ≡ value_at candidate k)
    → (mem k (i ∷ ids) ≡ true) ⊎ (value_at current k ≡ value_at candidate k)
    → apply_authorities (authority_changes_from current candidate (i ∷ ids)) current k
      ≡ value_at candidate k
unfolding apply_authorities authority_changes_from
authorities_step current candidate i k ids rest h = ground (
  arith,
  eq_iff i k,
  ap (λ x. value_at candidate x),
  ap (λ x. value_at current x),
  eq_iff (value_at current i) (value_at candidate i),
)

authorities-applied :
    (current candidate : Digests) (k : String) (ids : List String)
    → (mem k ids ≡ true) ⊎ (value_at current k ≡ value_at candidate k)
    → apply_authorities (authority_changes_from current candidate ids) current k
      ≡ value_at candidate k
unfolding apply_authorities authority_changes_from
authorities-applied current candidate k [] (inl h) = cc
authorities-applied current candidate k [] (inr h) = h
authorities-applied current candidate k (i ∷ ids) h =
    authorities_step current candidate i k ids (authorities-applied current candidate k ids) h

-- Applied to the current contract, the authority changes give every authority the candidate's digest.
pub authority_changes-applied :
    (current candidate : Digests) (k : String)
    → mem k authority_ids ≡ true
    → apply_authorities (authority_changes current candidate) current k ≡ value_at candidate k
unfolding authority_changes
authority_changes-applied current candidate k h =
    authorities-applied current candidate k authority_ids (inl h)

-- A change that is listed is one: the two digests differ, and they are what the two vectors hold.
abbrev pub Exact : Digests → Digests → AuthorityChange → Type 0
Exact current candidate c =
    (c.before_digest ≡ value_at current c.authority_id)
    × (c.after_digest ≡ value_at candidate c.authority_id)
    × ((c.before_digest == c.after_digest) ≡ false)

All-keep_if :
    {A : Type 0} (P : A → Type 0) (b : Bool) (x : A) (xs : List A)
    → (b ≡ true → P x)
    → All P xs
    → All P (keep_if b x xs)
All-keep_if P true x xs px h = (px refl, h)
All-keep_if P false x xs px h = h

authority_changes-Exact :
    (current candidate : Digests) (ids : List String)
    → All (Exact current candidate) (authority_changes_from current candidate ids)
unfolding authority_changes_from
authority_changes-Exact current candidate [] = tt
authority_changes-Exact current candidate (i ∷ ids) =
    All-keep_if (Exact current candidate) (not (value_at current i == value_at candidate i)) _
      (authority_changes_from current candidate ids) (λ h. (refl, refl, ground (arith, h)))
      (authority_changes-Exact current candidate ids)

-- What `_contract_changes` lists for a surface.
surfaces_step :
    (current observed candidate : Digests) (i k : String) (ids : List String)
    → ((cs : List SurfaceChange)
        → contract_changes_from current observed candidate ids ≡ ok cs
        → (mem k ids ≡ true) ⊎ (value_at current k ≡ value_at candidate k)
        → apply_surfaces cs current k ≡ value_at candidate k)
    → (cs : List SurfaceChange) → contract_changes_from current observed candidate (i ∷ ids) ≡ ok cs
    → (mem k (i ∷ ids) ≡ true) ⊎ (value_at current k ≡ value_at candidate k)
    → apply_surfaces cs current k ≡ value_at candidate k
unfolding apply_surfaces contract_changes_from
surfaces_step current observed candidate i k ids rest cs h known =
    let (_, h₁) = require-ok (value_at observed i == value_at current i) _ _ h in
    let (ds, done, e) = map_result-ok _ (contract_changes_from current observed candidate ids) h₁ in
    subst (λ x. apply_surfaces x current k ≡ value_at candidate k) (sym e)
      (ground (
        arith,
        rest ds done,
        eq_iff i k,
        ap (λ x. value_at candidate x),
        ap (λ x. value_at current x),
        eq_iff (value_at candidate i) (value_at current i),
      ))

surfaces-applied :
    (current observed candidate : Digests) (k : String) (ids : List String)
    (cs : List SurfaceChange)
    → contract_changes_from current observed candidate ids ≡ ok cs
    → (mem k ids ≡ true) ⊎ (value_at current k ≡ value_at candidate k)
    → apply_surfaces cs current k ≡ value_at candidate k
unfolding apply_surfaces contract_changes_from
surfaces-applied current observed candidate k [] cs h (inl m) = cc
surfaces-applied current observed candidate k [] cs h (inr same) =
    subst (λ x. apply_surfaces x current k ≡ value_at candidate k) (ok-injective h) same
surfaces-applied current observed candidate k (i ∷ ids) cs h known =
    surfaces_step current observed candidate i k ids
      (surfaces-applied current observed candidate k ids) cs h known

surfaces-still :
    (current observed candidate : Digests) (k : String) (ids : List String)
    (cs : List SurfaceChange)
    → contract_changes_from current observed candidate ids ≡ ok cs
    → mem k ids ≡ true
    → value_at observed k ≡ value_at current k
unfolding contract_changes_from
surfaces-still current observed candidate k [] cs h m = cc
surfaces-still current observed candidate k (i ∷ ids) cs h m =
    let (same, h₁) = require-ok (value_at observed i == value_at current i) _ _ h in
    let (ds, done, e) = map_result-ok _ (contract_changes_from current observed candidate ids) h₁ in
    ground (
      arith,
      surfaces-still current observed candidate k ids ds done,
      eq_iff i k,
      ap (λ x. value_at observed x),
      ap (λ x. value_at current x),
      eq_iff (value_at observed i) (value_at current i),
    )

mem-append3 :
    (k : String) (xs ys zs : List String)
    → mem k (xs ++ ys ++ zs) ≡ (mem k xs || mem k ys || mem k zs)
mem-append3 k xs ys zs =
    ground (arith, any-append (λ y. y == k) (xs ++ ys) zs, any-append (λ y. y == k) xs ys)

mem-surfaces :
    (a b c : Digests) (k : String)
    → mem k (sorted_texts (distinct (names a ++ names b ++ names c)))
      ≡ (mem k (names a) || mem k (names b) || mem k (names c))
mem-surfaces a b c k =
    mem-sorted k (distinct (names a ++ names b ++ names c))
    ∙ mem-distinct k (names a ++ names b ++ names c)
    ∙ mem-append3 k (names a) (names b) (names c)

-- A surface that no mapping names reads as missing in all of them.
absent :
    (current observed candidate : Digests) (k : String) (ids : List String)
    (cs : List SurfaceChange)
    → contract_changes_from current observed candidate ids ≡ ok cs
    → mem k ids ≡ false
    → mem k ids ≡ (mem k (names current) || mem k (names candidate) || mem k (names observed))
    → (value_at observed k ≡ value_at current k)
      × (apply_surfaces cs current k ≡ value_at candidate k)
absent current observed candidate k ids cs h out e =
    let in_current = value_at-missing current k (ground (arith, out, e)) in
    let in_candidate = value_at-missing candidate k (ground (arith, out, e)) in
    let in_observed = value_at-missing observed k (ground (arith, out, e)) in
    (
      in_observed ∙ sym in_current,
      surfaces-applied current observed candidate k ids cs h (inr (in_current ∙ sym in_candidate)),
    )

-- When `_contract_changes` succeeds, nothing has drifted, and its changes applied to the current
-- contract give every surface the candidate's digest.
pub contract_changes-applied :
    (current observed candidate : Digests) (cs : List SurfaceChange)
    → contract_changes current observed candidate ≡ ok cs
    → (k : String)
    → (value_at observed k ≡ value_at current k)
      × (apply_surfaces cs current k ≡ value_at candidate k)
unfolding contract_changes
contract_changes-applied current observed candidate cs h k =
    let ids : List String =
      sorted_texts (distinct (names current ++ names candidate ++ names observed)) in
    elim (Bool-cases (mem k ids)) [
      | inl here ↦ (
        surfaces-still current observed candidate k ids cs h here,
        surfaces-applied current observed candidate k ids cs h (inl here),
      )
      | inr out ↦
          absent current observed candidate k ids cs h out
            (mem-surfaces current candidate observed k)
    ]
