-- ===== src/Core/Catalog/Closure/Whole.antt =====
-- What the closure of a catalogue is.
use Prim.Native.String.{◌++◌ as append}
use agent_workflow_pack.Canonical.{distinct}
use agent_workflow_pack.Core.Catalog.{Manifests, parse_manifests}
use agent_workflow_pack.Core.Catalog.Capabilities.{evaluate_capabilities}
use agent_workflow_pack.Core.Catalog.Closure.{
  CatalogClosure, Picked, add_seeds, check_conflicts, closure_of, conflicts_of, mandatory_of,
  platform_seeds, resolve_catalog_closure, seeds_of,
}
use agent_workflow_pack.Core.Catalog.Closure.Laws.{Held, Held-grows, add_seeds-Held}
use agent_workflow_pack.Core.Catalog.Entries.{CatalogEntry, Entries, entry_names, parse_catalog}
use agent_workflow_pack.Core.Catalog.Order.{stable_topological_order}
use agent_workflow_pack.Core.Impact.Changes.{mem-distinct}
use agent_workflow_pack.Core.Profile.Resolve.{ResolvedProfile}
use agent_workflow_pack.Json.{Fields}
use agent_workflow_pack.Json.Laws.{lookup-mem}
use agent_workflow_pack.Platform.{Platform}
use agent_workflow_pack.Prelude.{
  &&-true, All, Bool-cases, List, String, [], all, any, any-append, ap, arith, eq_iff, eq_refl,
  false, inl, inr, keep, keep_if, leb_text, map, mem, not, refl, sorted_texts, subset, subst, sym,
  true, true-&&, ◌&&◌, ◌++◌, ◌==◌, ◌||◌, ◌∙◌, ◌∷◌, ◌≡◌,
}
use agent_workflow_pack.Prelude.Sort.{any-sorted}
use agent_workflow_pack.Prelude.Text.Sets.{mem-sorted, mem_of_subset, subset_of_mem}
use agent_workflow_pack.Result.{>>=-eq-ok, >>=-run, ok, ok-injective, reject-ok}

mem-names :
    (entries : Entries) (id : String)
    → mem id (entry_names entries) ≡ any (λ (e : String × CatalogEntry). e.0 == id) entries
mem-names [] id = refl
mem-names (e ∷ entries) id = ground (arith, mem-names entries id)

mem-kept :
    (selected : List String) (entries : Entries) (id : String)
    → any
        (λ (e : String × CatalogEntry). e.0 == id)
        (keep (λ (e : String × CatalogEntry). mem e.0 selected) entries)
      ≡ (mem id (entry_names entries) && mem id selected)
mem-kept selected [] id = refl
mem-kept selected ((key, e) ∷ entries) id = elim (Bool-cases (mem key selected)) [
  | inl m ↦ ground (
    arith,
    m,
    λ (k : key ≡ id). ap (λ z. mem z selected) k,
    eq_iff key id,
    mem-kept selected entries id,
  )
  | inr m ↦ ground (
    arith,
    m,
    λ (k : key ≡ id). ap (λ z. mem z selected) k,
    eq_iff key id,
    mem-kept selected entries id,
  )
]

-- The identities of a closure are those that are selected, where each of these has an entry.
names-selected :
    (entries : Entries) (p : Picked) (ordered : List String) (id : String)
    → mem id (entry_names (closure_of entries p ordered).entries)
      ≡ (mem id (entry_names entries) && mem id p.selected)
names-selected entries p ordered id =
    mem-names (closure_of entries p ordered).entries id
    ∙ any-sorted (λ (a b : String × CatalogEntry). leb_text a.0 b.0)
        (λ (e : String × CatalogEntry). e.0 == id)
        (keep (λ (e : String × CatalogEntry). mem e.0 p.selected) entries)
    ∙ mem-kept p.selected entries id

check_conflicts-ok :
    (entries : Entries) (selected ids : List String) (id : String)
    → check_conflicts entries selected ids ≡ ok tt
    → mem id ids ≡ true
    → any (λ c. mem c selected) (conflicts_of entries id) ≡ false
unfolding check_conflicts
check_conflicts-ok entries selected [] id h m = absurd cc
check_conflicts-ok entries selected (i ∷ ids) id h m =
    let (free, h₁) = reject-ok (any (λ c. mem c selected) (conflicts_of entries i)) _ _ h in
    elim (Bool-cases (i == id)) [
      | inl e ↦
          subst (λ j. any (λ c. mem c selected) (conflicts_of entries j) ≡ false)
            ((eq_iff i id).0 e) free
      | inr e ↦ check_conflicts-ok entries selected ids id h₁ (ground (arith, m, e))
    ]

any_fewer :
    (s t cs : List String)
    → ((x : String) → mem x t ≡ true → mem x s ≡ true)
    → any (λ c. mem c s) cs ≡ false
    → any (λ c. mem c t) cs ≡ false
any_fewer s t [] f h = refl
any_fewer s t (c ∷ cs) f h = ground (arith, h, f c, any_fewer s t cs f)

all_of_mem :
    {P : String → Type 0} (names : List String)
    → ((x : String) → mem x names ≡ true → P x)
    → All P names
all_of_mem [] f = tt
all_of_mem (x ∷ names) f =
    (f x (ground (arith, eq_refl x)), all_of_mem names (λ y h. f y (ground (arith, h))))

-- The identity of a platform's own entry.
abbrev pub platform_entry : String → String
platform_entry platform = append "platform:" platform

-- What holds of the identities of a closure.
pub record IsClosed (profile : ResolvedProfile) (entries : Entries) (by_platform : Manifests)
    (names : List String) : Type 0 where
  pub enabled : subset profile.skills_enable names ≡ true
  pub mandatory :
      all (λ (e : String × CatalogEntry). not e.1.mandatory || mem e.0 names) entries ≡ true
  pub platforms :
      all
        (λ p. not (mem (platform_entry p) (entry_names entries)) || mem (platform_entry p) names)
        profile.default_platforms
      ≡ true
  pub held :
      All (Held entries profile.skills_disable profile.default_platforms by_platform names) names
  pub apart : All (λ id. any (λ c. mem c names) (conflicts_of entries id) ≡ false) names

mandatory-chosen :
    (names : List String) (entries : Entries)
    → ((x : String) → mem x (mandatory_of entries) ≡ true → mem x names ≡ true)
    → all (λ (e : String × CatalogEntry). not e.1.mandatory || mem e.0 names) entries ≡ true
mandatory-chosen names [] f = refl
mandatory-chosen names ((key, e) ∷ entries) f = elim (Bool-cases e.mandatory) [
  | inl m ↦
      let there = λ (x : String) (h : mem x (key ∷ mandatory_of entries) ≡ true). f x (
        ap
          (λ b. mem x (
            map (λ (p : String × CatalogEntry). p.0)
              (keep_if b (key, e) (keep (λ (p : String × CatalogEntry). p.1.mandatory) entries))))
          m
        ∙ h) in
      ground (
        arith,
        m,
        there key (ground (arith, eq_refl key)),
        mandatory-chosen names entries (λ x h. there x (ground (arith, h))),
      )
  | inr m ↦
      let there = λ (x : String) (h : mem x (mandatory_of entries) ≡ true). f x (
        ap
          (λ b. mem x (
            map (λ (p : String × CatalogEntry). p.0)
              (keep_if b (key, e) (keep (λ (p : String × CatalogEntry). p.1.mandatory) entries))))
          m
        ∙ h) in
      ground (arith, m, mandatory-chosen names entries there)
]

platforms-chosen :
    (entries : Entries) (names : List String) (platforms : List String)
    → ((x : String) → mem x (platform_seeds entries platforms) ≡ true → mem x names ≡ true)
    → all
        (λ p. not (mem (platform_entry p) (entry_names entries)) || mem (platform_entry p) names)
        platforms
      ≡ true
platforms-chosen entries names [] f = refl
platforms-chosen entries names (p ∷ platforms) f =
    elim (Bool-cases (mem (platform_entry p) (entry_names entries))) [
      | inl m ↦
          let there =
            λ (x : String) (h : mem x (platform_entry p ∷ platform_seeds entries platforms) ≡ true).
              f x (
                ap (λ b. mem x (keep_if b (platform_entry p) (platform_seeds entries platforms))) m
                ∙ h) in
          ground (
            arith,
            m,
            there (platform_entry p) (ground (arith, eq_refl (platform_entry p))),
            platforms-chosen entries names platforms (λ x h. there x (ground (arith, h))),
          )
      | inr m ↦
          let there = λ (x : String) (h : mem x (platform_seeds entries platforms) ≡ true). f x (
            ap (λ b. mem x (keep_if b (platform_entry p) (platform_seeds entries platforms))) m
            ∙ h) in
          ground (arith, m, platforms-chosen entries names platforms there)
    ]

mem-seeds :
    (profile : ResolvedProfile) (entries : Entries) (x : String)
    → mem x (seeds_of profile entries) ≡ (
        mem x profile.skills_enable
        || mem x (mandatory_of entries)
        || mem x (platform_seeds entries profile.default_platforms))
mem-seeds profile entries x =
    let own = platform_seeds entries profile.default_platforms in
    mem-sorted x (distinct (profile.skills_enable ++ (mandatory_of entries ++ own)))
    ∙ mem-distinct x (profile.skills_enable ++ (mandatory_of entries ++ own))
    ∙ any-append (λ y. y == x) profile.skills_enable (mandatory_of entries ++ own)
    ∙ ground (arith, any-append (λ y. y == x) (mandatory_of entries) own)

closure_of-IsClosed :
    (profile : ResolvedProfile) (entries : Entries) (by_platform : Manifests) (p : Picked)
    (ordered : List String)
    → add_seeds entries profile.skills_disable profile.default_platforms by_platform
        (seeds_of profile entries)
      ≡ ok p
    → check_conflicts entries p.selected (sorted_texts p.selected) ≡ ok tt
    → IsClosed profile entries by_platform (entry_names (closure_of entries p ordered).entries)
unfolding Held
closure_of-IsClosed profile entries by_platform p ordered added apart =
    let names = entry_names (closure_of entries p ordered).entries in
    let (seeds, held) =
      add_seeds-Held entries profile.skills_disable profile.default_platforms by_platform
        (seeds_of profile entries) p added in
    let kept : (x : String) → mem x p.selected ≡ true → mem x names ≡ true = (λ x k.
      names-selected entries p ordered x
      ∙ true-&& (mem x (entry_names entries)) (mem x p.selected)
          (lookup-mem entries x (held x k).0 (held x k).1) k) in
    let chosen : (x : String) → mem x names ≡ true → mem x p.selected ≡ true = (λ x k.
      (&&-true (mem x (entry_names entries)) (mem x p.selected)
        (sym (names-selected entries p ordered x) ∙ k)).1) in
    let seeded : (x : String) → mem x (seeds_of profile entries) ≡ true → mem x names ≡ true =
      (λ x h. kept x (mem_of_subset x (seeds_of profile entries) p.selected seeds h)) in
    record {
      enabled =
          subset_of_mem profile.skills_enable names
            (λ x h. seeded x (mem-seeds profile entries x ∙ ground (arith, h)));
      mandatory =
          mandatory-chosen names entries
            (λ x h. seeded x (mem-seeds profile entries x ∙ ground (arith, h)));
      platforms =
          platforms-chosen entries names profile.default_platforms
            (λ x h. seeded x (mem-seeds profile entries x ∙ ground (arith, h)));
      held = all_of_mem names (λ x m.
          Held-grows entries profile.skills_disable profile.default_platforms by_platform p.selected
            names x kept (held x (chosen x m)));
      apart = all_of_mem names (λ x m. any_fewer p.selected names (conflicts_of entries x) chosen (
          check_conflicts-ok entries p.selected (sorted_texts p.selected) x apart
            (mem-sorted x p.selected ∙ chosen x m)));
    }

-- A closure that is returned holds what the profile enables, every mandatory entry, and the own entry of
-- every platform that the profile selects, where there is one. Every identity in it has an entry that
-- the profile does not disable and that one of its platforms supports; the dependencies and references
-- of that entry stand in the closure, and none of its conflicts does.
pub resolve_catalog_closure-IsClosed :
    (py : Platform) (profile : ResolvedProfile) (document : Fields) (manifests : List Fields)
    (closure : CatalogClosure) (entries : Entries) (by_platform : Manifests)
    → parse_catalog py document ≡ ok entries
    → parse_manifests manifests ≡ ok by_platform
    → resolve_catalog_closure py profile document manifests ≡ ok closure
    → IsClosed profile entries by_platform (entry_names closure.entries)
unfolding resolve_catalog_closure
resolve_catalog_closure-IsClosed py profile document manifests closure entries by_platform parsed
      read h =
    let (_, _, h₁) = >>=-eq-ok (evaluate_capabilities profile manifests) _ h in
    let h₂ = sym (>>=-run (parse_manifests manifests) _ read) ∙ h₁ in
    let h₃ = sym (>>=-run (parse_catalog py document) _ parsed) ∙ h₂ in
    let (p, added, h₄) =
      >>=-eq-ok
        (add_seeds entries profile.skills_disable profile.default_platforms by_platform
          (seeds_of profile entries))
        _ h₃ in
    let (_, apart, h₅) =
      >>=-eq-ok (check_conflicts entries p.selected (sorted_texts p.selected)) _ h₄ in
    let (ordered, _, h₆) = >>=-eq-ok (stable_topological_order p.selected entries) _ h₅ in
    subst (λ (c : CatalogClosure). IsClosed profile entries by_platform (entry_names c.entries))
      (ok-injective h₆) (closure_of-IsClosed profile entries by_platform p ordered added apart)
