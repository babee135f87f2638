-- ===== src/Core/Catalog/Closure/Ends.antt =====
-- That the recursion of `add` in core/catalog.py ends.
-- How many names are not selected.
use agent_workflow_pack.Core.Catalog.{Manifests, catalog_failure, parse_manifests}
use agent_workflow_pack.Core.Catalog.Capabilities.{CapabilityResult, evaluate_capabilities}
use agent_workflow_pack.Core.Catalog.Closure.{
  Picked, add_each, add_entry, add_seeds, admit, check_conflicts, closure_of, conflicts_of, pick,
  refer, resolve_catalog_closure, seeds_of,
}
use agent_workflow_pack.Core.Catalog.Closure.Laws.{
  Adds, Closes, add_each-Closes, add_entry-Adds, admit-ok, mem-snoc, pick-selected,
}
use agent_workflow_pack.Core.Catalog.Entries.{
  Entries, entry_is_supported, entry_names, parse_catalog,
}
use agent_workflow_pack.Core.Catalog.Order.{stable_topological_order}
use agent_workflow_pack.Core.Catalog.Order.Ends.{
  Settles, Settles->>=, Settles-present, Settles-reject, Settles-require,
  stable_topological_order-Settles,
}
use agent_workflow_pack.Core.Profile.Resolve.{ResolvedProfile}
use agent_workflow_pack.Json.{Fields, lookup}
use agent_workflow_pack.Json.Laws.{lookup-mem}
use agent_workflow_pack.Platform.{Platform}
use agent_workflow_pack.Prelude.{
  Bool, Bool-cases, List, String, [], any, ap, arith, eq_iff, false, if◌then◌else◌, inl, inr,
  length, mem, refl, sorted_texts, subst, suc, sym, true, zero, ℕ, ◌++◌, ◌+◌, ◌<◌, ◌==◌, ◌∙◌, ◌∷◌,
  ◌≡◌, ◌≤◌,
}
use agent_workflow_pack.Result.{Result, ok, present, reject, require, ◌>>=◌}

abbrev unpicked : List String → List String → ℕ
unpicked [] s = 0
unpicked (k ∷ names) s = (if mem k s then 0 else 1) + unpicked names s

unpicked-names : (names s : List String) → unpicked names s ≤ length names
unpicked-names [] s = omega arith
unpicked-names (k ∷ names) s = ground (arith, unpicked-names names s)

unpicked-grows :
    (names s t : List String)
    → ((x : String) → mem x s ≡ true → mem x t ≡ true)
    → unpicked names t ≤ unpicked names s
unpicked-grows [] s t f = omega arith
unpicked-grows (k ∷ names) s t f = elim (Bool-cases (mem k s)) [
  | inl e ↦ ground (arith, e, f k e, unpicked-grows names s t f)
  | inr e ↦ ground (arith, e, unpicked-grows names s t f)
]

grows-snoc :
    (id : String) (s : List String) (x : String) → mem x s ≡ true → mem x (s ++ id ∷ []) ≡ true
grows-snoc id s x h = ground (arith, h, mem-snoc x id s)

unpicked-pick :
    (names s : List String) (id : String)
    → mem id names ≡ true
    → mem id s ≡ false
    → unpicked names (s ++ id ∷ []) < unpicked names s
unpicked-pick [] s id h k = absurd cc
unpicked-pick (j ∷ names) s id h k = elim (Bool-cases (j == id)) [
  | inl e ↦
      let there : mem j (s ++ id ∷ []) ≡ true =
        ground (arith, mem-snoc j id s, (eq_iff id j).1 (sym ((eq_iff j id).0 e))) in
      let away : mem j s ≡ false = ap (λ z. mem z s) ((eq_iff j id).0 e) ∙ k in
      ground (arith, there, away, unpicked-grows names s (s ++ id ∷ []) (grows-snoc id s))
  | inr e ↦
      let rest = unpicked-pick names s id (ground (arith, h, e)) k in
      elim (Bool-cases (mem j s)) [
        | inl m ↦ ground (arith, m, grows-snoc id s j m, rest)
        | inr m ↦ ground (arith, m, rest)
      ]
]

module _ (entries : Entries) (disabled : List String) (platforms : List String)
    (by_platform : Manifests) where
  -- What ends where few names are left.
  SettlesBelow : ℕ → (String → Picked → Result Picked) → Type 0
  SettlesBelow n add =
      (id : String) (p : Picked)
      → unpicked (entry_names entries) p.selected < n
      → Settles (add id p)

  add_each-Settles :
      (n : ℕ) (add : String → Picked → Result Picked) (ids : List String) (p : Picked)
      → SettlesBelow n add
      → Adds entries disabled platforms by_platform add
      → unpicked (entry_names entries) p.selected < n
      → Settles (add_each add ids p)
  unfolding SettlesBelow Adds Closes
  add_each-Settles n add [] p ends adds enough = inl (p, refl)
  add_each-Settles n add (id ∷ ids) p ends adds enough =
      Settles->>= (add id p) _ (ends id p enough) (λ q added.
        add_each-Settles n add ids q ends adds (
          omega (
            arith,
            enough,
            unpicked-grows (entry_names entries) p.selected q.selected (adds id p q added).0.0,
          )))

  admit-Settles : (id : String) → Settles (admit entries disabled platforms by_platform id)
  unfolding admit
  admit-Settles id =
      Settles->>= (reject (mem id disabled) (catalog_failure "disabled entry cannot enter closure"))
        _ (Settles-reject _ _)
        (λ _ _.
          Settles->>=
            (present (lookup entries id)
              (catalog_failure "catalog dependency/reference is missing"))
            _ (Settles-present _ _)
            (λ entry _.
              Settles->>=
                (require (entry_is_supported entry platforms by_platform)
                  (catalog_failure "catalog entry is platform/capability incompatible"))
                _ (Settles-require _ _) (λ _ _. inl (entry, refl))))

  add_entry-SettlesBelow :
      (n : ℕ) (via : Bool) → SettlesBelow n (add_entry entries disabled platforms by_platform n via)
  unfolding SettlesBelow add_entry Closes
  add_entry-SettlesBelow zero via id p enough = absurd (omega (arith, enough))
  add_entry-SettlesBelow (suc n) via id p enough =
      by_selected (add_entry-SettlesBelow n) (mem id p.selected) refl
    where
      by_selected :
          ((b : Bool) → SettlesBelow n (add_entry entries disabled platforms by_platform n b))
          → (b : Bool) → mem id p.selected ≡ b
          → Settles {A = Picked} (elim b [
            | true ↦ ok (refer via id p)
            | false ↦ admit entries disabled platforms by_platform id >>= λ entry.
                add_each
                  (add_entry entries disabled platforms by_platform n false)
                  entry.dependencies
                  (pick via id p)
                >>= λ q.
                    add_each
                      (add_entry entries disabled platforms by_platform n true)
                      entry.references
                      q
          ])
      by_selected ends true e = inl (refer via id p, refl)
      by_selected ends false e =
          Settles->>= (admit entries disabled platforms by_platform id) _ (admit-Settles id)
            (λ entry admitted.
              let fewer : unpicked (entry_names entries) (pick via id p).selected < n =
                subst (λ s. unpicked (entry_names entries) s < n) (sym (pick-selected via id p))
                  (omega (
                    arith,
                    enough,
                    unpicked-pick (entry_names entries) p.selected id
                        (lookup-mem entries id entry
                          (admit-ok entries disabled platforms by_platform id entry admitted).0)
                        e,
                  )) in
              Settles->>=
                (add_each (add_entry entries disabled platforms by_platform n false)
                  entry.dependencies (pick via id p))
                _
                (add_each-Settles n (add_entry entries disabled platforms by_platform n false)
                  entry.dependencies (pick via id p) (ends false)
                  (add_entry-Adds entries disabled platforms by_platform n false) fewer)
                (λ q depended.
                  add_each-Settles n (add_entry entries disabled platforms by_platform n true)
                    entry.references q (ends true)
                    (add_entry-Adds entries disabled platforms by_platform n true)
                    (omega (
                      arith,
                      fewer,
                      unpicked-grows (entry_names entries) (pick via id p).selected q.selected
                          (add_each-Closes entries disabled platforms by_platform
                            (add_entry entries disabled platforms by_platform n false)
                            entry.dependencies (pick via id p) q
                            (add_entry-Adds entries disabled platforms by_platform n false)
                            depended).0.0,
                    ))))

length-names : (entries : Entries) → length (entry_names entries) ≡ length entries
length-names [] = refl
length-names (e ∷ entries) = ap suc (length-names entries)

add_seeds-Settles :
    (entries : Entries) (disabled platforms : List String) (by_platform : Manifests)
    (seeds : List String)
    → Settles (add_seeds entries disabled platforms by_platform seeds)
unfolding add_seeds
add_seeds-Settles entries disabled platforms by_platform seeds =
    let n = suc (length entries) in
    add_each-Settles entries disabled platforms by_platform n
      (add_entry entries disabled platforms by_platform n false) seeds
      (record { selected = []; references = [] })
      (add_entry-SettlesBelow entries disabled platforms by_platform n false)
      (add_entry-Adds entries disabled platforms by_platform n false)
      (omega (arith, unpicked-names (entry_names entries) [], length-names entries))

check_conflicts-Settles :
    (entries : Entries) (selected ids : List String)
    → Settles (check_conflicts entries selected ids)
unfolding check_conflicts
check_conflicts-Settles entries selected [] = inl (tt, refl)
check_conflicts-Settles entries selected (id ∷ ids) =
    Settles->>=
      (reject (any (λ c. mem c selected) (conflicts_of entries id))
        (catalog_failure "catalog conflict in complete closure"))
      (λ _. check_conflicts entries selected ids) (Settles-reject _ _)
      (λ _ _. check_conflicts-Settles entries selected ids)

-- For documents that parse and capabilities that suffice, the closure ends within its rounds: with a
-- closure, or with a failure of the catalogue, whatever cycles the entries have.
pub resolve_catalog_closure-Settles :
    (py : Platform) (profile : ResolvedProfile) (document : Fields) (manifests : List Fields)
    (results : List CapabilityResult) (by_platform : Manifests) (entries : Entries)
    → evaluate_capabilities profile manifests ≡ ok results
    → parse_manifests manifests ≡ ok by_platform
    → parse_catalog py document ≡ ok entries
    → Settles (resolve_catalog_closure py profile document manifests)
unfolding resolve_catalog_closure
resolve_catalog_closure-Settles py profile document manifests results by_platform entries h read
      parsed =
    Settles->>= (evaluate_capabilities profile manifests) _ (inl (results, h)) (λ _ _.
      Settles->>= (parse_manifests manifests) _ (inl (by_platform, read)) (λ by _.
        Settles->>= (parse_catalog py document) _ (inl (entries, parsed)) (λ es _.
          Settles->>=
            (add_seeds es profile.skills_disable profile.default_platforms by (seeds_of profile es))
            _
            (add_seeds-Settles es profile.skills_disable profile.default_platforms by
              (seeds_of profile es))
            (λ p _.
              Settles->>= (check_conflicts es p.selected (sorted_texts p.selected)) _
                (check_conflicts-Settles es p.selected (sorted_texts p.selected))
                (λ _ _.
                  Settles->>= (stable_topological_order p.selected es) _
                    (stable_topological_order-Settles p.selected es)
                    (λ ordered _. inl (closure_of es p ordered, refl)))))))
