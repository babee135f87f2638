-- ===== src/Core/Catalog/Closure/Laws.antt =====
-- What `add` of core/catalog.py reaches.
use agent_workflow_pack.Core.Catalog.{Manifests}
use agent_workflow_pack.Core.Catalog.Closure.{
  Picked, add_each, add_entry, add_seeds, admit, pick, refer,
}
use agent_workflow_pack.Core.Catalog.Entries.{CatalogEntry, Entries, entry_is_supported}
use agent_workflow_pack.Json.{lookup}
use agent_workflow_pack.Prelude.{
  &&-true, Bool, Bool-cases, List, String, [], any-append, ap, arith, eq_iff, eq_refl, false,
  if-false, if-true, inl, inr, length, mem, not, refl, some, subset, subst, suc, sym, true, true-&&,
  zero, ℕ, ◌&&◌, ◌++◌, ◌==◌, ◌||◌, ◌∙◌, ◌∷◌, ◌≡◌,
}
use agent_workflow_pack.Result.{
  >>=-eq-ok, Result, ok, ok-injective, present-ok, reject-ok, require-ok, ◌>>=◌,
}

refer-selected : (via : Bool) (id : String) (p : Picked) → (refer via id p).selected ≡ p.selected
refer-selected via id p = elim (Bool-cases (via && not (mem id p.references))) [
  | inl e ↦ ap (λ (q : Picked). q.selected) (if-true _ _ p e)
  | inr e ↦ ap (λ (q : Picked). q.selected) (if-false _ _ p e)
]

pub subset-grows :
    (xs s t : List String)
    → ((x : String) → mem x s ≡ true → mem x t ≡ true)
    → subset xs s ≡ true
    → subset xs t ≡ true
subset-grows [] s t f h = refl
subset-grows (x ∷ xs) s t f h =
    let (here, there) = &&-true (mem x s) (subset xs s) h in
    true-&& (mem x t) (subset xs t) (f x here) (subset-grows xs s t f there)

pub mem-snoc : (x id : String) (s : List String) → mem x (s ++ id ∷ []) ≡ (mem x s || id == x)
mem-snoc x id s = ground (arith, any-append (λ y. y == x) s (id ∷ []))

pub pick-selected :
    (via : Bool) (id : String) (p : Picked) → (pick via id p).selected ≡ p.selected ++ id ∷ []
pick-selected via id p = refer-selected via id (record p { selected = p.selected ++ id ∷ [] })

module _ (entries : Entries) (disabled : List String) (platforms : List String)
    (by_platform : Manifests) where
  -- An identity that may stand in a closure with these: it is not disabled, its entry is there and
  -- supported, and the entry's dependencies and references are among them.
  unfoldable pub Held : List String → String → Type 0
  Held selected id =
      (entry : CatalogEntry) × (lookup entries id ≡ some entry)
      × (mem id disabled ≡ false)
      × (entry_is_supported entry platforms by_platform ≡ true)
      × (subset entry.dependencies selected ≡ true)
      × (subset entry.references selected ≡ true)

  -- What was selected stays, and what is new may stand in the closure.
  unfoldable pub Closes : List String → List String → Type 0
  Closes s t =
      ((x : String) → mem x s ≡ true → mem x t ≡ true)
      × ((x : String) → mem x t ≡ true → mem x s ≡ false → Held t x)

  pub Held-grows :
      (s t : List String) (x : String)
      → ((y : String) → mem y s ≡ true → mem y t ≡ true)
      → Held s x
      → Held t x
  unfolding Held
  Held-grows s t x f (entry, found, free, fits, deps, refs) = (
    entry,
    found,
    free,
    fits,
    subset-grows entry.dependencies s t f deps,
    subset-grows entry.references s t f refs,
  )

  Closes-refl : (s : List String) → Closes s s
  unfolding Closes
  Closes-refl s = (λ x h. h, λ x h k. absurd cc)

  Closes-trans : (s t u : List String) → Closes s t → Closes t u → Closes s u
  unfolding Closes
  Closes-trans s t u (f, a) (g, b) = (
    λ x h. g x (f x h),
    λ x h k. elim (Bool-cases (mem x t)) [ inl e ↦ Held-grows t u x g (a x e k) | inr e ↦ b x h e ],
  )

  -- `add` of one identity, and of a list.
  unfoldable pub Adds : (String → Picked → Result Picked) → Type 0
  Adds add =
      (id : String) (p q : Picked)
      → add id p ≡ ok q
      → Closes p.selected q.selected × (mem id q.selected ≡ true)

  pub add_each-Closes :
      (add : String → Picked → Result Picked) (ids : List String) (p q : Picked)
      → Adds add
      → add_each add ids p ≡ ok q
      → Closes p.selected q.selected × (subset ids q.selected ≡ true)
  unfolding Adds Closes
  add_each-Closes add [] p q adds h = (
    subst (λ (r : Picked). Closes p.selected r.selected) (ok-injective h) (Closes-refl p.selected),
    refl,
  )
  add_each-Closes add (id ∷ ids) p q adds h =
      let (r, added, h₁) = >>=-eq-ok (add id p) _ h in
      let (first, here) = adds id p r added in
      let (later, there) = add_each-Closes add ids r q adds h₁ in
      (
        Closes-trans p.selected r.selected q.selected first later,
        true-&& (mem id q.selected) _ (later.0 id here) there,
      )

  pub admit-ok :
      (id : String) (entry : CatalogEntry)
      → admit entries disabled platforms by_platform id ≡ ok entry
      → (lookup entries id ≡ some entry)
        × (mem id disabled ≡ false)
        × (entry_is_supported entry platforms by_platform ≡ true)
  unfolding admit
  admit-ok id entry h =
      let (free, h₁) = reject-ok (mem id disabled) _ _ h in
      let (e, found, h₂) = present-ok (lookup entries id) _ _ h₁ in
      let (fits, h₃) = require-ok (entry_is_supported e platforms by_platform) _ _ h₂ in
      subst
        (λ (c : CatalogEntry).
          (lookup entries id ≡ some c)
          × (mem id disabled ≡ false)
          × (entry_is_supported c platforms by_platform ≡ true))
        (ok-injective h₃) (found, free, fits)

  -- What an identity's own entry adds to a closure.
  Closes-pick :
      (id : String) (s t u : List String) (entry : CatalogEntry)
      → (lookup entries id ≡ some entry)
        × (mem id disabled ≡ false)
        × (entry_is_supported entry platforms by_platform ≡ true)
      → Closes (s ++ id ∷ []) t
      → Closes t u
      → subset entry.dependencies t ≡ true
      → subset entry.references u ≡ true
      → Closes s u × (mem id u ≡ true)
  unfolding Closes Held
  Closes-pick id s t u entry (found, free, fits) first later deps refs =
      let both = Closes-trans (s ++ id ∷ []) t u first later in
      let here : mem id u ≡ true = both.0 id (ground (arith, mem-snoc id id s, eq_refl id)) in
      let own : Held u id =
        (entry, found, free, fits, subset-grows entry.dependencies t u later.0 deps, refs) in
      (
        (
          λ x h. both.0 x (ground (arith, h, mem-snoc x id s)),
          λ x h k. elim (Bool-cases (id == x)) [
            | inl e ↦ subst (Held u) ((eq_iff id x).0 e) own
            | inr e ↦ both.1 x h (ground (arith, k, e, mem-snoc x id s))
          ],
        ),
        here,
      )

  pub add_entry-Adds :
      (n : ℕ) (via : Bool) → Adds (add_entry entries disabled platforms by_platform n via)
  unfolding Adds add_entry
  add_entry-Adds zero via id p q h = cc
  add_entry-Adds (suc n) via id p q h = by_selected (add_entry-Adds n) (mem id p.selected) refl h
    where
      by_selected :
          ((b : Bool) → Adds (add_entry entries disabled platforms by_platform n b))
          → (b : Bool) → mem id p.selected ≡ b
          → ◌≡◌ {A = Result Picked}
              (elim b [
                | true ↦ ok (refer via id p)
                | false ↦ admit entries disabled platforms by_platform id >>= λ entry.
                    add_each
                      (add_entry entries disabled platforms by_platform n false)
                      entry.dependencies
                      (pick via id p)
                    >>= λ r.
                        add_each
                          (add_entry entries disabled platforms by_platform n true)
                          entry.references
                          r
              ])
              (ok q)
          → Closes p.selected q.selected × (mem id q.selected ≡ true)
      by_selected adds true e k =
          subst (λ s. Closes p.selected s × (mem id s ≡ true))
            (sym (refer-selected via id p) ∙ ap (λ (r : Picked). r.selected) (ok-injective k))
            (Closes-refl p.selected, e)
      by_selected adds false e k =
          let (entry, admitted, k₁) =
            >>=-eq-ok (admit entries disabled platforms by_platform id) _ k in
          let (r, depended, k₂) =
            >>=-eq-ok
              (add_each (add_entry entries disabled platforms by_platform n false)
                entry.dependencies (pick via id p))
              _ k₁ in
          let (first, deps) =
            add_each-Closes (add_entry entries disabled platforms by_platform n false)
              entry.dependencies (pick via id p) r (adds false) depended in
          let (later, refs) =
            add_each-Closes (add_entry entries disabled platforms by_platform n true)
              entry.references r q (adds true) k₂ in
          Closes-pick id p.selected r.selected q.selected entry (admit-ok id entry admitted)
            (subst (λ s. Closes s r.selected) (pick-selected via id p) first) later deps refs

  -- Where the loop over the seeds returns, every seed is selected, and each identity that is selected
  -- may stand in the closure.
  pub add_seeds-Held :
      (seeds : List String) (p : Picked)
      → add_seeds entries disabled platforms by_platform seeds ≡ ok p
      → (subset seeds p.selected ≡ true)
        × ((id : String) → mem id p.selected ≡ true → Held p.selected id)
  unfolding add_seeds Closes
  add_seeds-Held seeds p h =
      let (closes, there) =
        add_each-Closes
          (add_entry entries disabled platforms by_platform (suc (length entries)) false) seeds
          (record { selected = []; references = [] }) p
          (add_entry-Adds (suc (length entries)) false) h in
      (there, λ id k. closes.1 id k refl)
