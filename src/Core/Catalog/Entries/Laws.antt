-- ===== src/Core/Catalog/Entries/Laws.antt =====
-- What the entries of a parsed catalogue have.
-- The key, the identity and the kind of an entry agree, and the identity is stable.
use agent_workflow_pack.Core.Catalog.{capability_mapping}
use agent_workflow_pack.Core.Catalog.Entries.{
  CatalogEntry, Entries, as_bool, catalog_entry, catalog_fields, catalog_strings, entries_from,
  entry_fields, entry_kind, entry_names, get_or, kind_of, parse_catalog,
}
use agent_workflow_pack.Core.Catalog.Lock.{is_stable_id, stable_identity}
use agent_workflow_pack.Core.Catalog.Lock.Laws.{stable_identity-ok}
use agent_workflow_pack.Json.{
  Fields, Value, arr, as_arr, as_obj, bool, end, entries, eq_value, get, int, keys, nil, null, num,
  obj, text,
}
use agent_workflow_pack.Platform.{Platform}
use agent_workflow_pack.Prelude.{
  Bool, Bool-cases, List, String, [], all, all-append, any-append, ap, arith, eq_iff, false,
  if-false, if-true, inl, inr, mem, no_repeat, refl, subset, subst, sym, true, true-&&, ◌&&◌, ◌++◌,
  ◌==◌, ◌∙◌, ◌∷◌, ◌≡◌,
}
use agent_workflow_pack.Result.{
  >>=-eq-ok, Exn, Result, err, ok, ok-injective, present-ok, reject-ok, require-ok,
}

abbrev pub is_entry : String × CatalogEntry → Bool
is_entry (key, entry) = is_stable_id key && (entry.entry_id == key && kind_of key == entry.kind)

entry_kind-ok :
    (id : String) (v : Value) (kind : String)
    → entry_kind id v ≡ ok kind
    → (kind_of id == kind) ≡ true
entry_kind-ok id (text t) kind h = elim (Bool-cases (kind_of id == t)) [
  | inl e ↦
      subst (λ x. (kind_of id == x) ≡ true)
        (ok-injective (sym (if-true (kind_of id == t) _ _ e) ∙ h)) e
  | inr e ↦ absurd (no_error (sym (if-false (kind_of id == t) _ _ e) ∙ h))
]
  where
    no_error : {x : Exn} → ◌≡◌ {A = Result String} (err x) (ok kind) → ⊥
    no_error k = cc
entry_kind-ok id null kind h = cc
entry_kind-ok id (bool b) kind h = cc
entry_kind-ok id (int n) kind h = cc
entry_kind-ok id (arr vs) kind h = cc
entry_kind-ok id (obj d) kind h = cc

catalog_entry-is_entry :
    (py : Platform) (entries : Entries) (value : Value) (entry : CatalogEntry)
    → catalog_entry py entries value ≡ ok entry
    → (is_entry (entry.entry_id, entry) ≡ true) × (mem entry.entry_id (entry_names entries) ≡ false)
unfolding catalog_entry
catalog_entry-is_entry py entries value entry h =
    let (raw, _, h₁) = present-ok (as_obj value) _ _ h in
    let (_, h₂) = require-ok (subset (keys raw) entry_fields) _ _ h₁ in
    let (id, stable, h₃) =
      >>=-eq-ok (stable_identity "catalog entry id is invalid" (get raw "id")) _ h₂ in
    let (kind, agrees, h₄) = >>=-eq-ok (entry_kind id (get raw "kind")) _ h₃ in
    let (new, h₅) = reject-ok (mem id (entry_names entries)) _ _ h₄ in
    let (_, _, h₆) = present-ok (as_bool (get_or raw "mandatory" (bool false))) _ _ h₅ in
    let (_, _, h₇) = present-ok (as_bool (get_or raw "discoverable" (bool true))) _ _ h₆ in
    let (_, _, h₈) = >>=-eq-ok (catalog_strings py (get_or raw "dependencies" (arr nil))) _ h₇ in
    let (_, _, h₉) = >>=-eq-ok (catalog_strings py (get_or raw "conflicts" (arr nil))) _ h₈ in
    let (_, _, h₁₀) = >>=-eq-ok (catalog_strings py (get_or raw "references" (arr nil))) _ h₉ in
    let (_, _, h₁₁) = >>=-eq-ok (catalog_strings py (get_or raw "platforms" (arr nil))) _ h₁₀ in
    let (_, _, h₁₂) =
      >>=-eq-ok (capability_mapping (get_or raw "required_capabilities" (obj end))) _ h₁₁ in
    subst
      (λ (e : CatalogEntry).
        (is_entry (e.entry_id, e) ≡ true) × (mem e.entry_id (entry_names entries) ≡ false))
      (ok-injective h₁₂)
      (
        true-&& (is_stable_id id) _
            (stable_identity-ok "catalog entry id is invalid" (get raw "id") id stable)
            (true-&& (id == id) (kind_of id == kind) ((eq_iff id id).1 refl)
              (entry_kind-ok id (get raw "kind") kind agrees)),
        new,
      )

no_repeat-snoc :
    (xs : List String) (x : String)
    → no_repeat xs ≡ true
    → mem x xs ≡ false
    → no_repeat (xs ++ x ∷ []) ≡ true
no_repeat-snoc [] x h k = refl
no_repeat-snoc (y ∷ ys) x h k =
    ground (
      arith,
      h,
      k,
      any-append (λ z. z == y) ys (x ∷ []),
      eq_iff x y,
      eq_iff y x,
      no_repeat-snoc ys x,
    )

entry_names-append :
    (entries : Entries) (id : String) (entry : CatalogEntry)
    → entry_names (entries ++ (id, entry) ∷ []) ≡ entry_names entries ++ id ∷ []
entry_names-append [] id entry = refl
entry_names-append (e ∷ entries) id entry =
    ap (λ ids. e.0 ∷ ids) (entry_names-append entries id entry)

entries_from-is_entry :
    (py : Platform) (entries : Entries) (values : List Value) (result : Entries)
    → all is_entry entries ≡ true
    → no_repeat (entry_names entries) ≡ true
    → entries_from py entries values ≡ ok result
    → (all is_entry result ≡ true) × (no_repeat (entry_names result) ≡ true)
unfolding entries_from
entries_from-is_entry py entries [] result well apart h =
    subst (λ es. (all is_entry es ≡ true) × (no_repeat (entry_names es) ≡ true)) (ok-injective h)
      (well, apart)
entries_from-is_entry py entries (value ∷ values) result well apart h =
    let (entry, made, h₁) = >>=-eq-ok (catalog_entry py entries value) _ h in
    let (one, new) = catalog_entry-is_entry py entries value entry made in
    entries_from-is_entry py (entries ++ (entry.entry_id, entry) ∷ []) values result
      (all-append is_entry entries ((entry.entry_id, entry) ∷ [])
        ∙ true-&& (all is_entry entries) _ well
            (true-&& (is_entry (entry.entry_id, entry)) true one refl))
      (ap no_repeat (entry_names-append entries entry.entry_id entry)
        ∙ no_repeat-snoc (entry_names entries) entry.entry_id apart new)
      h₁

-- In a parsed catalogue no identity stands twice, every entry is kept under its own identity, which is a
-- stable one, and the kind of an entry is the part of its identity before the colon.
pub parse_catalog-is_entry :
    (py : Platform) (document : Fields) (entries : Entries)
    → parse_catalog py document ≡ ok entries
    → (all is_entry entries ≡ true) × (no_repeat (entry_names entries) ≡ true)
unfolding parse_catalog
parse_catalog-is_entry py document entries h =
    let (_, h₁) = require-ok (subset (keys document) catalog_fields) _ _ h in
    let (_, h₂) =
      require-ok
        (eq_value (get document "schema_id") (text "agent-workflow.catalog")
          && eq_value (get document "schema_version") (num 1))
        _ _ h₁ in
    let (raw, _, h₃) = present-ok (as_arr (get document "entries")) _ _ h₂ in
    entries_from-is_entry py [] raw entries refl refl h₃
