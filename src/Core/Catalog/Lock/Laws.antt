-- ===== src/Core/Catalog/Lock/Laws.antt =====
-- What a normalised workflow lock of core/catalog.py has.
-- A stable identity and two digests.
use agent_workflow_pack.Core.Catalog.Lock.{
  WorkflowComponent, WorkflowLock, component_fields, component_names, component_of, components_from,
  is_stable_id, lock_fields, normalize_workflow_lock, required_string, stable_identity,
}
use agent_workflow_pack.Ident.{is_sha256}
use agent_workflow_pack.Json.{
  Fields, Value, arr, as_arr, as_obj, bool, eq_value, get, int, keys, null, num, obj, text,
}
use agent_workflow_pack.Prelude.{
  Bool, Bool-cases, List, String, [], all, all-append, if-false, if-true, inl, inr, leb_text,
  leb_text_total, leb_text_trans, mem, refl, subset, subst, sym, true, true-&&, ◌&&◌, ◌++◌, ◌∙◌,
  ◌∷◌, ◌≡◌,
}
use agent_workflow_pack.Prelude.Sort.{IsAscending, all-sorted, sorted-IsAscending}
use agent_workflow_pack.Result.{
  >>=-eq-ok, Exn, Result, err, ok, ok-injective, present-ok, reject-ok, require-ok,
}

abbrev pub is_exact : WorkflowComponent → Bool
is_exact c =
    is_stable_id c.component_id && (is_sha256 c.source_sha256 && is_sha256 c.content_digest)

-- The order of the components.
abbrev pub by_name : WorkflowComponent → WorkflowComponent → Bool
by_name a b = leb_text a.component_id b.component_id

pub stable_identity-ok :
    (message : String) (v : Value) (s : String)
    → stable_identity message v ≡ ok s
    → is_stable_id s ≡ true
stable_identity-ok message (text t) s h = elim (Bool-cases (is_stable_id t)) [
  | inl e ↦
      subst (λ x. is_stable_id x ≡ true) (ok-injective (sym (if-true (is_stable_id t) _ _ e) ∙ h)) e
  | inr e ↦ absurd (no_error (sym (if-false (is_stable_id t) _ _ e) ∙ h))
]
  where
    no_error : {x : Exn} → ◌≡◌ {A = Result String} (err x) (ok s) → ⊥
    no_error k = cc
stable_identity-ok message null s h = cc
stable_identity-ok message (bool b) s h = cc
stable_identity-ok message (int n) s h = cc
stable_identity-ok message (arr vs) s h = cc
stable_identity-ok message (obj d) s h = cc

component_of-is_exact :
    (components : List WorkflowComponent) (value : Value) (c : WorkflowComponent)
    → component_of components value ≡ ok c
    → is_exact c ≡ true
unfolding component_of
component_of-is_exact components value c h =
    let (raw, _, h₁) = present-ok (as_obj value) _ _ h in
    let (_, h₂) = require-ok (subset (keys raw) component_fields) _ _ h₁ in
    let (component_id, named, h₃) =
      >>=-eq-ok (stable_identity "workflow-lock component id is invalid" (get raw "id")) _ h₂ in
    let (_, h₄) = reject-ok (mem component_id (component_names components)) _ _ h₃ in
    let (version, _, h₅) = >>=-eq-ok (required_string raw "version") _ h₄ in
    let (source_sha256, _, h₆) = >>=-eq-ok (required_string raw "source_sha256") _ h₅ in
    let (content_digest, _, h₇) = >>=-eq-ok (required_string raw "content_digest") _ h₆ in
    let (provider_id, _, h₈) = >>=-eq-ok (required_string raw "provider_id") _ h₇ in
    let (acquisition_id, _, h₉) = >>=-eq-ok (required_string raw "acquisition_id") _ h₈ in
    let (hashes, h₁₀) = require-ok (is_sha256 source_sha256 && is_sha256 content_digest) _ _ h₉ in
    subst (λ x. is_exact x ≡ true) (ok-injective h₁₀)
      (true-&& (is_stable_id component_id) (is_sha256 source_sha256 && is_sha256 content_digest)
        (stable_identity-ok "workflow-lock component id is invalid" (get raw "id") component_id
          named)
        hashes)

components_from-is_exact :
    (components : List WorkflowComponent) (values : List Value) (cs : List WorkflowComponent)
    → all is_exact components ≡ true
    → components_from components values ≡ ok cs
    → all is_exact cs ≡ true
unfolding components_from
components_from-is_exact components [] cs exact h =
    subst (λ xs. all is_exact xs ≡ true) (ok-injective h) exact
components_from-is_exact components (value ∷ values) cs exact h =
    let (c, made, h₁) = >>=-eq-ok (component_of components value) _ h in
    components_from-is_exact (components ++ c ∷ []) values cs
      (all-append is_exact components (c ∷ [])
        ∙ true-&& (all is_exact components) _ exact
            (true-&& (is_exact c) true (component_of-is_exact components value c made) refl))
      h₁

-- The components of a normalised lock ascend by their identities, and each has a stable identity and two
-- SHA-256 digests.
pub normalize_workflow_lock-is_exact :
    (document : Fields) (lock : WorkflowLock)
    → normalize_workflow_lock document ≡ ok lock
    → (all is_exact lock.components ≡ true) × IsAscending by_name lock.components
unfolding normalize_workflow_lock
normalize_workflow_lock-is_exact document lock h =
    let (_, h₁) = require-ok (subset (keys document) lock_fields) _ _ h in
    let (_, h₂) =
      require-ok
        (eq_value (get document "schema_id") (text "agent-workflow.workflow-lock")
          && eq_value (get document "schema_version") (num 1))
        _ _ h₁ in
    let (raw, _, h₃) = present-ok (as_arr (get document "components")) _ _ h₂ in
    let (components, made, h₄) = >>=-eq-ok (components_from [] raw) _ h₃ in
    subst
      (λ (l : WorkflowLock). (all is_exact l.components ≡ true) × IsAscending by_name l.components)
      (ok-injective h₄)
      (
        all-sorted by_name is_exact components
            ∙ components_from-is_exact [] raw components refl made,
        sorted-IsAscending by_name (λ a b. leb_text_total a.component_id b.component_id)
            (λ a b c. leb_text_trans a.component_id b.component_id c.component_id) components,
      )
