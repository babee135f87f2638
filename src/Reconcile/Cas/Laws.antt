-- ===== src/Reconcile/Cas/Laws.antt =====
-- What a successful compare-and-swap of src/agent_stack/reconcile/cas.py has seen and done.
-- `after` differs from `before` at most at one path.
use agent_workflow_pack.Canonical.{canonical_null}
use agent_workflow_pack.Canonical.Chars.{chars, octal?}
use agent_workflow_pack.Io.{bind-ok, lift-ok, pure}
use agent_workflow_pack.Platform.{Platform}
use agent_workflow_pack.Prelude.{
  Bool, Option, String, ap, arith, false, if◌then◌else◌, not, refl, subst, sym, true, ◌&&◌, ◌==◌,
  ◌||◌, ◌∙◌, ◌≡◌,
}
use agent_workflow_pack.Reconcile.Cas.{
  assert_state, compare_and_swap, invalid_candidate, reach_state, remove_file, replace_file,
  store_node, unlink, unlink_file,
}
use agent_workflow_pack.Reconcile.Files.{
  FileNode, FileState, Tree, absent, cas_failure, observe_file_state, parent_available, parents,
  regular, same_state, target,
}
use agent_workflow_pack.Result.{
  Exn, Result, ok, ok-injective, present, reject, require, value_error,
}
use agent_workflow_pack.Route.Calculator.{is_none}

abbrev pub OnlyAt : String → Tree → Tree → Type 0
OnlyAt path before after =
    (k : String) → after.node k ≡ (if k == path then after.node k else before.node k)

either :
    {A : Type 0} (b : Bool) (x y : A)
    → (if b then x else y) ≡ (if b then (if b then x else y) else y)
either true x y = refl
either false x y = refl

same_either : {A : Type 0} (b : Bool) (x : A) → x ≡ (if b then x else x)
same_either true x = refl
same_either false x = refl

-- A file was seen in a state, up to the equality of documents.
abbrev pub Seen : Platform → String → FileState → Tree → Type 0
Seen py managed s tree =
    (current : FileState) × (observe_file_state py s.path managed tree ≡ ok current)
    × (same_state py current s ≡ true)

module _ (py : Platform) where
  pub assert_state-ok :
      (expected : FileState) (s : Tree) {u : Unit {0}} {s' : Tree}
      → assert_state py expected s ≡ (ok u, s')
      → Seen py expected.managed_block_hash expected s × (s' ≡ s)
  unfolding assert_state
  assert_state-ok expected s h =
      let (current, seen, h₁) =
        lift-ok (observe_file_state py expected.path expected.managed_block_hash s) _ s h in
      ((current, seen, ground (arith, h₁)), sym (ap (λ (x : Result (Unit {0}) × Tree). x.1) h₁))

  store_node-OnlyAt :
      (path : String) (n : FileNode) (s : Tree) {u : Unit {0}} {s' : Tree}
      → store_node py path n s ≡ (ok u, s')
      → OnlyAt path s s'
  store_node-OnlyAt path n s h k =
      subst (λ (t : Tree). t.node k ≡ (if k == path then t.node k else s.node k))
        (ap (λ (x : Result (Unit {0}) × Tree). x.1) h) (either (k == path) n (s.node k))

  -- The last steps of both branches: the file is observed again.
  pub observed-ok :
      (path managed : String) (candidate : FileState) (e : Exn) (s : Tree) {r : FileState}
      {s' : Tree}
      → reach_state py path managed candidate e s ≡ (ok r, s')
      → (observe_file_state py path managed s ≡ ok r)
        × (same_state py r candidate ≡ true)
        × (s' ≡ s)
  observed-ok path managed candidate e s h =
      let (result, seen, h₁) = lift-ok (observe_file_state py path managed s) _ s h in
      let (_, same, h₂) = lift-ok (require (same_state py result candidate) e) _ s h₁ in
      let same_pair = h₂ in
      (
        seen ∙ ap (λ (x : Result FileState × Tree). x.0) same_pair,
        subst (λ x. same_state py x candidate ≡ true)
            (ok-injective (ap (λ (x : Result FileState × Tree). x.0) same_pair))
            (ground (arith, same)),
        sym (ap (λ (x : Result FileState × Tree). x.1) same_pair),
      )

  replace_file-ok :
      (expected candidate : FileState) (content : Option String) (path : String) (s : Tree)
      {r : FileState} {s' : Tree}
      → replace_file py expected candidate content path s ≡ (ok r, s')
      → (managed : String) × (observe_file_state py expected.path managed s' ≡ ok r)
        × (same_state py r candidate ≡ true)
        × OnlyAt path s s'
  unfolding replace_file
  replace_file-ok expected candidate content path s {r} h =
      let (_, _, h₁) = lift-ok (reject (invalid_candidate candidate content) _) _ s h in
      let (payload, _, h₂) = lift-ok (present content _) _ s h₁ in
      let (_, _, h₃) = lift-ok (require (py.sha256 payload == candidate.byte_hash) _) _ s h₂ in
      let (_, _, h₄) = lift-ok (require (parent_available s (parents path)) _) _ s h₃ in
      let (mode, _, h₅) = lift-ok (present (octal? (chars candidate.mode)) value_error) _ s h₄ in
      let (_, t, asserted, h₆) = bind-ok (assert_state py expected) _ s h₅ in
      let (_, w, stored, h₇) =
        bind-ok (store_node py path (regular mode payload))
          (λ u.
            reach_state py expected.path candidate.managed_block_hash candidate
              (cas_failure "CAS replacement did not reach candidate state"))
          t h₆ in
      let (seen, reached, still) =
        observed-ok expected.path candidate.managed_block_hash candidate
          (cas_failure "CAS replacement did not reach candidate state") w h₇ in
      let (_, same_tree) = assert_state-ok expected s asserted in
      (
        candidate.managed_block_hash,
        subst (λ x. observe_file_state py expected.path candidate.managed_block_hash x ≡ ok r)
            (sym still) seen,
        reached,
        subst (OnlyAt path s) (sym still) (
            subst (λ x. OnlyAt path x w) same_tree
              (store_node-OnlyAt path (regular mode payload) t stored)),
      )

  unlink-OnlyAt :
      (expected : FileState) (path : String) (s : Tree) {u : Unit {0}} {s' : Tree}
      → unlink py expected path s ≡ (ok u, s')
      → OnlyAt path s s'
  unlink-OnlyAt expected path s {u} {s'} h = go expected.present_ h
    where
      go :
          (there : Bool)
          → (if there then unlink_file py expected path else pure tt) s ≡ (ok u, s')
          → OnlyAt path s s'
      go true k =
          let (_, t, asserted, k₁) = bind-ok (assert_state py expected) _ s k in
          let (_, same_tree) = assert_state-ok expected s asserted in
          subst (λ x. OnlyAt path x s') same_tree (store_node-OnlyAt path absent t k₁)
      go false k =
          subst (OnlyAt path s) (ap (λ (x : Result (Unit {0}) × Tree). x.1) k)
            (λ j. same_either (j == path) (s.node j))

  remove_file-ok :
      (expected candidate : FileState) (content : Option String) (path : String) (s : Tree)
      {r : FileState} {s' : Tree}
      → remove_file py expected candidate content path s ≡ (ok r, s')
      → (managed : String) × (observe_file_state py expected.path managed s' ≡ ok r)
        × (same_state py r candidate ≡ true)
        × OnlyAt path s s'
  unfolding remove_file
  remove_file-ok expected candidate content path s {r} h =
      let (_, _, h₁) =
        lift-ok (require (candidate.file_type == "absent" && is_none content) _) _ s h in
      let (_, _, h₂) =
        lift-ok (require (not expected.present_ || expected.file_type == "regular") _) _ s h₁ in
      let (_, w, removed, h₃) = bind-ok (unlink py expected path) _ s h₂ in
      let (seen, reached, still) = observed-ok expected.path canonical_null candidate _ w h₃ in
      (
        canonical_null,
        subst (λ x. observe_file_state py expected.path canonical_null x ≡ ok r) (sym still) seen,
        reached,
        subst (OnlyAt path s) (sym still) (unlink-OnlyAt expected path s removed),
      )

  -- A compare-and-swap that succeeds has seen the expected state, has reached the candidate state, and
  -- has changed no other path.
  pub compare_and_swap-ok :
      (expected candidate : FileState) (content : Option String) (s : Tree) {r : FileState}
      {s' : Tree}
      → compare_and_swap py expected candidate content s ≡ (ok r, s')
      → (path : String) × (managed : String) × (target py s expected.path ≡ ok path)
        × Seen py expected.managed_block_hash expected s
        × (observe_file_state py expected.path managed s' ≡ ok r)
        × (same_state py r candidate ≡ true)
        × OnlyAt path s s'
  unfolding compare_and_swap
  compare_and_swap-ok expected candidate content s {r} {s'} h =
      let (_, _, h₁) = lift-ok (require (expected.path == candidate.path) _) _ s h in
      let (path, at_path, h₂) = lift-ok (target py s expected.path) _ s h₁ in
      let (_, t, asserted, h₃) = bind-ok (assert_state py expected) _ s h₂ in
      let (seen, same_tree) = assert_state-ok expected s asserted in
      let (managed, observed, reached, only) = changed candidate.present_ path t h₃ in
      (
        path,
        managed,
        at_path,
        seen,
        observed,
        reached,
        subst (λ x. OnlyAt path x s') same_tree only,
      )
    where
      changed :
          (there : Bool) (path : String) (t : Tree)
          → (if there
                then replace_file py expected candidate content path
                else remove_file py expected candidate content path)
              t
            ≡ (ok r, s')
          → (managed : String) × (observe_file_state py expected.path managed s' ≡ ok r)
            × (same_state py r candidate ≡ true)
            × OnlyAt path t s'
      changed true path t k = replace_file-ok expected candidate content path t k
      changed false path t k = remove_file-ok expected candidate content path t k
