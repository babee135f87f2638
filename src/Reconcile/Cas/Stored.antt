-- ===== src/Reconcile/Cas/Stored.antt =====
-- The bytes that a successful replacement of src/agent_stack/reconcile/cas.py leaves.
use mathlib.Core.Option.{some-injective}
use agent_workflow_pack.Canonical.Chars.{chars, octal?}
use agent_workflow_pack.Io.{bind-ok, lift-ok}
use agent_workflow_pack.Platform.{Platform}
use agent_workflow_pack.Prelude.{
  Option, String, ap, eq_refl, if-true, if◌then◌else◌, none, some, subst, sym, true, ℕ, ◌==◌, ◌∙◌,
  ◌≡◌,
}
use agent_workflow_pack.Reconcile.Cas.{
  assert_state, compare_and_swap, invalid_candidate, reach_state, remove_file, replace_file,
  store_node,
}
use agent_workflow_pack.Reconcile.Cas.Laws.{observed-ok}
use agent_workflow_pack.Reconcile.Files.{
  FileState, Tree, cas_failure, parent_available, parents, regular, target,
}
use agent_workflow_pack.Result.{Result, ok, ok-injective, present, reject, require, value_error}

module _ (py : Platform) where
  replace_file-stores :
      (expected candidate : FileState) (payload path : String) (s : Tree) {r : FileState}
      {s' : Tree}
      → replace_file py expected candidate (some payload) path s ≡ (ok r, s')
      → (mode : ℕ) × (octal? (chars candidate.mode) ≡ some mode)
        × (s'.node path ≡ regular mode payload)
  unfolding replace_file
  replace_file-stores expected candidate payload path s {r} h =
      let (_, _, h₁) = lift-ok (reject (invalid_candidate candidate (some payload)) _) _ s h in
      let (_, _, h₂) = lift-ok (require (py.sha256 payload == candidate.byte_hash) _) _ s h₁ in
      let (_, _, h₃) = lift-ok (require (parent_available s (parents path)) _) _ s h₂ in
      let (mode, m, h₄) = lift-ok (present (octal? (chars candidate.mode)) value_error) _ s h₃ in
      let (_, t, asserted, h₅) = bind-ok (assert_state py expected) _ s h₄ in
      let (_, w, stored, h₆) =
        bind-ok (store_node py path (regular mode payload))
          (λ u.
            reach_state py expected.path candidate.managed_block_hash candidate
              (cas_failure "CAS replacement did not reach candidate state"))
          t h₅ in
      let (_, _, still) =
        observed-ok py expected.path candidate.managed_block_hash candidate
          (cas_failure "CAS replacement did not reach candidate state") w h₆ in
      (
        mode,
        has_value (octal? (chars candidate.mode)) mode m,
        ap (λ (x : Tree). x.node path) still
            ∙ ap (λ (x : Result (Unit {0}) × Tree). x.1.node path) (sym stored)
            ∙ if-true (path == path) (regular mode payload) (t.node path) (eq_refl path),
      )
    where
      has_value : (o : Option ℕ) (mode : ℕ) → present o value_error ≡ ok mode → o ≡ some mode
      has_value (some n) mode h = ap some (ok-injective h)
      has_value none mode h = cc

  -- A compare-and-swap that succeeds with a candidate that is there leaves the content at the path, with
  -- the mode of the candidate.
  pub compare_and_swap-stores :
      (expected candidate : FileState) (payload : String) (s : Tree) {r : FileState} {s' : Tree}
      → candidate.present_ ≡ true
      → compare_and_swap py expected candidate (some payload) s ≡ (ok r, s')
      → (path : String) × (mode : ℕ) × (target py s expected.path ≡ ok path)
        × (octal? (chars candidate.mode) ≡ some mode)
        × (s'.node path ≡ regular mode payload)
  unfolding compare_and_swap
  compare_and_swap-stores expected candidate payload s there h =
      let (_, _, h₁) = lift-ok (require (expected.path == candidate.path) _) _ s h in
      let (path, at_path, h₂) = lift-ok (target py s expected.path) _ s h₁ in
      let (_, t, _, h₃) = bind-ok (assert_state py expected) _ s h₂ in
      let (mode, m, holds) = replace_file-stores expected candidate payload path t (
        ap
          (λ b.
            (if b
                then replace_file py expected candidate (some payload) path
                else remove_file py expected candidate (some payload) path)
              t)
          (sym there)
        ∙ h₃) in
      (path, mode, at_path, m, holds)

-- The file at a state's path, and what it holds, with the mode 0600.
pub Holds : Platform → Tree → FileState → Tree → String → Type 0
Holds py before state after payload =
    (path : String) × (target py before state.path ≡ ok path)
    × (after.node path ≡ regular 384 payload)

pub compare_and_swap-Holds :
    (py : Platform) (expected candidate : FileState) (payload : String) (s : Tree) {r : FileState}
    {s' : Tree}
    → candidate.present_ ≡ true
    → octal? (chars candidate.mode) ≡ some 384
    → compare_and_swap py expected candidate (some payload) s ≡ (ok r, s')
    → Holds py s expected s' payload
unfolding Holds
compare_and_swap-Holds py expected candidate payload s {r} {s'} there private h =
    let (path, mode, at_path, m, holds) =
      compare_and_swap-stores py expected candidate payload s there h in
    (
      path,
      at_path,
      subst (λ n. s'.node path ≡ regular n payload) (some-injective mode 384 (sym m ∙ private))
          holds,
    )
