-- ===== src/Reconcile/Cas.antt =====
-- `compare_and_swap` of src/agent_stack/reconcile/cas.py: the replacement or removal of a file from its
-- approved state alone. Nobody else writes between the last check and `os.replace`, and a temporary file
-- lies on the device of its directory.
pub mod Laws
pub mod Stored
use agent_workflow_pack.Canonical.{canonical_null}
use agent_workflow_pack.Canonical.Chars.{chars, octal?}
use agent_workflow_pack.Io.{Io, asks, lift, pure, ◌>>=◌, ◌>>◌}
use agent_workflow_pack.Platform.{Platform}
use agent_workflow_pack.Prelude.{Bool, Option, String, if◌then◌else◌, not, ◌&&◌, ◌==◌, ◌||◌}
use agent_workflow_pack.Reconcile.Files.{
  FileNode, FileState, Tree, absent, cas_failure, observe_file_state, parent_available, parents,
  regular, same_state, target,
}
use agent_workflow_pack.Result.{Exn, ok, present, reject, require, value_error}
use agent_workflow_pack.Route.Calculator.{is_none}

abbrev pub invalid_candidate : FileState → Option String → Bool
invalid_candidate candidate content =
    not (candidate.file_type == "regular")
    || is_none content
    || not candidate.non_symlink
    || candidate.mode == canonical_null

module _ (py : Platform) where
  unfoldable pub assert_state : FileState → Io Tree (Unit {0})
  assert_state expected = do
    current ← asks (observe_file_state py expected.path expected.managed_block_hash)
    lift (
        require (same_state py current expected)
          (cas_failure "current file state differs from approved precondition"))

  abbrev pub store_node : String → FileNode → Io Tree (Unit {0})
  store_node path n tree = (ok tt, record tree { node = λ k. if k == path then n else tree.node k })

  -- The observation that ends both branches.
  abbrev pub reach_state : String → String → FileState → Exn → Io Tree FileState
  reach_state path managed_block_hash candidate e = do
    result ← asks (observe_file_state py path managed_block_hash)
    lift (require (same_state py result candidate) e)
    pure result

  abbrev pub unlink_file : FileState → String → Io Tree (Unit {0})
  unlink_file expected path = do assert_state expected; store_node path absent

  -- `if expected.exists`: the state is checked again, and the file is removed.
  abbrev pub unlink : FileState → String → Io Tree (Unit {0})
  unlink expected path = if expected.present_ then unlink_file expected path else pure tt

  -- The removal of a file, where the candidate is absent.
  unfoldable pub remove_file : FileState → FileState → Option String → String → Io Tree FileState
  remove_file expected candidate content path = do
    lift (
        require (candidate.file_type == "absent" && is_none content)
          (cas_failure "absent CAS candidate contains bytes or type"))
    lift (
        require (not expected.present_ || expected.file_type == "regular")
          (cas_failure "CAS deletion supports regular files only"))
    unlink expected path
    reach_state expected.path canonical_null candidate
        (cas_failure "CAS deletion did not reach candidate state")

  -- The replacement of a file, where the candidate is there.
  -- A mode has three to six octal digits, as `normalize_mode` gives them; of another that `int(mode, 8)`
  -- reads, the source finds only after the replacement that it differs.
  unfoldable pub replace_file : FileState → FileState → Option String → String → Io Tree FileState
  replace_file expected candidate content path = do
    lift (
        reject (invalid_candidate candidate content)
          (cas_failure "CAS replacement candidate is invalid"))
    payload ← lift (present content (cas_failure "CAS replacement candidate is invalid"))
    lift (
        require (py.sha256 payload == candidate.byte_hash)
          (cas_failure "CAS candidate bytes differ from candidate digest"))
    asks (λ tree.
        require (parent_available tree (parents path))
          (cas_failure "CAS target parent is unavailable"))
    mode ← lift (present (octal? (chars candidate.mode)) value_error)
    assert_state expected
    store_node path (regular mode payload)
    reach_state expected.path candidate.managed_block_hash candidate
        (cas_failure "CAS replacement did not reach candidate state")

  unfoldable pub compare_and_swap : FileState → FileState → Option String → Io Tree FileState
  compare_and_swap expected candidate content = do
    lift (
        require (expected.path == candidate.path)
          (cas_failure "CAS candidate path differs from precondition"))
    path ← asks (λ tree. target py tree expected.path)
    assert_state expected
    if candidate.present_
        then replace_file expected candidate content path
        else remove_file expected candidate content path
