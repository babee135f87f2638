-- ===== src/Lib.antt =====
-- Models of the pure decisions and the journalled state machines of agent-workflow-pack.
--
-- The program decides how an agent's task is routed, which files a reconciliation may change, and how an
-- isolated provider is run. Documents are JSON values (`Json`); a Python call that may raise is a
-- `Result` (`Result`), and a method on files is a function of a store that keeps what was written before
-- an exception (`Io`). Unicode normalisation, SHA-256 and version 5 UUIDs are the parameters of
-- `Platform`.
--
-- `Canonical` is src/agent_stack/core/canonical.py: `normalize_nfc`, `normalize_string_set`,
-- `normalize_path`, `normalize_mode`, `normalize_json_value`, `canonical_json_bytes` (`canonical_json`,
-- before its encoding) and `digest`, which every component below calls. `Canonical.Chars` holds the
-- methods of `str` that it uses.
-- `Route.Signals` is src/agent_stack/route/signals.py: the policy, its loading from the parsed document,
-- and the evaluation of a signal set.
-- `Route.Intent` is src/agent_stack/route/intent.py, whose signals are normalised by `Route.Signals`.
-- `Route.Calculator` is src/agent_stack/route/calculator.py: `calculate_route` evaluates the policy over
-- an intent or candidate signals and builds the Decision. The random UUIDs are a stream; the loop that
-- draws a task identity has one round more than there are tasks, which is enough for distinct UUIDs.
-- `Route.Verifier` is src/agent_stack/route/verifier.py: the replay of a Decision by its consumer, with the
-- calculator's functions.
-- `Core.Impact` is src/agent_stack/core/impact.py: the authority and surface changes of a candidate.
-- `Core.TaskPolicy` is src/agent_stack/core/task_policy.py: the snapshot of the tasks (`Snapshot`), the
-- findings (`Findings`), that the two agree (`Evidence`), the state of the workspace (`Quiescence`) and
-- the gate that an operation with its `Core.Impact` has to pass (`Gate`).
-- `Core.Profile` is src/agent_stack/core/profile.py: the sources and their chain, what each adds (`Merge`), and
-- `resolve_profile` (`Resolve`). The walk along the chain has one round more than there are sources.
-- `Core.Catalog` is src/agent_stack/core/catalog.py: the capability manifests, `evaluate_capabilities`
-- (`Capabilities`), the entries of the catalogue (`Entries`), `resolve_catalog_closure` (`Closure`) with
-- its topological order (`Order`), and `normalize_workflow_lock` (`Lock`), each with its records of models.py.
-- The calls of `add` nest at most one level deeper than there are entries, and the order has one round
-- more than there are identities.
-- `Providers.Attempts` is src/agent_stack/providers/attempts.py: the journal of provider attempts and the
-- release receipts. `Receipts` has the checks of a receipt, `Methods` the methods, `Validate` what a
-- journal must satisfy, `Moves` the state machine of one attempt.
-- `Reconcile.Files` and `Reconcile.Cas` are src/agent_stack/reconcile/cas.py, with `FileState` of
-- src/agent_stack/reconcile/models.py: files by their path, and `compare_and_swap`
-- (`Reconcile.Cas.Stored` has the bytes that it leaves).
-- `Runtime.Replay` is src/agent_stack/runtime/replay.py: the ledger of approval proofs, which
-- `reserve_proof` and `consume_proof` (`Runtime.Replay.Ledger`) change by `compare_and_swap`. `Clock`
-- holds what they take from `json` and `datetime`.
-- `Runtime.TaskJournal` is src/agent_stack/runtime/task_journal.py: what a journal of a task transaction
-- has to be, its reading (`Read`), its creation and advance (`Store`), and its life (`History`). The
-- names in a directory and `json.loads` are arguments.
-- `Runtime.Outbox` is src/agent_stack/runtime/outbox.py: the items and their checks, `enqueue_effect` (`Queue`
-- has its pure part) and `deliver_effect` (`Deliver`), whose handler is an argument.
--
-- Not modelled: floating-point numbers in documents, the `details` of failures, file locks (a method is
-- one step), the file modes of the attempt store, crashes inside a write, and the parts of the program that are named in the
-- repository's src/agent_stack but not above: release, cli, the rest of core, route, providers, runtime
-- and reconcile, and the vendored libraries. Another process that writes a file between the last check
-- and the replacement is left out too.
mod Prelude
pub mod Json
pub mod Result
pub mod Platform
pub mod Canonical
pub mod Ident
pub mod Route
pub mod Io
pub mod Providers
pub mod Core
pub mod Reconcile
pub mod Runtime
mod Tests
