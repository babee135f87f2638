-- ===== src/Runtime.antt =====
-- src/agent_stack/runtime: the ledger of approval proofs, task journals and the outbox.
pub mod Replay
pub mod TaskJournal
pub mod Outbox
