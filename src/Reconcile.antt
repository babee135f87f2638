-- ===== src/Reconcile.antt =====
-- src/agent_stack/reconcile: changes of files from an approved state.
pub mod Files
pub mod Cas
