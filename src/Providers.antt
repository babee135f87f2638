-- ===== src/Providers.antt =====
-- src/agent_stack/providers: the journal of provider attempts.
pub mod Attempts
