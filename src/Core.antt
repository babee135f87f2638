-- ===== src/Core.antt =====
-- src/agent_stack/core: the pure derivations of the core package.
pub mod Impact
pub mod TaskPolicy
pub mod Profile
pub mod Catalog
