-- ===== src/Route.antt =====
-- src/agent_stack/route: signals, intents and the Route Decision calculator.
pub mod Signals
pub mod Intent
pub mod Calculator
pub mod Verifier
