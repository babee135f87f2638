-- ===== src/Tests.antt =====
-- Concrete runs of the model, and the theorems applied to them.
mod Samples
mod Signals
mod Route
mod Attempts
mod Impact
mod Replay
mod Journal
mod Policy
mod Verifier
mod Outbox
mod Profile
mod Catalog
mod Closure
