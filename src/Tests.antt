-- ===== src/Tests.antt =====
-- Concrete inputs: each property applied where its hypotheses hold, and short runs of the model.
pub mod Memory
mod Compositions
mod Reports
mod Tasks
mod Supervisor
mod Helpers
