-- ===== src/Orchestrator.antt =====
-- testrange/orchestrator and testrange/state/cleanup.py: what runs over the graph and the ledger.
pub mod Backend
pub mod Teardown
pub mod Cleanup
pub mod Parallel
pub mod Pool
pub mod Dashboard
pub mod Executor
mod Samples
mod ExecutorSamples
