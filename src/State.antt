-- ===== src/State.antt =====
-- testrange/state: the ledger of a run, its schema and its store.
pub mod Json
pub mod Schema
pub mod Codec
pub mod Store
pub mod Samples
