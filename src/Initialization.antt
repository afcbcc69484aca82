-- ===== src/Initialization.antt =====
-- `process_initialize2` (program/src/processor.rs): a pool is created for a market.
pub mod Create
pub mod Process
pub mod Created
pub mod Laws
