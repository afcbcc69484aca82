-- ===== src/Simulation.antt =====
-- `process_simulate_info` (program/src/processor.rs): what a client asks the program to compute, without
-- any change of an account. The results are logged as JSON by the `serde_json` crate; here they are
-- values.
pub mod Data
pub mod PoolInfo
pub mod Quote
pub mod Check
pub mod RunCrank
pub mod Dispatch
pub mod Laws
pub mod Empty
