-- ===== src/State.antt =====
-- program/src/state.rs: the accounts of the program and their enumerations.
pub mod Constants
pub mod Laws
pub mod Status
pub mod Fees
pub mod Amm
pub mod Orders
pub mod Loading
pub mod MachineState
pub mod Params
pub mod ResetFlag
pub mod Simulate
