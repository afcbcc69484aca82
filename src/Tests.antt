-- ===== src/Tests.antt =====
-- The theorems at concrete inputs.
mod Math
mod State
mod Instruction
mod Pnl
mod Swap
mod Liquidity
mod Shares
mod Simulation
mod Settings
mod Initialization
mod Administration
mod Migrate
