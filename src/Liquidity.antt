-- ===== src/Liquidity.antt =====
-- The instructions that change the liquidity of a pool (program/src/processor.rs): deposit, withdraw
-- and the owner's withdrawal of the profit.
pub mod Pool
pub mod Fit
pub mod Deposit
pub mod Withdraw
pub mod WithdrawPnl
pub mod Ready
