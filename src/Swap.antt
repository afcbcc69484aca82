-- ===== src/Swap.antt =====
-- `process_swap_base_in` and `process_swap_base_out` (program/src/processor.rs): what the two swaps
-- share, and the swaps.
pub mod Accounts
pub mod Prepare
pub mod Cancel
pub mod BaseIn
pub mod Fair
pub mod Book
pub mod Steps
pub mod Gate
pub mod Flow
pub mod Totals
pub mod Ready
pub mod BaseOut
