-- ===== src/State/Simulate.antt =====
-- `SimulateParams`: what a simulation reports.
pub mod Laws
use raydium_amm.Prelude.{ℕ, Bool, true, false, ◌==◌, ◌||◌, if◌then◌else◌, Outcome, ok, panic}

-- `enum SimulateParams`
pub data SimulateParams : Type 0 where
  pool_info swap_base_in_info swap_base_out_info run_crank_info : SimulateParams

-- `SimulateParams::from_u64`; any other number is `unreachable!()`.
unfoldable pub from_u64 : ℕ → Outcome SimulateParams
from_u64 n =
    if n == 0
    then ok SimulateParams.pool_info
    else if n == 1
    then ok SimulateParams.swap_base_in_info
    else if n == 2
    then ok SimulateParams.swap_base_out_info
    else if n == 3
    then ok SimulateParams.run_crank_info
    else panic

-- `SimulateParams::into_u64`
unfoldable pub into_u64 : SimulateParams → ℕ
into_u64 SimulateParams.pool_info = 0
into_u64 SimulateParams.swap_base_in_info = 1
into_u64 SimulateParams.swap_base_out_info = 2
into_u64 SimulateParams.run_crank_info = 3
