-- ===== src/State/Laws.antt =====
-- The numbers of the enumerations of the state.
use raydium_amm.Prelude.{ℕ, ◌≡◌, ok}
use raydium_amm.State.MachineState
use raydium_amm.State.MachineState.{AmmState}
use raydium_amm.State.MachineState.Laws.{state_from-into, state_into-from}
use raydium_amm.State.Params
use raydium_amm.State.Params.{AmmParams}
use raydium_amm.State.Params.Laws.{params_from-into, params_into-from}
use raydium_amm.State.ResetFlag
use raydium_amm.State.ResetFlag.{AmmResetFlag}
use raydium_amm.State.ResetFlag.Laws.{reset_flag_from-into, reset_flag_into-from}
use raydium_amm.State.Simulate
use raydium_amm.State.Simulate.{SimulateParams}
use raydium_amm.State.Simulate.Laws.{simulate_from-into, simulate_into-from}

-- Each of `AmmState`, `AmmParams`, `AmmResetFlag` and `SimulateParams` is read back from its number,
-- and a number that is read as a variant is the number of that variant.
pub enum_numbers :
    (n : ℕ) (state : AmmState) (param : AmmParams) (flag : AmmResetFlag) (sim : SimulateParams)
    → (MachineState.from_u64 (MachineState.into_u64 state) ≡ ok state)
      × (MachineState.from_u64 n ≡ ok state → MachineState.into_u64 state ≡ n)
      × (Params.from_u64 (Params.into_u64 param) ≡ ok param)
      × (Params.from_u64 n ≡ ok param → Params.into_u64 param ≡ n)
      × (ResetFlag.from_u64 (ResetFlag.into_u64 flag) ≡ ok flag)
      × (ResetFlag.from_u64 n ≡ ok flag → ResetFlag.into_u64 flag ≡ n)
      × (Simulate.from_u64 (Simulate.into_u64 sim) ≡ ok sim)
      × (Simulate.from_u64 n ≡ ok sim → Simulate.into_u64 sim ≡ n)
enum_numbers n state param flag sim = (
  state_from-into state,
  state_into-from n,
  params_from-into param,
  params_into-from n,
  reset_flag_from-into flag,
  reset_flag_into-from n,
  simulate_from-into sim,
  simulate_into-from n,
)
