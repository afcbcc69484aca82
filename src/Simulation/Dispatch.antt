-- ===== src/Simulation/Dispatch.antt =====
-- `process_simulate_info`: the simulation that is asked for. Any error of it panics.
use raydium_amm.Simulation.Quote.{simulate_swap_base_in, simulate_swap_base_out}
use raydium_amm.Simulation.PoolInfo.{simulate_pool_info}
use raydium_amm.State.Simulate.{SimulateParams}
use raydium_amm.Prelude.{Outcome, ◌>>=◌, unwrap_result, ok}
use raydium_amm.Instruction.Types.{SimulateInstruction}
use raydium_amm.Simulation.Check.{CrankRuntime, CrankAccounts}
use raydium_amm.Simulation.RunCrank.{RunCrankData, simulate_run_crank}
use raydium_amm.Simulation.Data.{
  GetPoolData, SimulateRuntime, GetSwapBaseInData, SimulateAccounts, GetSwapBaseOutData,
}
use raydium_amm.Uint.{Uint}
use raydium_amm.State.Simulate

-- What is logged.
pub data Logged : Type 0 where
  pool_info : GetPoolData → Logged
  run_crank : RunCrankData → Logged
  swap_base_in : GetSwapBaseInData → Logged
  swap_base_out : GetSwapBaseOutData → Logged

module _ ⦃uint : Uint⦄ where
  unfoldable pub simulate :
      SimulateRuntime
      → SimulateAccounts
      → CrankRuntime
      → CrankAccounts
      → SimulateInstruction
      → SimulateParams
      → Outcome Logged
  simulate runtime accounts crank_runtime crank_accounts info SimulateParams.pool_info = do
    r ← unwrap_result (simulate_pool_info runtime accounts)
    ok (Logged.pool_info r)
  simulate runtime accounts crank_runtime crank_accounts info SimulateParams.run_crank_info = do
    r ← unwrap_result (simulate_run_crank crank_runtime crank_accounts)
    ok (Logged.run_crank r)
  simulate runtime accounts crank_runtime crank_accounts info SimulateParams.swap_base_in_info = do
    r ← unwrap_result (simulate_swap_base_in runtime accounts info)
    ok (Logged.swap_base_in r)
  simulate runtime accounts crank_runtime crank_accounts info SimulateParams.swap_base_out_info = do
    r ← unwrap_result (simulate_swap_base_out runtime accounts info)
    ok (Logged.swap_base_out r)

  unfoldable pub process_simulate_info :
      SimulateRuntime
      → SimulateAccounts
      → CrankRuntime
      → CrankAccounts
      → SimulateInstruction
      → Outcome Logged
  process_simulate_info runtime accounts crank_runtime crank_accounts info = do
    param ← Simulate.from_u64 info.param
    simulate runtime accounts crank_runtime crank_accounts info param
