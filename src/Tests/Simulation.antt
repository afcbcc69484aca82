-- ===== src/Tests/Simulation.antt =====
-- Simulated swaps with a pool that holds 2,000,000 pc and 1,000,000 coin.
use raydium_amm.Simulation.Empty.{crank_idle_panics}
use raydium_amm.Swap.BaseIn.{quote_base_in}
use raydium_amm.Uint.Reference.{reference}
use raydium_amm.Tests.State.{pool}
use raydium_amm.Math.Swap.{SwapDirection}
use raydium_amm.Tests.Liquidity.{plan}
use raydium_amm.Simulation.Laws.{
  IsSamePool, calc_price_impact_panics, simulate_base_out-quote, simulate_base_in-quote,
}
use raydium_amm.Swap.Prepare.{Prepared}
use raydium_amm.Simulation.Quote.{
  simulate_base_in, calc_price_impact, SimulatedPool, simulate_base_out,
}
use raydium_amm.Simulation.Data.{GetPoolData}
use raydium_amm.Simulation.RunCrank.{CrankPool, crank_idle}
use raydium_amm.Prelude.{◌>>=◌, some, [], ◌≡◌, ℕ, refl, false, panic, ◌≤◌, ok, arith}

abbrev simulated : SimulatedPool
simulated = record {
  amm = pool;
  lp_decimals = 6;
  total_pc_without_take_pnl = 2000000;
  total_coin_without_take_pnl = 1000000;
  swap_direction = SwapDirection.coin_to_pc;
}

abbrev real : Prepared
real = record {
  amm = pool;
  enable_orderbook = false;
  coin_vault_amount = 1000000;
  pc_vault_amount = 2000000;
  user_source_amount = 50000;
  total_pc_without_take_pnl = 2000000;
  total_coin_without_take_pnl = 1000000;
  bids = [];
  asks = [];
  swap_direction = SwapDirection.coin_to_pc;
}

same_pool : IsSamePool simulated real
same_pool = record { same_fees = refl; same_pc = refl; same_coin = refl; same_direction = refl }

abbrev pool_data_read : GetPoolData
pool_data_read = record {
  status = 6;
  coin_decimals = 3;
  pc_decimals = 3;
  lp_decimals = 6;
  pool_pc_amount = 2000000;
  pool_coin_amount = 1000000;
  pnl_pc_amount = 0;
  pnl_coin_amount = 0;
  pool_lp_supply = 1000;
  pool_open_time = 0;
  amm_id = some 40;
}

simulate_base_in-quote_example :
    (fee : ℕ) × (quote_base_in ⦃uint = reference⦄ real 10000 ≡ ok (fee, 19752))
    × (1000000 ≤ 2000000)
unfolding simulate_base_in ◌>>=◌ raydium_amm.Math.CeilDiv.checked_ceil_div
    raydium_amm.Math.Swap.swap_token_amount_base_in calc_price_impact
    raydium_amm.Simulation.Quote.relative_change raydium_amm.Simulation.Quote.pool_data_of
simulate_base_in-quote_example =
    simulate_base_in-quote ⦃uint = reference⦄ simulated real 40
      (record { amount_in = 10000; minimum_amount_out = 0 })
      {r = record {
        pool_data = pool_data_read;
        amount_in = 10000;
        minimum_amount_out = 19752;
        price_impact = 500000;
      }}
      same_pool refl

simulate_base_out-quote_example : (◌≡◌ {A = ℕ} 10000 10000) × (1000000 ≤ 2000000)
unfolding simulate_base_out ◌>>=◌ raydium_amm.Math.Swap.swap_token_amount_base_out
    raydium_amm.Math.CeilDiv.checked_ceil_div calc_price_impact
    raydium_amm.Simulation.Quote.relative_change raydium_amm.Simulation.Quote.pool_data_of
    raydium_amm.Swap.BaseOut.quote_base_out
simulate_base_out-quote_example =
    simulate_base_out-quote ⦃uint = reference⦄ simulated real 40
      (record { max_amount_in = 0; amount_out = 19752 })
      {r = record {
        pool_data = pool_data_read;
        max_amount_in = 10000;
        amount_out = 19752;
        price_impact = 500000;
      }}
      {paid = 10000} {fee = 25} same_pool refl refl

-- A pool of 1,000,000 pc and 2,000,000 coin.
calc_price_impact_panics_example :
    calc_price_impact SwapDirection.coin_to_pc 1000000 2000000 10000 4962 ≡ panic
calc_price_impact_panics_example =
    calc_price_impact_panics SwapDirection.coin_to_pc 1000000 2000000 10000 4962 (omega arith)

abbrev empty_pool : CrankPool
empty_pool = record { target = plan; bids = 0; asks = 0; slots = 0; x = 1000; y = 0 }

crank_idle_panics_example : crank_idle ⦃uint = reference⦄ pool empty_pool ≡ panic
crank_idle_panics_example = crank_idle_panics ⦃uint = reference⦄ pool empty_pool refl
