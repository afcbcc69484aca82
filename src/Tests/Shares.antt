-- ===== src/Tests/Shares.antt =====
-- A deposit as a step of the abstract pool.
use raydium_amm.Shares.Value.{set_aside, then_aside, no_run, then_run}
use raydium_amm.Shares.Value.{SetsAside, IsWorthBut, Runs-IsWorth}
use raydium_amm.Pnl.{TakenPnl, calc_take_pnl}
use raydium_amm.State.Amm.{AmmInfo}
use raydium_amm.State.Orders.{TargetOrders}
use raydium_amm.Tests.State.{pool, pool_data}
use raydium_amm.Tests.Pnl.{target}
use raydium_amm.Tests.Liquidity.{
  runtime, deposit_accounts, deposit, deposit_pool, deposited_result, runtime-HasWords,
  deposit_prepares, deposit_runs,
}
use raydium_amm.Prelude.{◌>>=◌, ◌<◌, arith, ◌≤◌, ◌*◌, refl}
use raydium_amm.Uint.Reference.{reference}
use raydium_amm.Shares.{◌⟶◌, Holdings, IsWorth}
use raydium_amm.Shares.Refinement.{◌⇒◌, paid_in, run-step, apply_calls}

abbrev before : Holdings
before = record { pc = 1000000; coin = 2000000; lp = 1000 }

abbrev after : Holdings
after = record { pc = 1100000; coin = 2200000; lp = 1100 }

abbrev run : ◌⇒◌ ⦃uint = reference⦄ before after
unfolding apply_calls raydium_amm.Shares.Refinement.apply_call
run =
    paid_in runtime deposit_accounts deposit deposit_pool deposited_result runtime-HasWords
      (omega arith) (omega arith) deposit_prepares deposit_runs

run-step_example : before ⟶ after
run-step_example = run-step ⦃uint = reference⦄ run

abbrev grown : AmmInfo
grown = record pool { lp_amount = 1100 }

abbrev last : TargetOrders
last = record target { calc_pnl_x = 1000000; calc_pnl_y = 2000000 }

abbrev share_taken : TakenPnl
share_taken = record {
  amm = record grown {
    state_data = record pool_data {
      total_pnl_pc = 100000;
      total_pnl_coin = 200000;
      need_take_pnl_pc = 12000;
      need_take_pnl_coin = 24000;
    };
  };
  total_pc_without_take_pnl = 1088000;
  total_coin_without_take_pnl = 2176000;
  delta_x = 12000;
  delta_y = 24000;
}

abbrev settled : Holdings
settled = record { pc = 1088000; coin = 2176000; lp = 1100 }

aside : SetsAside ⦃uint = reference⦄ after settled
unfolding calc_take_pnl ◌>>=◌ raydium_amm.Math.Decimal.restore_decimal raydium_amm.Pnl.take_pnl
    raydium_amm.Math.Decimal.calc_x_power raydium_amm.Uint.Reference.isqrt raydium_amm.Pnl.pnl_share
    raydium_amm.Pnl.settle_pnl raydium_amm.Pnl.save_pnl
aside = set_aside last grown 1100000 2200000 1100000 2200000 share_taken refl

-- A deposit, and then a profit calculation.
Runs-IsWorth_example :
    (0 < 1100)
    × ◌≤◌ (1 * (1088000 * 2176000)) (1 * (1100000 * 2200000))
    × IsWorthBut ⦃uint = reference⦄ before settled
        (1 * (1100000 * 2200000))
        (1 * (1088000 * 2176000))
Runs-IsWorth_example =
    Runs-IsWorth ⦃uint = reference⦄ (then_aside (then_run no_run run) aside) (omega arith)
