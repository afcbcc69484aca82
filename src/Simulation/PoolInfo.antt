-- ===== src/Simulation/PoolInfo.antt =====
-- `simulate_pool_info`: the state of a pool.
use raydium_amm.Math.Decimal.{restore_decimal}
use raydium_amm.Swap.Prepare.{calc_total_without_take_pnl}
use raydium_amm.State.Loading.{load_target_orders, load_amm}
use raydium_amm.Prelude.{ℕ, Outcome, if◌then◌else◌, ◌>>◌, ◌==◌, ensure, ◌>>=◌, ok, some}
use raydium_amm.State.Amm.{AmmInfo}
use raydium_amm.Uint.{Uint, as_u64}
use raydium_amm.Simulation.Data.{SimulateAccounts, SimulateRuntime, GetPoolData}
use raydium_amm.Errors.{AmmError}

unfoldable pub check_pool_keys : SimulateAccounts → AmmInfo → (authority : ℕ) → Outcome (Unit {0})
check_pool_keys accounts amm authority = do
  ensure (accounts.amm_authority == authority) AmmError.invalid_program_address
  ensure (accounts.amm_coin_vault == amm.coin_vault) AmmError.invalid_coin_vault
  ensure (accounts.amm_pc_vault == amm.pc_vault) AmmError.invalid_pc_vault
  ensure (accounts.amm_lp_mint == amm.lp_mint) AmmError.invalid_pool_mint
  ensure (accounts.amm_open_orders == amm.open_orders) AmmError.invalid_open_orders
  ensure (accounts.market == amm.market) AmmError.invalid_market

module _ ⦃uint : Uint⦄ where
  -- The amounts of the last profit calculation, where the account of the plan is passed.
  unfoldable pub last_pnl : SimulateAccounts → AmmInfo → Outcome (ℕ × ℕ)
  last_pnl accounts amm =
      if accounts.account_len == 9
      then (do
        ensure (accounts.amm_target_orders == amm.target_orders) AmmError.invalid_target_orders
        target ← load_target_orders accounts.target_orders accounts.amm_key
        pc ← restore_decimal target.calc_pnl_x amm.pc_decimals amm.sys_decimal_value
        pnl_pc_amount ← as_u64 pc
        coin ← restore_decimal target.calc_pnl_y amm.coin_decimals amm.sys_decimal_value
        pnl_coin_amount ← as_u64 coin
        ok (pnl_pc_amount, pnl_coin_amount))
      else ok (0, 0)

  unfoldable pub simulate_pool_info : SimulateRuntime → SimulateAccounts → Outcome GetPoolData
  simulate_pool_info runtime accounts = do
    amm ← load_amm accounts.amm
    authority ← runtime.authority_id amm.nonce
    ensure accounts.are_readonly AmmError.account_need_read_only
    check_pool_keys accounts amm authority
    (pnl_pc_amount, pnl_coin_amount) ← last_pnl accounts amm
    coin_vault ← runtime.unpack_token_account accounts.amm_coin_vault
    pc_vault ← runtime.unpack_token_account accounts.amm_pc_vault
    lp_decimals ← runtime.unpack_mint accounts.amm_lp_mint
    market ← runtime.load_market
    ensure (market.coin_mint == coin_vault.mint) AmmError.invalid_coin_mint
    ensure (market.pc_mint == pc_vault.mint) AmmError.invalid_pc_mint
    (pc, coin) ←
        calc_total_without_take_pnl pc_vault.amount coin_vault.amount market.book
          accounts.amm_open_orders amm
    ok (record {
      status = amm.status;
      coin_decimals = amm.coin_decimals;
      pc_decimals = amm.pc_decimals;
      lp_decimals = lp_decimals;
      pool_pc_amount = pc;
      pool_coin_amount = coin;
      pnl_pc_amount = pnl_pc_amount;
      pnl_coin_amount = pnl_coin_amount;
      pool_lp_supply = amm.lp_amount;
      pool_open_time = amm.state_data.pool_open_time;
      amm_id = some accounts.amm_key;
    })
