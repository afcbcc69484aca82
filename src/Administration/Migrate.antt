-- ===== src/Administration/Migrate.antt =====
-- `process_migrate_to_openbook`: the pool leaves its market for one of another order book.
pub mod Laws
use raydium_amm.State.ResetFlag.{AmmResetFlag}
use raydium_amm.State.Status.{AmmStatus}
use raydium_amm.State.Amm
use raydium_amm.State.Status
use raydium_amm.State.ResetFlag
use raydium_amm.Administration.Orders.{do_cancel_amm_orders}
use raydium_amm.Errors.{AmmError}
use raydium_amm.Swap.Prepare.{calc_exact_vault_in_serum}
use raydium_amm.Math.Decimal.{restore_decimal, normalize_decimal_v2}
use raydium_amm.State.Orders.{TargetOrders}
use raydium_amm.State.Loading.{AccountData, load_amm, load_target_orders}
use raydium_amm.State.Amm.{AmmInfo}
use raydium_amm.Uint.{Uint, as_u128, as_u64}
use raydium_amm.Administration.Accounts.{AdminRuntime}
use raydium_amm.Prelude.{
  ℕ, Outcome, ◌>>=◌, List, if◌then◌else◌, ◌>>◌, Bool, ◌==◌, ensure, ◌&&◌, ok, ◌++◌, ◌∷◌, [], ◌%◌,
  ◌^◌,
}
use raydium_amm.Swap.Accounts.{OrderBook, Call, MarketAccount}
use raydium_amm.Initialization.Create.{
  NewMarket, InitRuntime, NewAccount, InitCall, generate_amm_associated_account, NewPart,
}

pub record MigrateAccounts : Type 0 where
  pub token_program : ℕ
  pub system_program : ℕ
  pub amm_key : ℕ
  pub amm : AccountData AmmInfo
  pub amm_authority : ℕ
  pub amm_open_orders : ℕ
  pub amm_coin_vault : ℕ
  pub amm_pc_vault : ℕ
  pub amm_target_orders_key : ℕ
  pub amm_target_orders : AccountData TargetOrders
  pub market_program : ℕ
  pub market : ℕ
  pub new_amm_open_orders : NewAccount
  pub new_market_program : ℕ
  pub new_market : ℕ
  pub admin : ℕ
  pub admin_is_signer : Bool

-- The old market and its order book after the orders are cancelled and settled, the new market, and what
-- the creation of an account reads.
pub record MigrateRuntime : Type 0 where
  pub admin : AdminRuntime
  pub creation : InitRuntime
  pub load_settled : Outcome (NewMarket × OrderBook)
  pub load_new_market : Outcome NewMarket

pub record MigrateResult : Type 0 where
  pub amm : AmmInfo
  pub target_orders : TargetOrders
  pub calls : List Call
  pub creation_calls : List InitCall

unfoldable pub check_migrate : AdminRuntime → MigrateAccounts → AmmInfo → Outcome (Unit {0})
check_migrate runtime accounts amm = do
  ensure (accounts.admin_is_signer && accounts.admin == runtime.amm_owner_id)
      AmmError.invalid_sign_account
  authority ← runtime.authority_id amm.nonce
  ensure (accounts.amm_authority == authority) AmmError.invalid_program_address
  ensure (accounts.token_program == runtime.spl_token_id) AmmError.invalid_spl_token_program
  ensure (accounts.system_program == runtime.system_program_id) AmmError.invalid_sys_program_address
  ensure (accounts.amm_coin_vault == amm.coin_vault) AmmError.invalid_coin_vault
  ensure (accounts.amm_pc_vault == amm.pc_vault) AmmError.invalid_pc_vault
  ensure (accounts.amm_target_orders_key == amm.target_orders) AmmError.invalid_pc_vault
  ensure (accounts.market == amm.market) AmmError.invalid_market
  ensure (accounts.market_program == amm.market_program) AmmError.invalid_market_program
  ensure (accounts.amm_open_orders == amm.open_orders) AmmError.invalid_open_orders

-- Both markets trade the two tokens of the pool.
unfoldable pub check_market_mints : NewMarket → AmmInfo → Outcome (Unit {0})
check_market_mints market amm = do
  ensure (market.coin_mint == amm.coin_vault_mint) AmmError.invalid_coin_mint
  ensure (market.pc_mint == amm.pc_vault_mint) AmmError.invalid_pc_mint

-- Nothing of the pool may be left in the old order book.
unfoldable pub check_settled : OrderBook → (open_orders : ℕ) → Outcome (Unit {0})
check_settled book open_orders = do
  (pc, coin) ← calc_exact_vault_in_serum book open_orders
  ensure (pc == 0 && coin == 0) AmmError.unknown_amm_error

-- The keys are written before `initialize`, the status and the flag after it. `as u8` keeps the last eight
-- bits.
unfoldable pub moved : MigrateAccounts → AmmInfo → AmmInfo
moved accounts amm = record amm {
  market_program = accounts.new_market_program;
  market = accounts.new_market;
  open_orders = accounts.new_amm_open_orders.key;
}

unfoldable pub reopened : AmmInfo → (epoch : ℕ) → AmmInfo
reopened amm epoch = record amm {
  status = Status.into_u64 AmmStatus.waiting_trade;
  reset_flag = ResetFlag.into_u64 AmmResetFlag.reset_yes;
  recent_epoch = epoch;
}

module _ ⦃uint : Uint⦄ where
  -- The recorded profit in units of the tokens.
  unfoldable pub recorded_pnl : AmmInfo → TargetOrders → Outcome (ℕ × ℕ)
  recorded_pnl amm target = do
    pc ← restore_decimal target.calc_pnl_x amm.pc_decimals amm.sys_decimal_value
    pc_amount ← as_u64 pc
    coin ← restore_decimal target.calc_pnl_y amm.coin_decimals amm.sys_decimal_value
    coin_amount ← as_u64 coin
    ok (pc_amount, coin_amount)

  -- Other lots mean another scale, in which the recorded profit is written again.
  unfoldable pub rescaled : AmmInfo → TargetOrders → (pc coin : ℕ) → Outcome TargetOrders
  rescaled amm target pc coin = do
    x ← normalize_decimal_v2 pc amm.pc_decimals amm.sys_decimal_value
    calc_pnl_x ← as_u128 x
    y ← normalize_decimal_v2 coin amm.coin_decimals amm.sys_decimal_value
    calc_pnl_y ← as_u128 y
    ok (record target { calc_pnl_x = calc_pnl_x; calc_pnl_y = calc_pnl_y })

  unfoldable pub update_plan :
      (before after : NewMarket) → AmmInfo → TargetOrders → (pc coin : ℕ) → Outcome TargetOrders
  update_plan before after amm target pc coin =
      if after.coin_lot_size == before.coin_lot_size && after.pc_lot_size == before.pc_lot_size
      then ok target
      else rescaled amm target pc coin

  -- The part after the old market is left.
  unfoldable pub enter_market :
      MigrateRuntime
      → MigrateAccounts
      → (before : NewMarket) → AmmInfo
      → TargetOrders
      → (pc coin : ℕ) → (calls : List Call) → Outcome MigrateResult
  enter_market runtime accounts before amm target pc coin calls = do
    ensure (accounts.new_market_program == runtime.creation.openbook_id)
        AmmError.invalid_market_program
    after ← runtime.load_new_market
    check_market_mints after amm
    created ←
        generate_amm_associated_account runtime.creation NewPart.new_open_orders
          accounts.new_amm_open_orders accounts.new_market_program
    fresh ←
        Amm.initialize (moved accounts amm) (amm.nonce % 2 ^ 8) amm.state_data.pool_open_time
          (amm.coin_decimals % 2 ^ 8) (amm.pc_decimals % 2 ^ 8) after.coin_lot_size
          after.pc_lot_size runtime.creation.epoch
    target' ← update_plan before after fresh target pc coin
    epoch ← runtime.creation.epoch
    ok (record {
      amm = reopened fresh epoch;
      target_orders = target';
      calls = calls;
      creation_calls = created ++ (InitCall.init_open_orders ∷ []);
    })

  unfoldable pub process_migrate_to_openbook :
      MigrateRuntime → MigrateAccounts → Outcome MigrateResult
  process_migrate_to_openbook runtime accounts = do
    amm ← load_amm accounts.amm
    check_migrate runtime.admin accounts amm
    target ← load_target_orders accounts.amm_target_orders accounts.amm_key
    (pc, coin) ← recorded_pnl amm target
    cancelled ← do_cancel_amm_orders runtime.admin
    (before, book) ← runtime.load_settled
    check_market_mints before amm
    check_settled book accounts.amm_open_orders
    enter_market runtime accounts before amm target pc coin (
        cancelled
        ++ (Call.settle_funds MarketAccount.market_coin_vault MarketAccount.market_pc_vault ∷ []))
