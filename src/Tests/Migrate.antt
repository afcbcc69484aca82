-- ===== src/Tests/Migrate.antt =====
-- The pool without orders is moved to a market with the same lots.
use raydium_amm.Administration.Migrate.Laws.{IsMigrated, process_migrate_to_openbook-IsMigrated}
use raydium_amm.Uint.Reference.{reference}
use raydium_amm.Swap.Accounts.{OrderBook, Call, MarketAccount}
use raydium_amm.Prelude.{◌>>=◌, ◌∷◌, true, ok, [], refl}
use raydium_amm.Initialization.Create.{NewMarket, InitCall, NewPart}
use raydium_amm.Administration.Migrate.{
  MigrateRuntime, MigrateResult, MigrateAccounts, process_migrate_to_openbook,
}
use raydium_amm.Tests.State.{pool}
use raydium_amm.Tests.Pnl.{target}
use raydium_amm.Tests.Administration.{admin_runtime}
use raydium_amm.Tests.Initialization.{init_runtime, to_create}

abbrev empty_book : OrderBook
empty_book = record {
  native_pc_total = 0;
  native_coin_total = 0;
  events = [];
  bids = [];
  asks = [];
}

abbrev same_lots : NewMarket
same_lots = record { coin_mint = 3; pc_mint = 4; coin_lot_size = 100; pc_lot_size = 100 }

abbrev migrate_runtime : MigrateRuntime
migrate_runtime = record {
  admin = admin_runtime;
  creation = init_runtime;
  load_settled = ok (same_lots, empty_book);
  load_new_market = ok same_lots;
}

abbrev migrate_accounts : MigrateAccounts
migrate_accounts = record {
  token_program = 20;
  system_program = 22;
  amm_key = target.owner;
  amm = record { owner_is_program = true; len_is_size = true; contents = ok pool };
  amm_authority = 21;
  amm_open_orders = 6;
  amm_coin_vault = 1;
  amm_pc_vault = 2;
  amm_target_orders_key = 9;
  amm_target_orders = record { owner_is_program = true; len_is_size = true; contents = ok target };
  market_program = 8;
  market = 7;
  new_amm_open_orders = to_create 6;
  new_market_program = 8;
  new_market = 70;
  admin = 25;
  admin_is_signer = true;
}

abbrev left : MigrateResult
left = record {
  amm = record pool {
    status = 7;
    min_size = 100;
    pc_lot_size = 1000;
    reset_flag = 0;
    market = 70;
    client_order_id = 0;
    recent_epoch = 7;
    padding1 = 0 ∷ 0 ∷ 0 ∷ 0 ∷ 0 ∷ 0 ∷ 0 ∷ 0 ∷ [];
  };
  target_orders = target;
  calls =
      Call.cancel_orders (1 ∷ 3 ∷ 2 ∷ 0 ∷ 0 ∷ 0 ∷ 0 ∷ 0 ∷ [])
      ∷ Call.settle_funds MarketAccount.market_coin_vault MarketAccount.market_pc_vault
      ∷ [];
  creation_calls =
      InitCall.transfer_lamports NewPart.new_open_orders 100
      ∷ InitCall.allocate_part NewPart.new_open_orders 100
      ∷ InitCall.assign_part NewPart.new_open_orders 8
      ∷ InitCall.init_open_orders
      ∷ [];
}

process_migrate_to_openbook-IsMigrated_example : IsMigrated migrate_runtime migrate_accounts left
unfolding process_migrate_to_openbook ◌>>=◌ raydium_amm.State.Loading.load_amm
    raydium_amm.Administration.Migrate.check_migrate raydium_amm.State.Loading.load_target_orders
    raydium_amm.Administration.Migrate.recorded_pnl raydium_amm.Math.Decimal.restore_decimal
    raydium_amm.Administration.Orders.do_cancel_amm_orders
    raydium_amm.Liquidity.Withdraw.both_batches raydium_amm.Liquidity.Withdraw.max_len
    raydium_amm.Liquidity.Withdraw.store_pair raydium_amm.Liquidity.Withdraw.store_next
    raydium_amm.Liquidity.Withdraw.store_id raydium_amm.Liquidity.Withdraw.flush
    raydium_amm.Administration.Migrate.check_market_mints
    raydium_amm.Administration.Migrate.check_settled
    raydium_amm.Swap.Prepare.calc_exact_vault_in_serum
    raydium_amm.Administration.Migrate.enter_market raydium_amm.Administration.Migrate.moved
    raydium_amm.Administration.Migrate.rescaled raydium_amm.Administration.Migrate.update_plan
    raydium_amm.Administration.Migrate.reopened raydium_amm.Initialization.Create.fund_part
    raydium_amm.Initialization.Create.generate_amm_associated_account
    raydium_amm.Initialization.Create.generate_part raydium_amm.Liquidity.Withdraw.store_pairs
    raydium_amm.Math.Decimal.convert_in_pc_lot_size raydium_amm.Math.Decimal.normalize_decimal_v2
    raydium_amm.Math.Decimal.to_u64 raydium_amm.Math.Decimal.unwrap_u64
    raydium_amm.State.Amm.initial_min_size raydium_amm.State.Amm.initial_pool
    raydium_amm.State.Amm.initial_sys_decimal_value raydium_amm.State.Amm.initialize
    raydium_amm.State.Amm.initialize_data raydium_amm.State.Fees.initialize
    raydium_amm.State.MachineState.into_u64 raydium_amm.State.ResetFlag.into_u64
    raydium_amm.State.Status.into_u64 raydium_amm.Swap.Cancel.cancel_calls
    raydium_amm.Swap.Cancel.set_id raydium_amm.Swap.Prepare.apply_event
process_migrate_to_openbook-IsMigrated_example =
    process_migrate_to_openbook-IsMigrated ⦃uint = reference⦄ migrate_runtime migrate_accounts
      {result = left} refl
