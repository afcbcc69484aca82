-- ===== src/Tests/Administration.antt =====
-- Instructions of the administrators.
use raydium_amm.Administration.Config.Laws.{IsUpdated, process_update_config-IsUpdated}
use raydium_amm.Tests.State.{pool}
use raydium_amm.Administration.Orders.Laws.{
  IsCanceller, IsCancelled, process_admin_cancel_orders-IsCancelled,
}
use raydium_amm.Administration.Config.{process_update_config}
use raydium_amm.Administration.Accounts.{AdminRuntime}
use raydium_amm.Swap.Accounts.{OrderBook, Call, MarketAccount}
use raydium_amm.State.Loading.{AccountData, AmmConfig, load_config}
use raydium_amm.Administration.Orders.{CancelAccounts, process_admin_cancel_orders}
use raydium_amm.Prelude.{◌>>=◌, some, none, [], ◌∷◌, List, true, ok, ◌≡◌, ℕ, refl}

abbrev book : OrderBook
book = record {
  native_pc_total = 0;
  native_coin_total = 0;
  events = [];
  bids = 1 ∷ 2 ∷ [];
  asks = 3 ∷ [];
}

abbrev pub admin_runtime : AdminRuntime
admin_runtime = record {
  spl_token_id = 20;
  system_program_id = 22;
  srm_mint = 23;
  msrm_mint = 24;
  amm_owner_id = 25;
  referrer_id = 26;
  config_address = 27;
  authority_id = λ nonce. ok 21;
  unpack_token_account = λ account token_program. ok (record { mint = 23; owner = 21; amount = 9 });
  load_book = ok book;
  load_free = ok (0, 7);
  minimum_balance = ok 100;
}

abbrev config : AmmConfig
config = record {
  pnl_owner = 30;
  cancel_owner = 31;
  pending_1 = [];
  pending_2 = [];
  create_pool_fee = 0;
}

abbrev config_account : AccountData AmmConfig
config_account = record { owner_is_program = true; len_is_size = true; contents = ok config }

process_update_config-IsUpdated_example :
    (before : AmmConfig) × (load_config config_account ≡ ok before)
    × (true ≡ true)
    × (◌≡◌ {A = ℕ} 25 25)
    × (◌≡◌ {A = ℕ} 27 27)
    × (true ≡ true)
    × IsUpdated before
        (record { param = 1; owner = some 77; create_pool_fee = none })
        (record config { cancel_owner = 77 })
unfolding process_update_config ◌>>=◌ load_config raydium_amm.Administration.Config.update_config
    raydium_amm.Administration.Config.given_owner
process_update_config-IsUpdated_example =
    process_update_config-IsUpdated admin_runtime
      (record {
        admin = 25;
        admin_is_signer = true;
        amm_config_key = 27;
        amm_config = config_account;
      })
      (record { param = 1; owner = some 77; create_pool_fee = none })
      {after = record config { cancel_owner = 77 }} refl

abbrev cancel_accounts : CancelAccounts
cancel_accounts = record {
  account_len = 17;
  token_program = 20;
  amm = record { owner_is_program = true; len_is_size = true; contents = ok pool };
  amm_authority = 21;
  amm_open_orders = 6;
  amm_target_orders = 9;
  amm_coin_vault = 1;
  amm_pc_vault = 2;
  amm_owner = 31;
  amm_owner_is_signer = true;
  amm_config_key = 27;
  amm_config = config_account;
  market_program = 8;
  market = 7;
  srm_token = none;
  referrer_pc = none;
}

abbrev cancelled : List Call
cancelled =
    Call.cancel_orders (1 ∷ 3 ∷ 2 ∷ 0 ∷ 0 ∷ 0 ∷ 0 ∷ 0 ∷ [])
    ∷ Call.settle_funds MarketAccount.market_coin_vault MarketAccount.market_pc_vault
    ∷ []

process_admin_cancel_orders-IsCancelled_example :
    IsCanceller admin_runtime cancel_accounts × IsCancelled admin_runtime cancelled
unfolding process_admin_cancel_orders ◌>>=◌ raydium_amm.Administration.Orders.check_admin_cancel
    raydium_amm.State.Loading.load_amm raydium_amm.Administration.Orders.check_cancel_owner
    load_config raydium_amm.State.Status.into_u64
    raydium_amm.Administration.Orders.check_cancel_keys
    raydium_amm.Administration.Orders.check_cancel_srm
    raydium_amm.Administration.Orders.check_cancel_referrer
    raydium_amm.Administration.Orders.do_cancel_amm_orders
    raydium_amm.Liquidity.Withdraw.both_batches raydium_amm.Liquidity.Withdraw.max_len
    raydium_amm.Liquidity.Withdraw.store_pair raydium_amm.Liquidity.Withdraw.store_next
    raydium_amm.Liquidity.Withdraw.store_id raydium_amm.Liquidity.Withdraw.flush
    raydium_amm.Swap.Cancel.cancel_calls raydium_amm.Administration.Orders.settlement
    raydium_amm.Liquidity.Withdraw.store_pairs raydium_amm.Swap.Cancel.set_id
process_admin_cancel_orders-IsCancelled_example =
    process_admin_cancel_orders-IsCancelled admin_runtime cancel_accounts {calls = cancelled} refl
