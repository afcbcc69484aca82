-- ===== src/Tests/Swap.antt =====
-- Swaps with a pool that holds 1,000,000 pc and 2,000,000 coin and does not use the order book.
use raydium_amm.Instruction.Types.{SwapInstructionBaseIn, SwapInstructionBaseOut}
use raydium_amm.Swap.BaseIn.{process_swap_base_in}
use raydium_amm.Swap.BaseOut.{process_swap_base_out}
use raydium_amm.Swap.Cancel.{order_id_batches}
use raydium_amm.Swap.Cancel.Laws.{Batches, order_id_batches-Batches}
use raydium_amm.Swap.Totals.{
  IsTraded, calc_total_without_take_pnl-IsTraded, calc_total_without_take_pnl-no_orderbook,
}
use raydium_amm.Swap.Prepare.{
  calc_total_without_take_pnl, calc_total_without_take_pnl_no_orderbook, calc_exact_vault_in_serum,
  apply_event,
}
use raydium_amm.Swap.Accounts.{OrderBook, Event, Side}
use raydium_amm.Prelude.{
  ℕ, ◌≡◌, refl, true, [], ◌∷◌, ok, err, arith, Outcome, ◌==◌, if◌then◌else◌, false, ◌>>=◌,
}
use raydium_amm.Errors.{AmmError, custom}
use raydium_amm.Uint.Reference.{reference}
use raydium_amm.State.Amm.{AmmInfo}
use raydium_amm.Math.Swap.{SwapDirection}
use raydium_amm.Swap.Accounts.{Runtime, SwapAccounts, TokenAccount, Vault, Call, SwapResult}
use raydium_amm.Swap.Prepare.{Prepared, prepare_swap, open_for_swap}
use raydium_amm.Swap.Gate.{IsTradable, trading_status, open_for_swap-IsTradable}
use raydium_amm.Swap.BaseIn.Laws.{IsBaseIn, process_swap_base_in-IsBaseIn}
use raydium_amm.Swap.BaseOut.Laws.{IsBaseOut, process_swap_base_out-IsBaseOut}
use raydium_amm.Tests.State.{pool, pool_data}

-- The vaults have the keys 1 and 2; every other account is one of the user's, with the other mint.
abbrev token_account : ℕ → Outcome TokenAccount
token_account n =
    if n == 1
    then ok (record { mint = 3; owner = 30; amount = 2000000 })
    else if n == 2
    then ok (record { mint = 4; owner = 30; amount = 1000000 })
    else if n == 11
    then ok (record { mint = 3; owner = 30; amount = 50000 })
    else ok (record { mint = 4; owner = 30; amount = 50000 })

abbrev runtime : Runtime
runtime = record {
  spl_token_id = 20;
  authority_id = λ nonce. ok 21;
  unpack_token_account = token_account;
  unix_timestamp = ok 1700000000;
  epoch = ok 600;
  load_order_book = err (custom AmmError.invalid_market);
}

abbrev accounts : SwapAccounts
accounts = record {
  account_len = 18;
  amm = record { owner_is_program = true; len_is_size = true; contents = ok pool };
  token_program = 20;
  amm_authority = 21;
  amm_open_orders = 6;
  amm_coin_vault = 1;
  amm_pc_vault = 2;
  market_program = 8;
  market = 7;
  user_source = 11;
  user_destination = 12;
  user_is_signer = true;
}

abbrev sold : SwapResult
sold = record {
  amm = record pool {
    recent_epoch = 600;
    state_data = record pool_data {
      swap_coin_in_amount = 10000;
      swap_pc_out_amount = 4962;
      swap_acc_coin_fee = 25;
    };
  };
  calls = Call.deposit_to Vault.coin_vault 10000 ∷ Call.withdraw_from Vault.pc_vault 4962 ∷ [];
}

abbrev sell : SwapInstructionBaseIn
sell = record { amount_in = 10000; minimum_amount_out = 4900 }

sell_runs : process_swap_base_in ⦃uint = reference⦄ runtime accounts sell ≡ ok sold
unfolding prepare_swap raydium_amm.State.Loading.load_amm raydium_amm.State.Status.from_u64
    raydium_amm.State.Status.into_u64 raydium_amm.Swap.Prepare.check_keys open_for_swap
    raydium_amm.State.Status.swap_permission raydium_amm.State.Status.orderbook_permission
    raydium_amm.Swap.Prepare.load_totals
    raydium_amm.Swap.Prepare.calc_total_without_take_pnl_no_orderbook
    raydium_amm.Swap.Prepare.find_direction ◌>>=◌ process_swap_base_in
    raydium_amm.Swap.BaseIn.finish_base_in raydium_amm.Swap.BaseIn.quote_base_in
    raydium_amm.Math.CeilDiv.checked_ceil_div raydium_amm.Math.Swap.swap_token_amount_base_in
    raydium_amm.Swap.BaseIn.base_in_book_calls raydium_amm.Swap.BaseIn.base_in_state
    raydium_amm.Swap.BaseIn.total_out raydium_amm.Swap.BaseIn.transfer_calls
sell_runs = refl

process_swap_base_in_example :
    (p : Prepared) × (prepare_swap runtime accounts ≡ ok p) × IsBaseIn p sell sold
process_swap_base_in_example =
    process_swap_base_in-IsBaseIn ⦃uint = reference⦄ runtime accounts sell {r = sold} sell_runs

abbrev prepared : Prepared
prepared = record {
  amm = pool;
  enable_orderbook = false;
  coin_vault_amount = 2000000;
  pc_vault_amount = 1000000;
  user_source_amount = 50000;
  total_pc_without_take_pnl = 1000000;
  total_coin_without_take_pnl = 2000000;
  bids = [];
  asks = [];
  swap_direction = SwapDirection.coin_to_pc;
}

abbrev bought : SwapResult
bought = record {
  amm = record pool {
    recent_epoch = 600;
    state_data = record pool_data {
      swap_coin_in_amount = 10077;
      swap_pc_out_amount = 5000;
      swap_acc_coin_fee = 26;
    };
  };
  calls = Call.deposit_to Vault.coin_vault 10077 ∷ Call.withdraw_from Vault.pc_vault 5000 ∷ [];
}

abbrev buy : SwapInstructionBaseOut
buy = record { max_amount_in = 11000; amount_out = 5000 }

preparation_runs : prepare_swap runtime accounts ≡ ok prepared
unfolding prepare_swap raydium_amm.State.Loading.load_amm raydium_amm.State.Status.from_u64
    raydium_amm.State.Status.into_u64 raydium_amm.Swap.Prepare.check_keys open_for_swap
    raydium_amm.State.Status.swap_permission raydium_amm.State.Status.orderbook_permission
    raydium_amm.Swap.Prepare.load_totals
    raydium_amm.Swap.Prepare.calc_total_without_take_pnl_no_orderbook
    raydium_amm.Swap.Prepare.find_direction ◌>>=◌
preparation_runs = refl

buy_runs : process_swap_base_out ⦃uint = reference⦄ runtime accounts buy ≡ ok bought
unfolding prepare_swap raydium_amm.State.Loading.load_amm raydium_amm.State.Status.from_u64
    raydium_amm.State.Status.into_u64 raydium_amm.Swap.Prepare.check_keys open_for_swap
    raydium_amm.State.Status.swap_permission raydium_amm.State.Status.orderbook_permission
    raydium_amm.Swap.Prepare.load_totals
    raydium_amm.Swap.Prepare.calc_total_without_take_pnl_no_orderbook
    raydium_amm.Swap.Prepare.find_direction ◌>>=◌ process_swap_base_out
    raydium_amm.Swap.BaseOut.finish_base_out raydium_amm.Swap.BaseOut.quote_base_out
    raydium_amm.Math.CeilDiv.checked_ceil_div raydium_amm.Math.Swap.swap_token_amount_base_out
    raydium_amm.Swap.BaseOut.base_out_book_calls raydium_amm.Swap.BaseOut.base_out_state
    raydium_amm.Swap.BaseIn.total_out raydium_amm.Swap.BaseIn.transfer_calls
    raydium_amm.Math.Decimal.to_u128
buy_runs = refl

process_swap_base_out_example : IsBaseOut prepared buy bought
process_swap_base_out_example =
    process_swap_base_out-IsBaseOut ⦃uint = reference⦄ runtime accounts buy prepared {r = bought}
      preparation_runs (omega arith) (omega arith) buy_runs

abbrev waiting : AmmInfo
waiting = record pool { status = 7 }

open_for_swap_example :
    (IsTradable 5 waiting
      → open_for_swap (ok 5) waiting
        ≡ ok (record waiting { status = trading_status waiting.status }))
    × (¬ IsTradable 5 waiting → open_for_swap (ok 5) waiting ≡ err (custom AmmError.invalid_status))
open_for_swap_example = open_for_swap-IsTradable 5 waiting (omega arith)

order_id_batches_example :
    Batches
      (1 ∷ 2 ∷ 3 ∷ 4 ∷ 5 ∷ 6 ∷ 7 ∷ 8 ∷ 9 ∷ [])
      (order_id_batches (1 ∷ 2 ∷ 3 ∷ 4 ∷ 5 ∷ 6 ∷ 7 ∷ 8 ∷ 9 ∷ []))
order_id_batches_example = order_id_batches-Batches (1 ∷ 2 ∷ 3 ∷ 4 ∷ 5 ∷ 6 ∷ 7 ∷ 8 ∷ 9 ∷ [])

-- An order book with a bid of the pool that was filled: 40 pc were paid for 90 coin.
abbrev book : OrderBook
book = record {
  native_pc_total = 100;
  native_coin_total = 200;
  events = Event.fill 6 Side.bid true 40 90 ∷ Event.other ∷ Event.fill 5 Side.bid true 1 1 ∷ [];
  bids = [];
  asks = [];
}

calc_total_without_take_pnl_example : IsTraded 1000 2000 6 book pool (1060, 2290)
unfolding calc_total_without_take_pnl calc_exact_vault_in_serum apply_event ◌>>=◌
calc_total_without_take_pnl_example =
    calc_total_without_take_pnl-IsTraded 1000 2000 6 book pool {totals = (1060, 2290)} refl

no_orderbook_example :
    calc_total_without_take_pnl 1000 2000
      (record { native_pc_total = 0; native_coin_total = 0; events = []; bids = []; asks = [] })
      6
      pool
    ≡ calc_total_without_take_pnl_no_orderbook 1000 2000 pool
no_orderbook_example =
    calc_total_without_take_pnl-no_orderbook 1000 2000 6 [] [] pool (omega arith) (omega arith)
