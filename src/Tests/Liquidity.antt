-- ===== src/Tests/Liquidity.antt =====
-- A deposit, a withdrawal and a withdrawal of the profit, with a pool that holds 1,000,000 pc and
-- 2,000,000 coin, has 1,000 pool tokens and does not use the order book.
use raydium_amm.Liquidity.Withdraw.Live.{withdraw_only_pays}
use raydium_amm.Liquidity.Withdraw.Orders.{interleave, both_batches-Batches}
use raydium_amm.Swap.Cancel.Laws.{Batches}
use raydium_amm.Liquidity.Ready.{process_withdraw-lp}
use raydium_amm.Liquidity.Withdraw.Laws.{IsWithdraw, finish_withdraw-IsWithdraw}
use raydium_amm.Liquidity.WithdrawPnl.Laws.{IsPaid, finish_withdrawpnl-IsPaid}
use raydium_amm.State.Loading.{load_amm}
use raydium_amm.Liquidity.Withdraw.{
  process_withdraw, WithdrawPool, WithdrawAccounts, prepare_withdraw, finish_withdraw, both_batches,
  settle_withdraw,
}
use raydium_amm.Liquidity.WithdrawPnl.{PnlPool, finish_withdrawpnl}
use raydium_amm.State.Amm.{AmmInfo}
use raydium_amm.Swap.Accounts.{Call, TokenAccount, Vault}
use raydium_amm.Tests.Pnl.{target}
use raydium_amm.Tests.State.{pool, pool_data}
use raydium_amm.Uint.Reference.{reference}
use raydium_amm.Liquidity.Deposit.Laws.{IsDeposit, finish_deposit-IsDeposit}
use raydium_amm.State.Orders.{TargetOrders}
use raydium_amm.Liquidity.Deposit.{
  prepare_deposit, DepositPool, finish_deposit, DepositAccounts, process_deposit,
}
use raydium_amm.Liquidity.Pool.{LiquidityRuntime, LiquidityResult, Settled, settle}
use raydium_amm.Instruction.Types.{DepositInstruction, WithdrawInstruction}
use raydium_amm.Liquidity.Fit.{HasWords}
use raydium_amm.Prelude.{
  ◌>>=◌, some, true, [], ◌∷◌, ℕ, ok, Outcome, ◌≡◌, err, if◌then◌else◌, arith, refl, ◌==◌, List, ◌+◌,
  ◌<◌, Bool-cases, inl, of_ok, inr, none,
}
use raydium_amm.Errors.{AmmError, custom}

abbrev holding : (mint amount : ℕ) → Outcome TokenAccount
holding mint amount = ok (record { mint = mint; owner = 30; amount = amount })

-- The vaults have the keys 1 and 2, the user's accounts 11 (coin), 12 (pc) and 13 (pool tokens).
abbrev pub token_account : ℕ → ℕ → Outcome TokenAccount
token_account account token_program =
    if account == 1
    then holding 3 2000000
    else if account == 2
    then holding 4 1000000
    else if account == 11
    then holding 3 3000000
    else if account == 12
    then holding 4 3000000
    else holding 5 500

abbrev pub runtime : LiquidityRuntime
runtime = record {
  spl_token_id = 20;
  authority_id = λ nonce. ok 21;
  unpack_token_account = token_account;
  unpack_mint = λ account token_program. ok 1000;
  load_market = err (custom AmmError.invalid_market);
  epoch = ok 600;
  config_address = 50;
  amm_owner_id = 51;
  referrer_id = 52;
}

abbrev pub plan : TargetOrders
plan = record target { owner = 40; calc_pnl_x = 1000000; calc_pnl_y = 2000000 }

abbrev pub deposit_accounts : DepositAccounts
deposit_accounts = record {
  account_len = 14;
  token_program = 20;
  amm_key = 40;
  amm = record { owner_is_program = true; len_is_size = true; contents = ok pool };
  amm_authority = 21;
  amm_open_orders = 6;
  amm_target_orders = 9;
  target_orders = record { owner_is_program = true; len_is_size = true; contents = ok plan };
  amm_lp_mint = 5;
  amm_coin_vault = 1;
  amm_pc_vault = 2;
  market = 7;
  user_source_coin = 11;
  user_source_pc = 12;
  source_owner_is_signer = true;
}

abbrev pub deposit : DepositInstruction
deposit = record {
  max_coin_amount = 200000;
  max_pc_amount = 150000;
  base_side = 0;
  other_amount_min = some 90000;
}

abbrev pub untouched : Settled
untouched = record {
  x1 = 1000000;
  y1 = 2000000;
  taken = record {
    amm = pool;
    total_pc_without_take_pnl = 1000000;
    total_coin_without_take_pnl = 2000000;
    delta_x = 0;
    delta_y = 0;
  };
}

abbrev pub deposit_pool : DepositPool
deposit_pool = record {
  settled = untouched;
  target_orders = plan;
  user_coin_amount = 3000000;
  user_pc_amount = 3000000;
}

abbrev pub deposited_result : LiquidityResult
deposited_result = record {
  amm = record pool { lp_amount = 1100; recent_epoch = 600 };
  target_orders = record plan { calc_pnl_x = 1100000; calc_pnl_y = 2200000 };
  calls =
      Call.deposit_to Vault.coin_vault 200000
      ∷ Call.deposit_to Vault.pc_vault 100000
      ∷ Call.mint_lp 100
      ∷ [];
}

pub deposit_prepares :
    prepare_deposit ⦃uint = reference⦄ runtime deposit_accounts deposit ≡ ok deposit_pool
unfolding prepare_deposit ◌>>=◌ raydium_amm.State.Loading.load_amm raydium_amm.State.Status.from_u64
    raydium_amm.Liquidity.Deposit.check_deposit raydium_amm.State.Status.deposit_permission
    raydium_amm.Liquidity.Pool.unpack_accounts raydium_amm.State.Loading.load_target_orders
    raydium_amm.Liquidity.Deposit.deposit_totals raydium_amm.State.Status.orderbook_permission
    raydium_amm.Liquidity.Pool.vault_totals
    raydium_amm.Swap.Prepare.calc_total_without_take_pnl_no_orderbook
    raydium_amm.Liquidity.Pool.settle raydium_amm.Math.Decimal.normalize_decimal_v2
    raydium_amm.Pnl.calc_take_pnl raydium_amm.Math.Decimal.restore_decimal raydium_amm.Pnl.take_pnl
    raydium_amm.Math.Decimal.calc_x_power raydium_amm.Liquidity.Pool.book_totals
    raydium_amm.Liquidity.Pool.check_mints raydium_amm.Pnl.pnl_share raydium_amm.Pnl.save_pnl
    raydium_amm.Pnl.settle_pnl raydium_amm.Swap.Prepare.apply_event
    raydium_amm.Swap.Prepare.calc_exact_vault_in_serum
    raydium_amm.Swap.Prepare.calc_total_without_take_pnl raydium_amm.Uint.Reference.isqrt
deposit_prepares = refl

pub deposit_finishes :
    finish_deposit ⦃uint = reference⦄ runtime deposit_pool deposit ≡ ok deposited_result
unfolding finish_deposit ◌>>=◌ raydium_amm.Liquidity.Deposit.quote_deposit
    raydium_amm.Math.Exchange.exchange_coin_to_pc raydium_amm.Math.CeilDiv.checked_ceil_div
    raydium_amm.Liquidity.Deposit.above_minimum raydium_amm.Math.Exchange.exchange_token_to_pool
    raydium_amm.Liquidity.Deposit.deposit_state raydium_amm.Liquidity.Pool.grown_pnl
    raydium_amm.Math.Decimal.normalize_decimal_v2 raydium_amm.Liquidity.Deposit.deposit_calls
deposit_finishes = refl

finish_deposit-IsDeposit_example : IsDeposit deposit_pool deposit deposited_result
finish_deposit-IsDeposit_example =
    finish_deposit-IsDeposit ⦃uint = reference⦄ runtime deposit_pool deposit {r = deposited_result}
      (omega arith) (omega arith) (omega arith) (omega arith) deposit_finishes

pub deposit_runs :
    process_deposit ⦃uint = reference⦄ runtime deposit_accounts deposit ≡ ok deposited_result
unfolding process_deposit ◌>>=◌
deposit_runs = rw deposit_prepares deposit_finishes

abbrev pub withdraw_accounts : WithdrawAccounts
withdraw_accounts = record {
  account_len = 20;
  token_program = 20;
  amm_key = 40;
  amm = record { owner_is_program = true; len_is_size = true; contents = ok pool };
  amm_authority = 21;
  amm_open_orders = 6;
  amm_target_orders = 9;
  target_orders = record { owner_is_program = true; len_is_size = true; contents = ok plan };
  amm_lp_mint = 5;
  amm_coin_vault = 1;
  amm_pc_vault = 2;
  market_program = 8;
  market = 7;
  user_source_lp = 13;
  user_dest_coin = 11;
  user_dest_pc = 12;
  source_lp_owner_is_signer = true;
  referrer_pc_wallet = 0;
}

abbrev pub withdraw : WithdrawInstruction
withdraw = record { amount = 100; min_coin_amount = some 200000; min_pc_amount = some 100000 }

abbrev pub withdraw_pool : WithdrawPool
withdraw_pool = record {
  settled = untouched;
  target_orders = plan;
  coin_vault_amount = 2000000;
  pc_vault_amount = 1000000;
  book_calls = [];
}

abbrev pub withdrawn_result : LiquidityResult
withdrawn_result = record {
  amm = record pool { lp_amount = 900; recent_epoch = 600 };
  target_orders = record plan { calc_pnl_x = 900000; calc_pnl_y = 1800000 };
  calls =
      Call.withdraw_from Vault.coin_vault 200000
      ∷ Call.withdraw_from Vault.pc_vault 100000
      ∷ Call.burn_lp 100
      ∷ [];
}

pub withdraw_prepares :
    prepare_withdraw ⦃uint = reference⦄ runtime withdraw_accounts withdraw ≡ ok withdraw_pool
unfolding prepare_withdraw ◌>>=◌ raydium_amm.State.Loading.load_amm
    raydium_amm.State.Status.from_u64 raydium_amm.State.Status.deposit_permission
    raydium_amm.Liquidity.Pool.unpack_accounts raydium_amm.State.Loading.load_target_orders
    raydium_amm.State.Status.orderbook_permission raydium_amm.Liquidity.Pool.vault_totals
    raydium_amm.Swap.Prepare.calc_total_without_take_pnl_no_orderbook
    raydium_amm.Liquidity.Pool.settle raydium_amm.Math.Decimal.normalize_decimal_v2
    raydium_amm.Pnl.calc_take_pnl raydium_amm.Math.Decimal.restore_decimal raydium_amm.Pnl.take_pnl
    raydium_amm.Math.Decimal.calc_x_power raydium_amm.Liquidity.Pool.book_totals
    raydium_amm.Liquidity.Pool.check_mints raydium_amm.Pnl.pnl_share raydium_amm.Pnl.save_pnl
    raydium_amm.Pnl.settle_pnl raydium_amm.Swap.Prepare.apply_event
    raydium_amm.Swap.Prepare.calc_exact_vault_in_serum
    raydium_amm.Swap.Prepare.calc_total_without_take_pnl raydium_amm.Uint.Reference.isqrt
    raydium_amm.Liquidity.Withdraw.check_referrer raydium_amm.Liquidity.Withdraw.check_withdraw
    raydium_amm.Liquidity.Withdraw.check_burn raydium_amm.Liquidity.Withdraw.withdraw_totals
    raydium_amm.Liquidity.Withdraw.settle_withdraw
    raydium_amm.Liquidity.Withdraw.take_unless_withdraw_only
    raydium_amm.State.Status.withdraw_permission raydium_amm.State.Status.into_u64
withdraw_prepares = refl

pub withdraw_finishes :
    finish_withdraw ⦃uint = reference⦄ runtime withdraw_pool withdraw ≡ ok withdrawn_result
unfolding finish_withdraw ◌>>=◌ raydium_amm.Math.Exchange.exchange_pool_to_token
    raydium_amm.Liquidity.Withdraw.below_minimums raydium_amm.Liquidity.Withdraw.withdraw_state
    raydium_amm.Liquidity.Pool.shrunk_pnl raydium_amm.Math.Decimal.normalize_decimal_v2
    raydium_amm.Liquidity.Withdraw.withdraw_calls
withdraw_finishes = refl

pub withdraw_runs :
    process_withdraw ⦃uint = reference⦄ runtime withdraw_accounts withdraw ≡ ok withdrawn_result
unfolding process_withdraw ◌>>=◌
withdraw_runs = rw withdraw_prepares withdraw_finishes

finish_withdraw-IsWithdraw_example : IsWithdraw withdraw_pool withdraw withdrawn_result
finish_withdraw-IsWithdraw_example =
    finish_withdraw-IsWithdraw ⦃uint = reference⦄ runtime withdraw_pool withdraw
      {r = withdrawn_result} (omega arith) (omega arith) (omega arith) withdraw_finishes

-- The amounts of the accounts are 64-bit numbers.
pub runtime-HasWords : HasWords runtime
runtime-HasWords account token_program = elim (Bool-cases (account == 1)) [
  | inl h ↦ rw h (of_ok (omega arith))
  | inr h ↦ rw h (elim (Bool-cases (account == 2)) [
    | inl h ↦ rw h (of_ok (omega arith))
    | inr h ↦ rw h (elim (Bool-cases (account == 11)) [
      | inl h ↦ rw h (of_ok (omega arith))
      | inr h ↦ rw h (elim (Bool-cases (account == 12)) [
        | inl h ↦ rw h (of_ok (omega arith))
        | inr h ↦ rw h (of_ok (omega arith))
      ])
    ])
  ])
]

pub pool_loads :
    load_amm (record { owner_is_program = true; len_is_size = true; contents = ok pool }) ≡ ok pool
unfolding load_amm ◌>>=◌
pool_loads = refl

process_withdraw-lp_example : (900 + 100 ≡ 1000) × (0 < 900)
process_withdraw-lp_example =
    process_withdraw-lp ⦃uint = reference⦄ runtime withdraw_accounts withdraw pool
      {r = withdrawn_result} runtime-HasWords (omega arith) pool_loads withdraw_runs

both_batches-Batches_example :
    (vec : List (List ℕ)) × (both_batches (1 ∷ 2 ∷ []) (3 ∷ []) ≡ ok vec)
    × Batches (interleave (1 ∷ 2 ∷ []) (3 ∷ [])) vec
both_batches-Batches_example = both_batches-Batches (1 ∷ 2 ∷ []) (3 ∷ [])

-- A pool that owes its owner 500 pc and 700 coin.
abbrev indebted : AmmInfo
indebted = record pool {
  state_data = record pool_data { need_take_pnl_pc = 500; need_take_pnl_coin = 700 };
}

abbrev paid_plan : TargetOrders
paid_plan = record plan { calc_pnl_x = 999500; calc_pnl_y = 1999300 }

abbrev pnl_pool : PnlPool
pnl_pool = record {
  settled = record {
    x1 = 999500;
    y1 = 1999300;
    taken = record {
      amm = indebted;
      total_pc_without_take_pnl = 999500;
      total_coin_without_take_pnl = 1999300;
      delta_x = 0;
      delta_y = 0;
    };
  };
  target_orders = paid_plan;
  coin_vault_amount = 2000000;
  pc_vault_amount = 1000000;
}

abbrev paid_result : LiquidityResult
paid_result = record {
  amm = record pool { recent_epoch = 600 };
  target_orders = paid_plan;
  calls = Call.withdraw_from Vault.coin_vault 700 ∷ Call.withdraw_from Vault.pc_vault 500 ∷ [];
}

pnl_settles : settle ⦃uint = reference⦄ paid_plan indebted (999500, 1999300) ≡ ok pnl_pool.settled
unfolding settle ◌>>=◌ raydium_amm.Math.Decimal.normalize_decimal_v2 raydium_amm.Pnl.calc_take_pnl
    raydium_amm.Math.Decimal.restore_decimal raydium_amm.Pnl.take_pnl
    raydium_amm.Math.Decimal.calc_x_power raydium_amm.Uint.Reference.isqrt raydium_amm.Pnl.pnl_share
    raydium_amm.Pnl.settle_pnl
pnl_settles = refl

finish_withdrawpnl-IsPaid_example : IsPaid pnl_pool indebted (0, 0) paid_result
unfolding finish_withdrawpnl ◌>>=◌ raydium_amm.Liquidity.WithdrawPnl.pnl_calls
finish_withdrawpnl-IsPaid_example =
    finish_withdrawpnl-IsPaid ⦃uint = reference⦄ runtime pnl_pool indebted (0, 0) (999500, 1999300)
      {r = paid_result} (refl, refl, omega arith, omega arith) pnl_settles refl

abbrev closing : AmmInfo
closing = record pool { status = 3 }

withdraw_only_pays_example :
    (settled : Settled) × (r : LiquidityResult) × (settle_withdraw ⦃uint = reference⦄ plan closing
        (1000000, 2000000)
      ≡ ok settled)
    × (finish_withdraw ⦃uint = reference⦄ runtime
          (record {
            settled = settled;
            target_orders = plan;
            coin_vault_amount = 2000000;
            pc_vault_amount = 1000000;
            book_calls = [];
          })
          (record { amount = 1; min_coin_amount = none; min_pc_amount = none })
        ≡ ok r)
withdraw_only_pays_example =
    withdraw_only_pays ⦃uint = reference⦄ runtime plan closing 1000000 2000000 2000000 1000000 600
      [] (record { amount = 1; min_coin_amount = none; min_pc_amount = none }) refl
      (omega arith, omega arith) (omega arith, omega arith, omega arith) (omega arith) (omega arith)
      (omega arith) (omega arith) (omega arith) (omega arith) (omega arith) refl refl
