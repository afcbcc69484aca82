-- ===== src/Liquidity/Withdraw.antt =====
-- `process_withdraw`: pool tokens are burnt, and their part of both tokens is paid out.
pub mod Laws
pub mod Orders
pub mod Live
use raydium_amm.Pnl.{calc_take_pnl, TakenPnl}
use raydium_amm.Prelude.Word
use raydium_amm.Swap.Cancel.{set_id, no_ids, cancel_calls}
use raydium_amm.Math.Decimal.{normalize_decimal_v2}
use raydium_amm.Math.Exchange.{exchange_pool_to_token, RoundDirection}
use raydium_amm.State.Status.{AmmStatus, withdraw_permission, orderbook_permission}
use raydium_amm.Swap.Accounts.{Call, Vault, MarketAccount}
use raydium_amm.State.Loading.{AccountData, load_amm, load_target_orders}
use raydium_amm.Instruction.Types.{WithdrawInstruction}
use raydium_amm.State.Amm.{AmmInfo}
use raydium_amm.State.Orders.{TargetOrders}
use raydium_amm.Uint.{Uint, as_u128}
use raydium_amm.Liquidity.Pool.{
  LiquidityRuntime, Settled, TokenAccounts, LiquidityResult, book_totals, shrunk_pnl, vault_totals,
  unpack_accounts,
}
use raydium_amm.Prelude.{
  some, none, suc, zero, Option, List, ℕ, if◌then◌else◌, Bool, Outcome, ok, ◌>>◌, ltb, leb, ◌==◌,
  ◌>>=◌, length, ◌||◌, ensure, [], ◌++◌, ◌∷◌, unwrap, ◌+◌, ◌&&◌, not, panic, false,
}
use raydium_amm.Errors.{AmmError}
use raydium_amm.State.Status

pub record WithdrawAccounts : Type 0 where
  pub account_len : ℕ
  pub token_program : ℕ
  pub amm_key : ℕ
  pub amm : AccountData AmmInfo
  pub amm_authority : ℕ
  pub amm_open_orders : ℕ
  pub amm_target_orders : ℕ
  pub target_orders : AccountData TargetOrders
  pub amm_lp_mint : ℕ
  pub amm_coin_vault : ℕ
  pub amm_pc_vault : ℕ
  pub market_program : ℕ
  pub market : ℕ
  pub user_source_lp : ℕ
  pub user_dest_coin : ℕ
  pub user_dest_pc : ℕ
  pub source_lp_owner_is_signer : Bool
  pub referrer_pc_wallet : ℕ

-- The referrer's account is checked where it is passed and is not the default key.
unfoldable pub check_referrer : LiquidityRuntime → WithdrawAccounts → Outcome (Unit {0})
check_referrer runtime accounts =
    if (accounts.account_len == 21 || accounts.account_len == 23)
      && not (accounts.referrer_pc_wallet == 0)
    then (do
      token ← runtime.unpack_token_account accounts.referrer_pc_wallet accounts.token_program
      ensure (token.owner == runtime.referrer_id) AmmError.invalid_owner)
    else ok tt

unfoldable pub check_withdraw :
    LiquidityRuntime → WithdrawAccounts → AmmInfo → AmmStatus → Outcome (Unit {0})
check_withdraw runtime accounts amm status = do
  ensure (withdraw_permission status) AmmError.invalid_status
  authority ← runtime.authority_id amm.nonce
  ensure (accounts.amm_authority == authority) AmmError.invalid_program_address
  ensure (accounts.token_program == runtime.spl_token_id) AmmError.invalid_spl_token_program
  ensure
      (accounts.amm_coin_vault == amm.coin_vault && not (accounts.user_dest_coin == amm.coin_vault))
      AmmError.invalid_coin_vault
  ensure (accounts.amm_pc_vault == amm.pc_vault && not (accounts.user_dest_pc == amm.pc_vault))
      AmmError.invalid_pc_vault
  ensure (accounts.amm_target_orders == amm.target_orders) AmmError.invalid_target_orders
  ensure (accounts.amm_lp_mint == amm.lp_mint) AmmError.invalid_pool_mint

-- The pool tokens that are burnt: the user has them, the mint has issued them, and some are left.
unfoldable pub check_burn :
    LiquidityRuntime → WithdrawAccounts → AmmInfo → (amount : ℕ) → Outcome (Unit {0})
check_burn runtime accounts amm amount = do
  supply ← runtime.unpack_mint accounts.amm_lp_mint accounts.token_program
  user_lp ← runtime.unpack_token_account accounts.user_source_lp accounts.token_program
  ensure (user_lp.mint == accounts.amm_lp_mint) AmmError.invalid_token_lp
  ensure (leb amount user_lp.amount) AmmError.insufficient_funds
  ensure (not (ltb supply amount || leb amm.lp_amount amount)) AmmError.not_allow_zero_lp

-- `order_ids[count] = id`, which panics out of range.
unfoldable pub store_id : List ℕ × ℕ → ℕ → Outcome (List ℕ × ℕ)
store_id (order_ids, count) id =
    if ltb count 8 then ok (set_id order_ids count id, count + 1) else panic

-- The loop over the bids and the asks side by side, on `amm_order_ids_vec`, `order_ids` and `count`,
-- and the push of the last array.
unfoldable pub store_next : List ℕ × ℕ → List ℕ → Outcome (List ℕ × ℕ)
store_next slots [] = ok slots
store_next slots (id ∷ ids) = store_id slots id

unfoldable pub flush : List (List ℕ) × List ℕ × ℕ → List (List ℕ) × List ℕ × ℕ
flush (vec, order_ids, count) =
    if count == 8 then (vec ++ (order_ids ∷ []), no_ids, 0) else (vec, order_ids, count)

abbrev pub rest_of : List ℕ → List ℕ
rest_of [] = []
rest_of (id ∷ ids) = ids

-- An iteration of the loop: the next bid and the next ask, where there are any.
unfoldable pub store_pair :
    List (List ℕ) × List ℕ × ℕ → (bids asks : List ℕ) → Outcome (List (List ℕ) × List ℕ × ℕ)
store_pair (vec, order_ids, count) bids asks = do
  (order_ids', count') ← store_next (order_ids, count) bids
  (order_ids'', count'') ← store_next (order_ids', count') asks
  ok (flush (vec, order_ids'', count''))

-- The iterations are as many as the longer of the two lists has orders.
unfoldable pub store_pairs :
    (iterations : ℕ)
    → List (List ℕ) × List ℕ × ℕ
    → (bids asks : List ℕ) → Outcome (List (List ℕ) × List ℕ × ℕ)
store_pairs zero state bids asks = ok state
store_pairs (suc n) state bids asks = do
  state' ← store_pair state bids asks
  store_pairs n state' (rest_of bids) (rest_of asks)

unfoldable pub max_len : List ℕ → List ℕ → ℕ
max_len xs ys = if leb (length xs) (length ys) then length ys else length xs

unfoldable pub both_batches : (bids asks : List ℕ) → Outcome (List (List ℕ))
unfolding store_pairs
both_batches bids asks = do
  (vec, order_ids, count) ← store_pairs (max_len bids asks) ([], no_ids, 0) bids asks
  ok (if count == 0 then vec else vec ++ (order_ids ∷ []))

-- The totals and the calls that cancel the orders and settle what they held.
unfoldable pub withdraw_totals :
    LiquidityRuntime
    → WithdrawAccounts
    → Bool
    → AmmInfo
    → TokenAccounts
    → Outcome ((ℕ × ℕ) × List Call)
withdraw_totals runtime accounts enable_orderbook amm tokens =
    if enable_orderbook
    then (do
      ensure (accounts.market == amm.market) AmmError.invalid_market
      ensure (accounts.market_program == amm.market_program) AmmError.invalid_market_program
      ensure (accounts.amm_open_orders == amm.open_orders) AmmError.invalid_open_orders
      market ← runtime.load_market
      vec ← both_batches market.book.bids market.book.asks
      totals ← book_totals market accounts.amm_open_orders amm tokens
      ok (
        totals,
        cancel_calls vec
            ++ (Call.settle_funds MarketAccount.market_coin_vault MarketAccount.market_pc_vault
                ∷ []),
      ))
    else (do totals ← vault_totals amm tokens; ok (totals, []))

-- What a withdrawal has read when it computes the amounts.
pub record WithdrawPool : Type 0 where
  pub settled : Settled
  pub target_orders : TargetOrders
  pub coin_vault_amount : ℕ
  pub pc_vault_amount : ℕ
  pub book_calls : List Call

-- The minimums count only where both are given.
unfoldable pub below_minimums : Option ℕ → Option ℕ → (coin pc : ℕ) → Bool
below_minimums (some min_coin) (some min_pc) coin pc = ltb coin min_coin || ltb pc min_pc
below_minimums (some min_coin) none coin pc = false
below_minimums none min_pc coin pc = false

unfoldable pub withdraw_calls : (coin pc lp : ℕ) → List Call
withdraw_calls coin pc lp =
    Call.withdraw_from Vault.coin_vault coin
    ∷ Call.withdraw_from Vault.pc_vault pc
    ∷ Call.burn_lp lp
    ∷ []

module _ ⦃uint : Uint⦄ where
  -- No profit is taken from a pool that can only be withdrawn from.
  unfoldable pub take_unless_withdraw_only :
      TargetOrders → AmmInfo → (pc coin x1 y1 : ℕ) → Outcome TakenPnl
  take_unless_withdraw_only target amm pc coin x1 y1 =
      if not (amm.status == Status.into_u64 AmmStatus.withdraw_only)
      then (do x1' ← as_u128 x1; y1' ← as_u128 y1; calc_take_pnl target amm pc coin x1' y1')
      else ok (record {
        amm = amm;
        total_pc_without_take_pnl = pc;
        total_coin_without_take_pnl = coin;
        delta_x = 0;
        delta_y = 0;
      })

  unfoldable pub settle_withdraw : TargetOrders → AmmInfo → ℕ × ℕ → Outcome Settled
  settle_withdraw target amm (pc, coin) = do
    x1 ← normalize_decimal_v2 pc amm.pc_decimals amm.sys_decimal_value
    y1 ← normalize_decimal_v2 coin amm.coin_decimals amm.sys_decimal_value
    taken ← take_unless_withdraw_only target amm pc coin x1 y1
    ok (record { x1 = x1; y1 = y1; taken = taken })

  unfoldable pub prepare_withdraw :
      LiquidityRuntime → WithdrawAccounts → WithdrawInstruction → Outcome WithdrawPool
  prepare_withdraw runtime accounts withdraw = do
    ensure (leb 20 accounts.account_len && leb accounts.account_len 23)
        AmmError.wrong_accounts_number
    check_referrer runtime accounts
    ensure accounts.source_lp_owner_is_signer AmmError.invalid_sign_account
    amm ← load_amm accounts.amm
    target ← load_target_orders accounts.target_orders accounts.amm_key
    status ← Status.from_u64 amm.status
    check_withdraw runtime accounts amm status
    tokens ←
        unpack_accounts runtime accounts.token_program accounts.amm_coin_vault accounts.amm_pc_vault
          accounts.user_dest_coin accounts.user_dest_pc
    check_burn runtime accounts amm withdraw.amount
    (totals, book_calls) ← withdraw_totals runtime accounts (orderbook_permission status) amm tokens
    settled ← settle_withdraw target amm totals
    ok (record {
      settled = settled;
      target_orders = target;
      coin_vault_amount = tokens.coin_vault.amount;
      pc_vault_amount = tokens.pc_vault.amount;
      book_calls = book_calls;
    })

  -- The account of the pool and the plan after the transfers.
  unfoldable pub withdraw_state :
      LiquidityRuntime
      → Settled
      → TargetOrders
      → (coin pc lp : ℕ) → Outcome (AmmInfo × TargetOrders)
  withdraw_state runtime settled target coin pc lp = do
    lp_amount ← unwrap (Word.checked_sub settled.taken.amm.lp_amount lp)
    calc_pnl_x ←
        shrunk_pnl settled.x1 pc settled.taken.amm.pc_decimals settled.taken.amm.sys_decimal_value
          settled.taken.delta_x
    calc_pnl_y ←
        shrunk_pnl settled.y1 coin settled.taken.amm.coin_decimals
          settled.taken.amm.sys_decimal_value settled.taken.delta_y
    recent_epoch ← runtime.epoch
    ok (
      record (settled.taken.amm) { lp_amount = lp_amount; recent_epoch = recent_epoch },
      record target { calc_pnl_x = calc_pnl_x; calc_pnl_y = calc_pnl_y },
    )

  unfoldable pub finish_withdraw :
      LiquidityRuntime → WithdrawPool → WithdrawInstruction → Outcome LiquidityResult
  finish_withdraw runtime p withdraw = do
    coin ←
        exchange_pool_to_token
          (record { token_input = withdraw.amount; token_total = p.settled.taken.amm.lp_amount })
          p.settled.taken.total_coin_without_take_pnl RoundDirection.floor
    pc ←
        exchange_pool_to_token
          (record { token_input = withdraw.amount; token_total = p.settled.taken.amm.lp_amount })
          p.settled.taken.total_pc_without_take_pnl RoundDirection.floor
    ensure (not (withdraw.amount == 0 || coin == 0 || pc == 0)) AmmError.invalid_input
    ensure (ltb coin p.coin_vault_amount && ltb pc p.pc_vault_amount) AmmError.take_pnl_error
    ensure (not (below_minimums withdraw.min_coin_amount withdraw.min_pc_amount coin pc))
        AmmError.exceeded_slippage
    (amm, target) ← withdraw_state runtime p.settled p.target_orders coin pc withdraw.amount
    ok (record {
      amm = amm;
      target_orders = target;
      calls = p.book_calls ++ withdraw_calls coin pc withdraw.amount;
    })

  unfoldable pub process_withdraw :
      LiquidityRuntime → WithdrawAccounts → WithdrawInstruction → Outcome LiquidityResult
  process_withdraw runtime accounts withdraw = do
    p ← prepare_withdraw runtime accounts withdraw
    finish_withdraw runtime p withdraw
