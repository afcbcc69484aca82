-- ===== src/Liquidity/Pool.antt =====
-- What deposit, withdraw and the withdrawal of the profit share: what they read, the totals of the
-- pool, the profit, and the normalised amounts of which the next profit is computed.
use raydium_amm.State.Orders.{TargetOrders}
use raydium_amm.Math.Decimal.{normalize_decimal_v2}
use raydium_amm.Swap.Prepare.{calc_total_without_take_pnl_no_orderbook, calc_total_without_take_pnl}
use raydium_amm.State.Amm.{AmmInfo}
use raydium_amm.Pnl.{TakenPnl, calc_take_pnl}
use raydium_amm.Uint.{Uint, add128, as_u128, sub128}
use raydium_amm.Swap.Accounts.{TokenAccount, OrderBook, Call}
use raydium_amm.Prelude.{ℕ, List, Outcome, ◌==◌, ◌&&◌, ◌>>=◌, ◌>>◌, ok, ensure}
use raydium_amm.Errors.{AmmError}

-- What `load_serum_market_order` and the orders of the pool give.
pub record Market : Type 0 where
  pub coin_mint : ℕ
  pub pc_mint : ℕ
  pub book : OrderBook

-- The answers of the runtime and of the other programs. A token account is unpacked with the key of the
-- token program that is passed; `unpack_mint` gives the supply. `amm_owner_id` and `referrer_id` are keys that the build chooses
-- (`config_feature`).
pub record LiquidityRuntime : Type 0 where
  pub spl_token_id : ℕ
  pub authority_id : ℕ → Outcome ℕ
  pub unpack_token_account : (account token_program : ℕ) → Outcome TokenAccount
  pub unpack_mint : (account token_program : ℕ) → Outcome ℕ
  pub load_market : Outcome Market
  pub epoch : Outcome ℕ
  pub config_address : ℕ
  pub amm_owner_id : ℕ
  pub referrer_id : ℕ

pub record LiquidityResult : Type 0 where
  pub amm : AmmInfo
  pub target_orders : TargetOrders
  pub calls : List Call

-- The four token accounts that are read.
pub record TokenAccounts : Type 0 where
  pub coin_vault : TokenAccount
  pub pc_vault : TokenAccount
  pub user_coin : TokenAccount
  pub user_pc : TokenAccount

unfoldable pub unpack_accounts :
    LiquidityRuntime
    → (token_program coin_vault pc_vault user_coin user_pc : ℕ) → Outcome TokenAccounts
unpack_accounts runtime token_program coin_vault pc_vault user_coin user_pc = do
  coin_vault' ← runtime.unpack_token_account coin_vault token_program
  pc_vault' ← runtime.unpack_token_account pc_vault token_program
  user_coin' ← runtime.unpack_token_account user_coin token_program
  user_pc' ← runtime.unpack_token_account user_pc token_program
  ok (record {
    coin_vault = coin_vault';
    pc_vault = pc_vault';
    user_coin = user_coin';
    user_pc = user_pc';
  })

-- The mints of the market are those of the vaults and of the user's accounts.
unfoldable pub check_mints : Market → TokenAccounts → Outcome (Unit {0})
check_mints market tokens = do
  ensure (market.coin_mint == tokens.coin_vault.mint && market.coin_mint == tokens.user_coin.mint)
      AmmError.invalid_coin_mint
  ensure (market.pc_mint == tokens.pc_vault.mint && market.pc_mint == tokens.user_pc.mint)
      AmmError.invalid_pc_mint

-- The totals, with the order book and without it.
unfoldable pub book_totals :
    Market → (amm_open_orders : ℕ) → AmmInfo → TokenAccounts → Outcome (ℕ × ℕ)
book_totals market amm_open_orders amm tokens = do
  check_mints market tokens
  calc_total_without_take_pnl tokens.pc_vault.amount tokens.coin_vault.amount market.book
      amm_open_orders amm

unfoldable pub vault_totals : AmmInfo → TokenAccounts → Outcome (ℕ × ℕ)
vault_totals amm tokens =
    calc_total_without_take_pnl_no_orderbook tokens.pc_vault.amount tokens.coin_vault.amount amm

-- The normalised totals, and the pool once the owner's share of the profit has left them.
pub record Settled : Type 0 where
  pub x1 : ℕ
  pub y1 : ℕ
  pub taken : TakenPnl

module _ ⦃uint : Uint⦄ where
  unfoldable pub settle : TargetOrders → AmmInfo → ℕ × ℕ → Outcome Settled
  settle target amm (pc, coin) = do
    x1 ← normalize_decimal_v2 pc amm.pc_decimals amm.sys_decimal_value
    y1 ← normalize_decimal_v2 coin amm.coin_decimals amm.sys_decimal_value
    x1' ← as_u128 x1
    y1' ← as_u128 y1
    taken ← calc_take_pnl target amm pc coin x1' y1'
    ok (record { x1 = x1; y1 = y1; taken = taken })

  -- `x1 + amount - delta` and `x1 - amount - delta`, with the amount normalised.
  unfoldable pub grown_pnl : (value amount decimals scale delta : ℕ) → Outcome ℕ
  grown_pnl value amount decimals scale delta = do
    normalized ← normalize_decimal_v2 amount decimals scale
    sum ← add128 value normalized
    left ← sub128 sum delta
    as_u128 left

  unfoldable pub shrunk_pnl : (value amount decimals scale delta : ℕ) → Outcome ℕ
  shrunk_pnl value amount decimals scale delta = do
    normalized ← normalize_decimal_v2 amount decimals scale
    rest ← sub128 value normalized
    left ← sub128 rest delta
    as_u128 left
