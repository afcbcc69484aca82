-- ===== src/Liquidity/Deposit.antt =====
-- `process_deposit`: both tokens are paid in, and pool tokens are minted for them.
pub mod Laws
use raydium_amm.Prelude.Word
use raydium_amm.Math.Exchange.{
  exchange_coin_to_pc, RoundDirection, exchange_token_to_pool, exchange_pc_to_coin,
}
use raydium_amm.State.Status.{AmmStatus, deposit_permission, orderbook_permission}
use raydium_amm.State.Orders.{TargetOrders}
use raydium_amm.Instruction.Types.{DepositInstruction}
use raydium_amm.State.Amm.{AmmInfo}
use raydium_amm.State.Loading.{AccountData, load_amm, load_target_orders}
use raydium_amm.Swap.Accounts.{Call, Vault}
use raydium_amm.Prelude.{
  some, none, List, ℕ, Option, Bool, Outcome, true, ◌∷◌, ◌>>=◌, ◌>>◌, if◌then◌else◌, [], unwrap,
  ensure, ◌==◌, not, ◌||◌, ◌&&◌, leb, ok,
}
use raydium_amm.Liquidity.Pool.{
  Settled, LiquidityRuntime, TokenAccounts, LiquidityResult, book_totals, vault_totals, grown_pnl,
  unpack_accounts, settle,
}
use raydium_amm.Uint.{Uint}
use raydium_amm.Errors.{AmmError}
use raydium_amm.State.Status

pub record DepositAccounts : Type 0 where
  pub account_len : ℕ
  pub token_program : ℕ
  pub amm_key : ℕ
  pub amm : AccountData AmmInfo
  pub amm_authority : ℕ
  pub amm_open_orders : ℕ
  pub amm_target_orders : ℕ
  pub target_orders : AccountData TargetOrders
  pub amm_lp_mint : ℕ
  pub amm_coin_vault : ℕ
  pub amm_pc_vault : ℕ
  pub market : ℕ
  pub user_source_coin : ℕ
  pub user_source_pc : ℕ
  pub source_owner_is_signer : Bool

-- The checks of the status and of the keys.
unfoldable pub check_deposit :
    LiquidityRuntime → DepositAccounts → AmmInfo → AmmStatus → Outcome (Unit {0})
check_deposit runtime accounts amm status = do
  ensure (deposit_permission status) AmmError.invalid_status
  authority ← runtime.authority_id amm.nonce
  ensure (accounts.amm_authority == authority) AmmError.invalid_program_address
  ensure (accounts.token_program == runtime.spl_token_id) AmmError.invalid_spl_token_program
  ensure
      (accounts.amm_coin_vault == amm.coin_vault
        && not (accounts.user_source_coin == amm.coin_vault))
      AmmError.invalid_coin_vault
  ensure (accounts.amm_pc_vault == amm.pc_vault && not (accounts.user_source_pc == amm.pc_vault))
      AmmError.invalid_pc_vault
  ensure (accounts.amm_lp_mint == amm.lp_mint) AmmError.invalid_pool_mint
  ensure (accounts.amm_target_orders == amm.target_orders) AmmError.invalid_target_orders

unfoldable pub deposit_totals :
    LiquidityRuntime → DepositAccounts → Bool → AmmInfo → TokenAccounts → Outcome (ℕ × ℕ)
deposit_totals runtime accounts enable_orderbook amm tokens =
    if enable_orderbook
    then (do
      ensure (accounts.market == amm.market) AmmError.invalid_market
      ensure (accounts.amm_open_orders == amm.open_orders) AmmError.invalid_open_orders
      market ← runtime.load_market
      book_totals market accounts.amm_open_orders amm tokens)
    else vault_totals amm tokens

-- What a deposit has read when it computes the amounts.
pub record DepositPool : Type 0 where
  pub settled : Settled
  pub target_orders : TargetOrders
  pub user_coin_amount : ℕ
  pub user_pc_amount : ℕ

-- `other_amount_min`, if there is one, is a bound of the charge.
unfoldable pub above_minimum : Option ℕ → ℕ → Bool
above_minimum none amount = true
above_minimum (some minimum) amount = leb minimum amount

pub record Quote : Type 0 where
  pub coin : ℕ
  pub pc : ℕ
  pub lp : ℕ

unfoldable pub deposit_calls : Quote → List Call
deposit_calls q =
    Call.deposit_to Vault.coin_vault q.coin
    ∷ Call.deposit_to Vault.pc_vault q.pc
    ∷ Call.mint_lp q.lp
    ∷ []

module _ ⦃uint : Uint⦄ where
  unfoldable pub prepare_deposit :
      LiquidityRuntime → DepositAccounts → DepositInstruction → Outcome DepositPool
  prepare_deposit runtime accounts deposit = do
    ensure (accounts.account_len == 14 || accounts.account_len == 15) AmmError.wrong_accounts_number
    amm ← load_amm accounts.amm
    ensure (not (deposit.max_coin_amount == 0 || deposit.max_pc_amount == 0)) AmmError.invalid_input
    ensure accounts.source_owner_is_signer AmmError.invalid_sign_account
    status ← Status.from_u64 amm.status
    check_deposit runtime accounts amm status
    tokens ←
        unpack_accounts runtime accounts.token_program accounts.amm_coin_vault accounts.amm_pc_vault
          accounts.user_source_coin accounts.user_source_pc
    target ← load_target_orders accounts.target_orders accounts.amm_key
    totals ← deposit_totals runtime accounts (orderbook_permission status) amm tokens
    settled ← settle target amm totals
    ok (record {
      settled = settled;
      target_orders = target;
      user_coin_amount = tokens.user_coin.amount;
      user_pc_amount = tokens.user_pc.amount;
    })

  -- The amounts for a deposit of exactly `max_coin_amount` (side 0) or exactly `max_pc_amount`.
  unfoldable pub quote_deposit :
      (total_coin total_pc lp_amount : ℕ) → DepositInstruction → Outcome Quote
  quote_deposit total_coin total_pc lp_amount deposit =
      if deposit.base_side == 0
      then (do
        pc ←
            exchange_coin_to_pc (record { token_coin = total_coin; token_pc = total_pc })
              deposit.max_coin_amount RoundDirection.ceiling
        ensure (leb pc deposit.max_pc_amount) AmmError.exceeded_slippage
        ensure (above_minimum deposit.other_amount_min pc) AmmError.exceeded_slippage
        lp ←
            exchange_token_to_pool
              (record { token_input = deposit.max_coin_amount; token_total = total_coin }) lp_amount
              RoundDirection.floor
        ok (record { coin = deposit.max_coin_amount; pc = pc; lp = lp }))
      else (do
        coin ←
            exchange_pc_to_coin (record { token_coin = total_coin; token_pc = total_pc })
              deposit.max_pc_amount RoundDirection.ceiling
        ensure (leb coin deposit.max_coin_amount) AmmError.exceeded_slippage
        ensure (above_minimum deposit.other_amount_min coin) AmmError.exceeded_slippage
        lp ←
            exchange_token_to_pool
              (record { token_input = deposit.max_pc_amount; token_total = total_pc }) lp_amount
              RoundDirection.floor
        ok (record { coin = coin; pc = deposit.max_pc_amount; lp = lp }))

  -- The account of the pool and the plan after the transfers.
  unfoldable pub deposit_state :
      LiquidityRuntime → Settled → TargetOrders → Quote → Outcome (AmmInfo × TargetOrders)
  deposit_state runtime settled target q = do
    lp_amount ← unwrap (Word.checked_add 64 settled.taken.amm.lp_amount q.lp)
    calc_pnl_x ←
        grown_pnl settled.x1 q.pc settled.taken.amm.pc_decimals settled.taken.amm.sys_decimal_value
          settled.taken.delta_x
    calc_pnl_y ←
        grown_pnl settled.y1 q.coin settled.taken.amm.coin_decimals
          settled.taken.amm.sys_decimal_value settled.taken.delta_y
    recent_epoch ← runtime.epoch
    ok (
      record (settled.taken.amm) { lp_amount = lp_amount; recent_epoch = recent_epoch },
      record target { calc_pnl_x = calc_pnl_x; calc_pnl_y = calc_pnl_y },
    )

  unfoldable pub finish_deposit :
      LiquidityRuntime → DepositPool → DepositInstruction → Outcome LiquidityResult
  finish_deposit runtime p deposit = do
    ensure (not (p.settled.taken.amm.lp_amount == 0)) AmmError.not_allow_zero_lp
    q ←
        quote_deposit p.settled.taken.total_coin_without_take_pnl
          p.settled.taken.total_pc_without_take_pnl p.settled.taken.amm.lp_amount deposit
    ensure (leb q.coin p.user_coin_amount && leb q.pc p.user_pc_amount) AmmError.insufficient_funds
    ensure (not (q.lp == 0 || q.coin == 0 || q.pc == 0)) AmmError.invalid_input
    (amm, target) ← deposit_state runtime p.settled p.target_orders q
    ok (record { amm = amm; target_orders = target; calls = deposit_calls q })

  unfoldable pub process_deposit :
      LiquidityRuntime → DepositAccounts → DepositInstruction → Outcome LiquidityResult
  process_deposit runtime accounts deposit = do
    p ← prepare_deposit runtime accounts deposit
    finish_deposit runtime p deposit
