-- ===== src/Liquidity/WithdrawPnl.antt =====
-- `process_withdrawpnl`: the pool's owner withdraws the profit that has been set aside.
pub mod Laws
use raydium_amm.State.Status.{AmmStatus, orderbook_permission}
use raydium_amm.Swap.Accounts.{Call, Vault}
use raydium_amm.State.Loading.{AccountData, AmmConfig, load_config, load_amm, load_target_orders}
use raydium_amm.State.Orders.{TargetOrders}
use raydium_amm.State.Amm.{AmmInfo}
use raydium_amm.Uint.{Uint, sub128, as_u128}
use raydium_amm.Liquidity.Pool.{
  Settled, LiquidityRuntime, TokenAccounts, LiquidityResult, book_totals, vault_totals,
  unpack_accounts, settle,
}
use raydium_amm.Prelude.{
  ℕ, Bool, Outcome, List, ◌>>◌, if◌then◌else◌, ◌>>=◌, ensure, leb, ◌==◌, not, ◌∷◌, ok, ◌&&◌, ◌||◌,
  [], fail,
}
use raydium_amm.Errors.{AmmError}
use raydium_amm.State.Status

pub record WithdrawPnlAccounts : Type 0 where
  pub account_len : ℕ
  pub token_program : ℕ
  pub amm_key : ℕ
  pub amm : AccountData AmmInfo
  pub amm_config_key : ℕ
  pub amm_config : AccountData AmmConfig
  pub amm_authority : ℕ
  pub amm_open_orders : ℕ
  pub amm_coin_vault : ℕ
  pub amm_pc_vault : ℕ
  pub user_pnl_coin : ℕ
  pub user_pnl_pc : ℕ
  pub pnl_owner : ℕ
  pub pnl_owner_is_signer : Bool
  pub amm_target_orders : ℕ
  pub target_orders : AccountData TargetOrders
  pub market_program : ℕ
  pub market : ℕ
  pub referrer_pc_wallet : ℕ

unfoldable pub check_pnl_referrer : LiquidityRuntime → WithdrawPnlAccounts → Outcome (Unit {0})
check_pnl_referrer runtime accounts =
    if accounts.account_len == 18
    then (do
      token ← runtime.unpack_token_account accounts.referrer_pc_wallet accounts.token_program
      ensure (token.owner == runtime.referrer_id) AmmError.invalid_owner)
    else ok tt

-- The caller is the owner that the build names, or the one of the configuration, and has signed.
unfoldable pub check_pnl_owner : LiquidityRuntime → WithdrawPnlAccounts → Outcome (Unit {0})
check_pnl_owner runtime accounts = do
  ensure (runtime.config_address == accounts.amm_config_key && accounts.amm_config.owner_is_program)
      AmmError.invalid_config_account
  config ← load_config accounts.amm_config
  ensure
      (accounts.pnl_owner_is_signer
        && (accounts.pnl_owner == runtime.amm_owner_id || accounts.pnl_owner == config.pnl_owner))
      AmmError.invalid_sign_account

unfoldable pub check_pnl_keys :
    LiquidityRuntime → WithdrawPnlAccounts → AmmInfo → Outcome (Unit {0})
check_pnl_keys runtime accounts amm = do
  ensure (not (amm.status == Status.into_u64 AmmStatus.uninitialized)) AmmError.invalid_status
  ensure (accounts.market == amm.market) AmmError.invalid_market
  ensure (accounts.amm_coin_vault == amm.coin_vault) AmmError.invalid_coin_vault
  ensure (accounts.amm_pc_vault == amm.pc_vault) AmmError.invalid_pc_vault
  ensure (accounts.token_program == runtime.spl_token_id) AmmError.invalid_spl_token_program
  ensure (accounts.market_program == amm.market_program) AmmError.invalid_market_program
  ensure (accounts.amm_open_orders == amm.open_orders) AmmError.invalid_open_orders
  ensure (accounts.amm_target_orders == amm.target_orders) AmmError.invalid_target_orders

unfoldable pub check_pnl_mints : AmmInfo → TokenAccounts → Outcome (Unit {0})
check_pnl_mints amm tokens = do
  ensure
      (tokens.coin_vault.mint == amm.coin_vault_mint
        && tokens.user_coin.mint == amm.coin_vault_mint)
      AmmError.invalid_coin_mint
  ensure (tokens.pc_vault.mint == amm.pc_vault_mint && tokens.user_pc.mint == amm.pc_vault_mint)
      AmmError.invalid_pc_mint

unfoldable pub pnl_totals :
    LiquidityRuntime → WithdrawPnlAccounts → Bool → AmmInfo → TokenAccounts → Outcome (ℕ × ℕ)
pnl_totals runtime accounts enable_orderbook amm tokens =
    if enable_orderbook
    then (do
      ensure (accounts.market == amm.market) AmmError.invalid_market
      ensure (accounts.amm_open_orders == amm.open_orders) AmmError.invalid_open_orders
      market ← runtime.load_market
      book_totals market accounts.amm_open_orders amm tokens)
    else vault_totals amm tokens

-- What the withdrawal has read when it pays.
pub record PnlPool : Type 0 where
  pub settled : Settled
  pub target_orders : TargetOrders
  pub coin_vault_amount : ℕ
  pub pc_vault_amount : ℕ

unfoldable pub pnl_calls : AmmInfo → List Call
pnl_calls amm =
    Call.withdraw_from Vault.coin_vault amm.state_data.need_take_pnl_coin
    ∷ Call.withdraw_from Vault.pc_vault amm.state_data.need_take_pnl_pc
    ∷ []

module _ ⦃uint : Uint⦄ where
  unfoldable pub prepare_withdrawpnl : LiquidityRuntime → WithdrawPnlAccounts → Outcome PnlPool
  prepare_withdrawpnl runtime accounts = do
    ensure (accounts.account_len == 17 || accounts.account_len == 18) AmmError.wrong_accounts_number
    check_pnl_referrer runtime accounts
    amm ← load_amm accounts.amm
    authority ← runtime.authority_id amm.nonce
    ensure (accounts.amm_authority == authority) AmmError.invalid_program_address
    ensure accounts.amm.owner_is_program AmmError.invalid_owner
    status ← Status.from_u64 amm.status
    check_pnl_owner runtime accounts
    check_pnl_keys runtime accounts amm
    tokens ←
        unpack_accounts runtime accounts.token_program accounts.amm_coin_vault accounts.amm_pc_vault
          accounts.user_pnl_coin accounts.user_pnl_pc
    target ← load_target_orders accounts.target_orders accounts.amm_key
    check_pnl_mints amm tokens
    totals ← pnl_totals runtime accounts (orderbook_permission status) amm tokens
    settled ← settle target amm totals
    ok (record {
      settled = settled;
      target_orders = target;
      coin_vault_amount = tokens.coin_vault.amount;
      pc_vault_amount = tokens.pc_vault.amount;
    })

  -- What is owed is paid in full, or nothing is.
  unfoldable pub finish_withdrawpnl : LiquidityRuntime → PnlPool → Outcome LiquidityResult
  finish_withdrawpnl runtime p =
      let amm = p.settled.taken.amm in
      if leb amm.state_data.need_take_pnl_coin p.coin_vault_amount
        && leb amm.state_data.need_take_pnl_pc p.pc_vault_amount
      then (do
        x ← sub128 p.settled.x1 p.settled.taken.delta_x
        calc_pnl_x ← as_u128 x
        y ← sub128 p.settled.y1 p.settled.taken.delta_y
        calc_pnl_y ← as_u128 y
        recent_epoch ← runtime.epoch
        ok (record {
          amm = record amm {
            state_data = record (amm.state_data) { need_take_pnl_coin = 0; need_take_pnl_pc = 0 };
            recent_epoch = recent_epoch;
          };
          target_orders = record (p.target_orders) {
            calc_pnl_x = calc_pnl_x;
            calc_pnl_y = calc_pnl_y;
          };
          calls = pnl_calls amm;
        }))
      else fail AmmError.take_pnl_error

  unfoldable pub process_withdrawpnl :
      LiquidityRuntime → WithdrawPnlAccounts → Outcome LiquidityResult
  process_withdrawpnl runtime accounts = do
    p ← prepare_withdrawpnl runtime accounts
    finish_withdrawpnl runtime p
