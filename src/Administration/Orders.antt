-- ===== src/Administration/Orders.antt =====
-- `do_cancel_amm_orders` and `process_admin_cancel_orders`.
pub mod Laws
use raydium_amm.State.Status.{AmmStatus}
use raydium_amm.Swap.Cancel.{cancel_calls}
use raydium_amm.Liquidity.Withdraw.{both_batches}
use raydium_amm.Swap.Accounts.{Call, MarketAccount}
use raydium_amm.State.Loading.{AccountData, AmmConfig, load_config, load_amm}
use raydium_amm.Administration.Accounts.{AdminRuntime}
use raydium_amm.State.Amm.{AmmInfo}
use raydium_amm.Errors.{AmmError}
use raydium_amm.Prelude.{
  none, some, ℕ, List, Outcome, Option, ok, Bool, ◌>>◌, ◌>>=◌, ensure, if◌then◌else◌, ◌++◌, leb,
  ◌==◌, ◌&&◌, ◌||◌, [], not, ◌∷◌,
}
use raydium_amm.State.Status

pub record CancelAccounts : Type 0 where
  pub account_len : ℕ
  pub token_program : ℕ
  pub amm : AccountData AmmInfo
  pub amm_authority : ℕ
  pub amm_open_orders : ℕ
  pub amm_target_orders : ℕ
  pub amm_coin_vault : ℕ
  pub amm_pc_vault : ℕ
  pub amm_owner : ℕ
  pub amm_owner_is_signer : Bool
  pub amm_config_key : ℕ
  pub amm_config : AccountData AmmConfig
  pub market_program : ℕ
  pub market : ℕ
  pub srm_token : Option ℕ
  pub referrer_pc : Option ℕ

-- The loop is that of `process_withdraw`.
unfoldable pub do_cancel_amm_orders : AdminRuntime → Outcome (List Call)
do_cancel_amm_orders runtime = do
  book ← runtime.load_book
  vec ← both_batches book.bids book.asks
  ok (cancel_calls vec)

-- The caller is the owner that the build names, or the one of the configuration, and has signed.
unfoldable pub check_cancel_owner : AdminRuntime → CancelAccounts → Outcome (Unit {0})
check_cancel_owner runtime accounts = do
  ensure (runtime.config_address == accounts.amm_config_key) AmmError.invalid_config_account
  config ← load_config accounts.amm_config
  ensure
      (accounts.amm_owner_is_signer
        && (accounts.amm_owner == runtime.amm_owner_id
            || accounts.amm_owner == config.cancel_owner))
      AmmError.invalid_sign_account

unfoldable pub check_cancel_keys : CancelAccounts → AmmInfo → Outcome (Unit {0})
check_cancel_keys accounts amm = do
  ensure (accounts.market_program == amm.market_program) AmmError.invalid_market_program
  ensure (accounts.market == amm.market) AmmError.invalid_market
  ensure (accounts.amm_open_orders == amm.open_orders) AmmError.invalid_open_orders
  ensure (accounts.amm_coin_vault == amm.coin_vault) AmmError.invalid_coin_vault
  ensure (accounts.amm_pc_vault == amm.pc_vault) AmmError.invalid_pc_vault
  ensure (accounts.amm_target_orders == amm.target_orders) AmmError.invalid_target_orders

unfoldable pub check_cancel_srm : AdminRuntime → CancelAccounts → Option ℕ → Outcome (Unit {0})
check_cancel_srm runtime accounts none = ok tt
check_cancel_srm runtime accounts (some srm_token) = do
  token ← runtime.unpack_token_account srm_token runtime.spl_token_id
  ensure (accounts.amm_authority == token.owner) AmmError.invalid_owner
  ensure (token.mint == runtime.srm_mint || token.mint == runtime.msrm_mint)
      AmmError.invalid_srm_mint

unfoldable pub check_cancel_referrer : AdminRuntime → AmmInfo → Option ℕ → Outcome (Unit {0})
check_cancel_referrer runtime amm none = ok tt
check_cancel_referrer runtime amm (some referrer_pc) = do
  token ← runtime.unpack_token_account referrer_pc runtime.spl_token_id
  ensure (token.owner == runtime.referrer_id) AmmError.invalid_owner
  ensure (token.mint == amm.pc_vault_mint) AmmError.invalid_refer_pc_mint

unfoldable pub check_admin_cancel : AdminRuntime → CancelAccounts → Outcome (Unit {0})
check_admin_cancel runtime accounts = do
  ensure (leb 17 accounts.account_len && leb accounts.account_len 19) AmmError.wrong_accounts_number
  ensure (accounts.token_program == runtime.spl_token_id) AmmError.invalid_spl_token_program
  amm ← load_amm accounts.amm
  authority ← runtime.authority_id amm.nonce
  ensure (accounts.amm_authority == authority) AmmError.invalid_program_address
  ensure accounts.amm.owner_is_program AmmError.invalid_owner
  check_cancel_owner runtime accounts
  ensure (not (amm.status == Status.into_u64 AmmStatus.uninitialized)) AmmError.invalid_status
  check_cancel_keys accounts amm
  check_cancel_srm runtime accounts accounts.srm_token
  check_cancel_referrer runtime amm accounts.referrer_pc

-- Nothing is settled where nothing is free.
unfoldable pub settlement : (coin_free pc_free : ℕ) → List Call
settlement coin_free pc_free =
    if coin_free == 0 && pc_free == 0
    then []
    else Call.settle_funds MarketAccount.market_coin_vault MarketAccount.market_pc_vault ∷ []

unfoldable pub process_admin_cancel_orders : AdminRuntime → CancelAccounts → Outcome (List Call)
process_admin_cancel_orders runtime accounts = do
  check_admin_cancel runtime accounts
  calls ← do_cancel_amm_orders runtime
  (coin_free, pc_free) ← runtime.load_free
  ok (calls ++ settlement coin_free pc_free)
