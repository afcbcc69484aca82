-- ===== src/Administration/SetParams.antt =====
-- `process_set_params`: the checks, the cancellation of the pool's orders and the settlement that come
-- before the change of a parameter.
use raydium_amm.Administration.Orders.{do_cancel_amm_orders}
use raydium_amm.Swap.Accounts.{Call, MarketAccount}
use raydium_amm.State.Orders.{TargetOrders}
use raydium_amm.Instruction.Types.{SetParamsInstruction}
use raydium_amm.Settings.{SettingsAnswers, set_params}
use raydium_amm.State.Loading.{AccountData, load_amm}
use raydium_amm.Administration.Accounts.{AdminRuntime}
use raydium_amm.State.Amm.{AmmInfo}
use raydium_amm.Errors.{AmmError}
use raydium_amm.Prelude.{
  ℕ, Outcome, Option, Bool, ◌>>=◌, ◌>>◌, List, ensure, ◌==◌, ◌&&◌, ok, ◌++◌, ◌∷◌, [],
}

pub record SetParamsAccounts : Type 0 where
  pub token_program : ℕ
  pub amm : AccountData AmmInfo
  pub amm_authority : ℕ
  pub amm_open_orders : ℕ
  pub amm_target_orders : ℕ
  pub amm_coin_vault : ℕ
  pub amm_pc_vault : ℕ
  pub market_program : ℕ
  pub market : ℕ
  pub amm_owner : ℕ
  pub amm_owner_is_signer : Bool

pub record SetParamsResult : Type 0 where
  pub amm : AmmInfo
  pub target_orders : Option TargetOrders
  pub calls : List Call

unfoldable pub check_set_params : AdminRuntime → SetParamsAccounts → AmmInfo → Outcome (Unit {0})
check_set_params runtime accounts amm = do
  authority ← runtime.authority_id amm.nonce
  ensure (accounts.amm_authority == authority) AmmError.invalid_program_address
  ensure accounts.amm.owner_is_program AmmError.invalid_owner
  ensure (accounts.amm_owner_is_signer && accounts.amm_owner == runtime.amm_owner_id)
      AmmError.invalid_sign_account
  ensure (accounts.market_program == amm.market_program) AmmError.invalid_market_program
  ensure (accounts.market == amm.market) AmmError.invalid_market
  ensure (accounts.amm_open_orders == amm.open_orders) AmmError.invalid_open_orders
  ensure (accounts.amm_coin_vault == amm.coin_vault) AmmError.invalid_coin_vault
  ensure (accounts.amm_pc_vault == amm.pc_vault) AmmError.invalid_pc_vault
  ensure (accounts.amm_target_orders == amm.target_orders) AmmError.invalid_target_orders

unfoldable pub process_set_params :
    AdminRuntime
    → SettingsAnswers
    → SetParamsAccounts
    → SetParamsInstruction
    → Outcome SetParamsResult
process_set_params runtime answers accounts setparams = do
  ensure (accounts.token_program == runtime.spl_token_id) AmmError.invalid_spl_token_program
  amm ← load_amm accounts.amm
  check_set_params runtime accounts amm
  calls ← do_cancel_amm_orders runtime
  (amm', target) ← set_params answers setparams amm
  ok (record {
    amm = amm';
    target_orders = target;
    calls =
        calls
        ++ (Call.settle_funds MarketAccount.market_coin_vault MarketAccount.market_pc_vault ∷ []);
  })
