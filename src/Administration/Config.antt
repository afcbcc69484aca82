-- ===== src/Administration/Config.antt =====
-- `process_create_config` and `process_update_config`.
pub mod Laws
use raydium_amm.Instruction.Types.{ConfigArgs}
use raydium_amm.State.Loading.{AmmConfig, AccountData, load_config}
use raydium_amm.Administration.Accounts.{AdminRuntime, AdminCall}
use raydium_amm.Errors.{AmmError}
use raydium_amm.Prelude.{
  ℕ, Option, Outcome, Bool, List, ◌>>=◌, if◌then◌else◌, ◌>>◌, unwrap, ltb, ◌==◌, ensure, ◌&&◌, ◌-◌,
  not, ok, ◌∷◌, fail, [], ◌++◌,
}

-- `config_before` is the owner of the account that is passed, `amm_config` what it is once it has been
-- allocated and assigned to the program.
pub record CreateAccounts : Type 0 where
  pub admin : ℕ
  pub admin_is_signer : Bool
  pub amm_config_key : ℕ
  pub config_before : ℕ
  pub config_lamports : ℕ
  pub amm_config : AccountData AmmConfig
  pub pnl_owner : ℕ
  pub system_program : ℕ

pub record ConfigResult : Type 0 where
  pub config : AmmConfig
  pub calls : List AdminCall

-- The lamports that the account lacks; `saturating_sub` stops at 0, as `-` does.
unfoldable pub funding_calls : (minimum_balance lamports : ℕ) → List AdminCall
funding_calls minimum_balance lamports =
    let required = (if ltb minimum_balance 1 then 1 else minimum_balance) - lamports in
    if ltb 0 required then AdminCall.transfer_lamports required ∷ [] else []

unfoldable pub process_create_config : AdminRuntime → CreateAccounts → Outcome ConfigResult
process_create_config runtime accounts = do
  ensure (accounts.admin_is_signer && runtime.amm_owner_id == accounts.admin)
      AmmError.invalid_sign_account
  ensure (accounts.system_program == runtime.system_program_id) AmmError.invalid_sys_program_address
  ensure (runtime.config_address == accounts.amm_config_key) AmmError.invalid_config_account
  ensure (accounts.config_before == accounts.system_program) AmmError.repeat_create_config_account
  minimum_balance ← runtime.minimum_balance
  config ← load_config accounts.amm_config
  ok (record {
    config = record config { pnl_owner = accounts.pnl_owner; create_pool_fee = 0 };
    calls =
        funding_calls minimum_balance accounts.config_lamports
        ++ (AdminCall.allocate_config ∷ AdminCall.assign_config ∷ []);
  })

pub record UpdateAccounts : Type 0 where
  pub admin : ℕ
  pub admin_is_signer : Bool
  pub amm_config_key : ℕ
  pub amm_config : AccountData AmmConfig

-- An owner is a key other than the default one.
unfoldable pub given_owner : Option ℕ → Outcome ℕ
given_owner owner = do key ← unwrap owner; ensure (not (key == 0)) AmmError.invalid_input; ok key

-- The `match` on the parameter.
unfoldable pub update_config : AmmConfig → ConfigArgs → Outcome AmmConfig
update_config config args =
    if args.param == 0
    then (do pnl_owner ← given_owner args.owner; ok (record config { pnl_owner = pnl_owner }))
    else if args.param == 1
    then (do
      cancel_owner ← given_owner args.owner
      ok (record config { cancel_owner = cancel_owner }))
    else if args.param == 2
    then (do
      create_pool_fee ← unwrap args.create_pool_fee
      ok (record config { create_pool_fee = create_pool_fee }))
    else fail AmmError.invalid_input

unfoldable pub process_update_config :
    AdminRuntime → UpdateAccounts → ConfigArgs → Outcome AmmConfig
process_update_config runtime accounts args = do
  ensure (accounts.admin_is_signer && runtime.amm_owner_id == accounts.admin)
      AmmError.invalid_sign_account
  ensure (runtime.config_address == accounts.amm_config_key && accounts.amm_config.owner_is_program)
      AmmError.invalid_config_account
  config ← load_config accounts.amm_config
  update_config config args
