-- ===== src/Initialization/Process.antt =====
-- `process_initialize2`: the checks, the creation of the accounts, and the first state of the pool.
use raydium_amm.Prelude.Word
use raydium_amm.Swap.Accounts.{Call, Vault}
use raydium_amm.State.ResetFlag.{AmmResetFlag}
use raydium_amm.State.Status.{AmmStatus}
use raydium_amm.Math.Decimal.{normalize_decimal_v2, to_u64}
use raydium_amm.State.Orders.{TargetOrders, check_init}
use raydium_amm.State.Loading.{AmmConfig, AccountData, load_config}
use raydium_amm.Uint.{Uint, mul128, as_u128}
use raydium_amm.Initialization.Create.{
  VaultAccount, NewMarket, InitRuntime, LpMint, NewAccount, InitCall,
  generate_amm_associated_account, NewPart, generate_amm_associated_spl_mint,
  generate_amm_associated_spl_token,
}
use raydium_amm.State.Amm.{AmmInfo}
use raydium_amm.Instruction.Types.{InitializeInstruction2}
use raydium_amm.Errors.{AmmError}
use raydium_amm.Prelude.{
  none, some, ℕ, Option, Outcome, List, if◌then◌else◌, Bool, ◌>>◌, ltb, false, ◌>>=◌, ensure, ◌∷◌,
  ◌==◌, ◌&&◌, [], not, ok, ◌++◌, ◌||◌, unwrap, ok_or,
}
use raydium_amm.State.Amm
use raydium_amm.State.Status
use raydium_amm.State.ResetFlag

pub record InitAccounts : Type 0 where
  pub token_program : ℕ
  pub ata_token_program : ℕ
  pub system_program : ℕ
  pub amm_authority : ℕ
  pub coin_mint : ℕ
  pub pc_mint : ℕ
  pub amm : NewAccount
  pub open_orders : NewAccount
  pub lp_mint : NewAccount
  pub coin_vault : NewAccount
  pub pc_vault : NewAccount
  pub target_orders : NewAccount
  pub target_owner : ℕ
  pub amm_config_key : ℕ
  pub amm_config : AccountData AmmConfig
  pub create_fee_destination : ℕ
  pub market_program : ℕ
  pub market : ℕ
  pub user_wallet_is_signer : Bool

pub record InitResult : Type 0 where
  pub amm : AmmInfo
  pub target_orders : TargetOrders
  pub calls : List InitCall

unfoldable pub check_init_keys :
    InitRuntime → InitAccounts → InitializeInstruction2 → Outcome (Unit {0})
check_init_keys runtime accounts init = do
  ensure (runtime.config_address == accounts.amm_config_key && accounts.amm_config.owner_is_program)
      AmmError.invalid_config_account
  ensure accounts.user_wallet_is_signer AmmError.invalid_sign_account
  ensure (accounts.token_program == runtime.spl_token_id) AmmError.invalid_spl_token_program
  ensure (accounts.ata_token_program == runtime.ata_program_id) AmmError.invalid_spl_token_program
  ensure (accounts.market_program == runtime.openbook_id) AmmError.invalid_market_program
  ensure (accounts.system_program == runtime.system_program_id) AmmError.invalid_sys_program_address
  ensure (accounts.amm_authority == runtime.authority.0 && init.nonce == runtime.authority.1)
      AmmError.invalid_program_address
  ensure (accounts.create_fee_destination == runtime.create_pool_fee_address) AmmError.invalid_fee

unfoldable pub fee_calls : AmmConfig → List InitCall
fee_calls config =
    if config.create_pool_fee == 0
    then []
    else InitCall.pay_fee config.create_pool_fee ∷ InitCall.sync_native ∷ []

-- The accounts in the order of their creation.
unfoldable pub create_accounts :
    InitRuntime → InitAccounts → (lp_decimals : ℕ) → Outcome (List InitCall)
create_accounts runtime accounts lp_decimals = do
  target ←
      generate_amm_associated_account runtime NewPart.new_target_orders accounts.target_orders
        runtime.program_id
  lp ← generate_amm_associated_spl_mint runtime NewPart.new_lp_mint accounts.lp_mint lp_decimals
  coin ←
      generate_amm_associated_spl_token runtime NewPart.new_coin_vault accounts.coin_vault
        accounts.coin_mint
  pc ←
      generate_amm_associated_spl_token runtime NewPart.new_pc_vault accounts.pc_vault
        accounts.pc_mint
  amm ← generate_amm_associated_account runtime NewPart.new_amm accounts.amm runtime.program_id
  orders ←
      generate_amm_associated_account runtime NewPart.new_open_orders accounts.open_orders
        accounts.market_program
  ok (target ++ lp ++ coin ++ pc ++ amm ++ orders)

-- A vault belongs to the authority, holds tokens of the mint, and nobody else can move them.
unfoldable pub check_vault : VaultAccount → (authority mint : ℕ) → AmmError → Outcome (Unit {0})
check_vault vault authority mint wrong_mint = do
  ensure (vault.owner == authority) AmmError.invalid_owner
  ensure (not (vault.amount == 0)) AmmError.invalid_supply
  ensure (not vault.has_delegate) AmmError.invalid_delegate
  ensure (not vault.has_close_authority) AmmError.invalid_close_authority
  ensure (mint == vault.mint) wrong_mint

unfoldable pub check_new_market :
    NewMarket → InitAccounts → (coin_vault pc_vault : VaultAccount) → Outcome (Unit {0})
check_new_market market accounts coin_vault pc_vault = do
  ensure (market.coin_mint == coin_vault.mint && market.coin_mint == accounts.coin_mint)
      AmmError.invalid_coin_mint
  ensure (market.pc_mint == pc_vault.mint && market.pc_mint == accounts.pc_mint)
      AmmError.invalid_pc_mint
  ensure (not (market.pc_lot_size == 0 || market.coin_lot_size == 0)) AmmError.invalid_market

-- `COption::Some(authority) != lp_mint.mint_authority`
unfoldable pub is_authority : Option ℕ → ℕ → Bool
is_authority none authority = false
is_authority (some key) authority = key == authority

unfoldable pub check_lp_mint : LpMint → (authority : ℕ) → Outcome (Unit {0})
check_lp_mint lp_mint authority = do
  ensure (lp_mint.supply == 0) AmmError.invalid_supply
  ensure (is_authority lp_mint.mint_authority authority) AmmError.invalid_owner
  ensure (not lp_mint.has_freeze_authority) AmmError.invalid_freeze_authority

-- The last writes to the account of the pool.
unfoldable pub opened_pool :
    InitRuntime → InitAccounts → AmmInfo → (liquidity open_time now : ℕ) → AmmInfo
opened_pool runtime accounts amm liquidity open_time now = record amm {
  coin_vault = accounts.coin_vault.key;
  pc_vault = accounts.pc_vault.key;
  coin_vault_mint = accounts.coin_mint;
  pc_vault_mint = accounts.pc_mint;
  lp_mint = accounts.lp_mint.key;
  open_orders = accounts.open_orders.key;
  market = accounts.market;
  market_program = accounts.market_program;
  target_orders = accounts.target_orders.key;
  amm_owner = runtime.amm_owner_id;
  lp_amount = liquidity;
  status =
      if ltb now open_time
      then Status.into_u64 AmmStatus.waiting_trade
      else Status.into_u64 AmmStatus.swap_only;
  reset_flag = ResetFlag.into_u64 AmmResetFlag.reset_yes;
}

-- The calls from the order book's account to the deposits.
unfoldable pub deposit_init_calls : InitializeInstruction2 → List InitCall
deposit_init_calls init =
    InitCall.init_open_orders
    ∷ InitCall.create_user_lp
    ∷ InitCall.token_call (Call.deposit_to Vault.coin_vault init.init_coin_amount)
    ∷ InitCall.token_call (Call.deposit_to Vault.pc_vault init.init_pc_amount)
    ∷ []

module _ ⦃uint : Uint⦄ where
  -- The pool tokens: the root of the product, of which one whole pool token is minted to nobody.
  unfoldable pub initial_liquidity : (pc coin lp_decimals : ℕ) → Outcome (ℕ × ℕ)
  initial_liquidity pc coin lp_decimals = do
    product ← mul128 pc coin
    root ← as_u128 (uint.integer_sqrt 128 product)
    liquidity ← to_u64 root
    locked ← unwrap (Word.checked_pow 64 10 lp_decimals)
    user_lp_amount ← ok_or (Word.checked_sub liquidity locked) AmmError.init_lp_amount_too_less
    ok (liquidity, user_lp_amount)

  -- The plan starts with the normalised amounts of the vaults.
  unfoldable pub start_plan :
      InitRuntime → InitAccounts → AmmInfo → (pc coin : ℕ) → Outcome TargetOrders
  start_plan runtime accounts amm pc coin = do
    x ← normalize_decimal_v2 pc amm.pc_decimals amm.sys_decimal_value
    y ← normalize_decimal_v2 coin amm.coin_decimals amm.sys_decimal_value
    ensure (accounts.target_owner == runtime.program_id) AmmError.invalid_program_address
    target ← runtime.load_target_data
    x' ← as_u128 x
    y' ← as_u128 y
    check_init target x' y' accounts.amm.key

  -- The pool, once its accounts exist and its vaults are filled.
  unfoldable pub open_pool :
      InitRuntime
      → InitAccounts
      → InitializeInstruction2
      → (coin_decimals pc_decimals : ℕ) → Outcome (AmmInfo × TargetOrders × ℕ)
  open_pool runtime accounts init coin_decimals pc_decimals = do
    empty ← runtime.load_amm_data
    ensure (empty.status == Status.into_u64 AmmStatus.uninitialized) AmmError.already_in_use
    coin_vault ← runtime.unpack_vault accounts.coin_vault.key
    check_vault coin_vault accounts.amm_authority accounts.coin_mint AmmError.invalid_coin_mint
    pc_vault ← runtime.unpack_vault accounts.pc_vault.key
    check_vault pc_vault accounts.amm_authority accounts.pc_mint AmmError.invalid_pc_mint
    market ← runtime.load_market
    check_new_market market accounts coin_vault pc_vault
    lp_mint ← runtime.unpack_lp_mint
    check_lp_mint lp_mint accounts.amm_authority
    (liquidity, user_lp_amount) ←
        initial_liquidity pc_vault.amount coin_vault.amount lp_mint.decimals
    amm ←
        Amm.initialize empty init.nonce init.open_time coin_decimals pc_decimals
          market.coin_lot_size market.pc_lot_size runtime.epoch
    target ← start_plan runtime accounts amm pc_vault.amount coin_vault.amount
    now ← runtime.unix_timestamp
    ok (opened_pool runtime accounts amm liquidity init.open_time now, target, user_lp_amount)

  unfoldable pub process_initialize2 :
      InitRuntime → InitAccounts → InitializeInstruction2 → Outcome InitResult
  process_initialize2 runtime accounts init = do
    check_init_keys runtime accounts init
    config ← load_config accounts.amm_config
    coin_decimals ← runtime.mint_decimals accounts.coin_mint
    pc_decimals ← runtime.mint_decimals accounts.pc_mint
    created ← create_accounts runtime accounts coin_decimals
    (amm, target, user_lp_amount) ← open_pool runtime accounts init coin_decimals pc_decimals
    ok (record {
      amm = amm;
      target_orders = target;
      calls =
          fee_calls config
          ++ created
          ++ deposit_init_calls init
          ++ (InitCall.token_call (Call.mint_lp user_lp_amount) ∷ []);
    })
