-- ===== src/Initialization/Create.antt =====
-- The creation of the accounts of a pool: `generate_amm_associated_account`,
-- `generate_amm_associated_spl_mint` and `generate_amm_associated_spl_token`.
use raydium_amm.State.Orders.{TargetOrders}
use raydium_amm.State.Amm.{AmmInfo}
use raydium_amm.Swap.Accounts.{Call}
use raydium_amm.Prelude.{
  ℕ, Outcome, Bool, Option, List, if◌then◌else◌, ◌>>=◌, ◌>>◌, ok, ltb, ensure, ◌++◌, ◌==◌, ◌-◌, ◌∷◌,
  [], fail,
}
use raydium_amm.Errors.{AmmError}

-- The accounts that are created, each at an address that is derived from the market.
pub data NewPart : Type 0 where
  new_target_orders new_lp_mint new_coin_vault new_pc_vault new_amm new_open_orders : NewPart

-- An account before it is created: the system program owns it.
pub record NewAccount : Type 0 where
  pub key : ℕ
  pub owner : ℕ
  pub lamports : ℕ

-- A token account and a mint, as the SPL token program unpacks them after the calls.
pub record VaultAccount : Type 0 where
  pub mint : ℕ
  pub owner : ℕ
  pub amount : ℕ
  pub has_delegate : Bool
  pub has_close_authority : Bool

pub record LpMint : Type 0 where
  pub supply : ℕ
  pub decimals : ℕ
  pub mint_authority : Option ℕ
  pub has_freeze_authority : Bool

pub record NewMarket : Type 0 where
  pub coin_mint : ℕ
  pub pc_mint : ℕ
  pub coin_lot_size : ℕ
  pub pc_lot_size : ℕ

-- The keys of other programs and of the build, the derived addresses and sizes, and the answers of the
-- runtime and of the other programs. The answers on vaults, mint and accounts are those after the calls.
pub record InitRuntime : Type 0 where
  pub program_id : ℕ
  pub spl_token_id : ℕ
  pub ata_program_id : ℕ
  pub openbook_id : ℕ
  pub system_program_id : ℕ
  pub create_pool_fee_address : ℕ
  pub amm_owner_id : ℕ
  pub config_address : ℕ
  pub authority : ℕ × ℕ
  pub associated_address : NewPart → ℕ
  pub size_of : NewPart → ℕ
  pub minimum_balance : ℕ → Outcome ℕ
  pub mint_decimals : ℕ → Outcome ℕ
  pub unpack_vault : ℕ → Outcome VaultAccount
  pub unpack_lp_mint : Outcome LpMint
  pub load_market : Outcome NewMarket
  pub load_amm_data : Outcome AmmInfo
  pub load_target_data : Outcome TargetOrders
  pub unix_timestamp : Outcome ℕ
  pub epoch : Outcome ℕ

-- The calls of the system program, of the token programs and of the order book.
pub data InitCall : Type 0 where
  pay_fee : ℕ → InitCall
  sync_native : InitCall
  transfer_lamports : NewPart → ℕ → InitCall
  allocate_part : NewPart → ℕ → InitCall
  assign_part : NewPart → (owner : ℕ) → InitCall
  initialize_mint : (decimals : ℕ) → InitCall
  initialize_account : NewPart → (mint : ℕ) → InitCall
  init_open_orders : InitCall
  create_user_lp : InitCall
  token_call : Call → InitCall

-- The lamports that the account lacks; `saturating_sub` stops at 0, as `-` does.
unfoldable pub fund_part : NewPart → (minimum_balance lamports : ℕ) → List InitCall
fund_part part minimum_balance lamports =
    let required = (if ltb minimum_balance 1 then 1 else minimum_balance) - lamports in
    if ltb 0 required then InitCall.transfer_lamports part required ∷ [] else []

-- What the three functions share. An account that exists already ends the creation.
unfoldable pub generate_part :
    InitRuntime → NewPart → NewAccount → (assign_to : ℕ) → AmmError → Outcome (List InitCall)
generate_part runtime part account assign_to wrong_address = do
  ensure (runtime.associated_address part == account.key) wrong_address
  (if account.owner == runtime.system_program_id
      then (do
        minimum_balance ← runtime.minimum_balance (runtime.size_of part)
        ok (
            fund_part part minimum_balance account.lamports
            ++ (InitCall.allocate_part part (runtime.size_of part)
                ∷ InitCall.assign_part part assign_to
                ∷ [])))
      else fail AmmError.repeat_create_amm)

unfoldable pub generate_amm_associated_account :
    InitRuntime → NewPart → NewAccount → (assign_to : ℕ) → Outcome (List InitCall)
generate_amm_associated_account runtime part account assign_to =
    generate_part runtime part account assign_to AmmError.expected_account

unfoldable pub generate_amm_associated_spl_mint :
    InitRuntime → NewPart → NewAccount → (decimals : ℕ) → Outcome (List InitCall)
generate_amm_associated_spl_mint runtime part account decimals = do
  calls ← generate_part runtime part account runtime.spl_token_id AmmError.expected_mint
  ok (calls ++ (InitCall.initialize_mint decimals ∷ []))

unfoldable pub generate_amm_associated_spl_token :
    InitRuntime → NewPart → NewAccount → (mint : ℕ) → Outcome (List InitCall)
generate_amm_associated_spl_token runtime part account mint = do
  calls ← generate_part runtime part account runtime.spl_token_id AmmError.expected_account
  ok (calls ++ (InitCall.initialize_account part mint ∷ []))
