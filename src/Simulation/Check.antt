-- ===== src/Simulation/Check.antt =====
-- `Processor::check_accounts`, which the steps of the order plan and their simulation share.
use raydium_amm.State.Status.{AmmStatus}
use raydium_amm.State.Orders.{TargetOrders}
use raydium_amm.Swap.Accounts.{TokenAccount, OrderBook}
use raydium_amm.State.Loading.{AccountData}
use raydium_amm.State.Amm.{AmmInfo}
use raydium_amm.Errors.{AmmError}
use raydium_amm.Prelude.{
  some, none, Bool, ℕ, Option, Outcome, ok, ◌>>◌, ◌>>=◌, ensure, ◌==◌, not, ◌||◌,
}
use raydium_amm.State.Status

-- The keys that are built into the program or its libraries, and the answers of the runtime and of the
-- other programs. Beside the order book, `load_orders` gives the number of the slots of the open orders
-- account that are in use.
pub record CrankRuntime : Type 0 where
  pub spl_token_id : ℕ
  pub clock_id : ℕ
  pub srm_mint : ℕ
  pub msrm_mint : ℕ
  pub referrer_id : ℕ
  pub authority_id : ℕ → Outcome ℕ
  pub unpack_token_account : (account token_program : ℕ) → Outcome TokenAccount
  pub load_orders : Outcome (OrderBook × ℕ)

pub record CrankAccounts : Type 0 where
  pub are_readonly : Bool
  pub token_program : ℕ
  pub clock : ℕ
  pub amm_key : ℕ
  pub amm : AccountData AmmInfo
  pub amm_authority : ℕ
  pub amm_open_orders : ℕ
  pub amm_target_orders : ℕ
  pub target_orders : AccountData TargetOrders
  pub amm_coin_vault : ℕ
  pub amm_pc_vault : ℕ
  pub market_program : ℕ
  pub market : ℕ
  pub srm_token : Option ℕ
  pub referrer_pc : Option ℕ

unfoldable pub check_srm : CrankRuntime → CrankAccounts → Option ℕ → Outcome (Unit {0})
check_srm runtime accounts none = ok tt
check_srm runtime accounts (some srm_token) = do
  token ← runtime.unpack_token_account srm_token accounts.token_program
  ensure (token.owner == accounts.amm_authority) AmmError.invalid_owner
  ensure (token.mint == runtime.srm_mint || token.mint == runtime.msrm_mint)
      AmmError.invalid_srm_mint

unfoldable pub check_referrer_pc :
    CrankRuntime → CrankAccounts → AmmInfo → Option ℕ → Outcome (Unit {0})
check_referrer_pc runtime accounts amm none = ok tt
check_referrer_pc runtime accounts amm (some referrer_pc) = do
  token ← runtime.unpack_token_account referrer_pc accounts.token_program
  ensure (token.owner == runtime.referrer_id) AmmError.invalid_owner
  ensure (token.mint == amm.pc_vault_mint) AmmError.invalid_refer_pc_mint

unfoldable pub check_accounts : CrankRuntime → CrankAccounts → AmmInfo → Outcome (Unit {0})
check_accounts runtime accounts amm = do
  ensure (not (amm.status == Status.into_u64 AmmStatus.uninitialized)) AmmError.invalid_status
  authority ← runtime.authority_id amm.nonce
  ensure (accounts.amm_authority == authority) AmmError.invalid_program_address
  ensure accounts.amm.owner_is_program AmmError.invalid_owner
  ensure (accounts.token_program == runtime.spl_token_id) AmmError.invalid_spl_token_program
  ensure (accounts.clock == runtime.clock_id) AmmError.invalid_program_address
  ensure (accounts.market_program == amm.market_program) AmmError.invalid_market_program
  ensure (accounts.market == amm.market) AmmError.invalid_market
  ensure (accounts.amm_open_orders == amm.open_orders) AmmError.invalid_open_orders
  ensure (accounts.amm_coin_vault == amm.coin_vault) AmmError.invalid_coin_vault
  ensure (accounts.amm_pc_vault == amm.pc_vault) AmmError.invalid_pc_vault
  ensure (accounts.amm_target_orders == amm.target_orders) AmmError.invalid_target_orders
  check_srm runtime accounts accounts.srm_token
  check_referrer_pc runtime accounts amm accounts.referrer_pc
