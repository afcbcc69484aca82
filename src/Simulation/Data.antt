-- ===== src/Simulation/Data.antt =====
-- The data of the simulations (program/src/state.rs), and what they read.
use raydium_amm.State.Orders.{TargetOrders}
use raydium_amm.Liquidity.Pool.{Market}
use raydium_amm.State.Amm.{AmmInfo}
use raydium_amm.State.Loading.{AccountData}
use raydium_amm.Swap.Accounts.{TokenAccount}
use raydium_amm.Prelude.{ℕ, none, Outcome, Bool, Option}

-- `struct GetPoolData`; the key that is printed as `amm_id` is none where the string is empty.
pub record GetPoolData : Type 0 where
  pub status : ℕ
  pub coin_decimals : ℕ
  pub pc_decimals : ℕ
  pub lp_decimals : ℕ
  pub pool_pc_amount : ℕ
  pub pool_coin_amount : ℕ
  pub pnl_pc_amount : ℕ
  pub pnl_coin_amount : ℕ
  pub pool_lp_supply : ℕ
  pub pool_open_time : ℕ
  pub amm_id : Option ℕ

-- `struct GetSwapBaseInData` and `struct GetSwapBaseOutData`
pub record GetSwapBaseInData : Type 0 where
  pub pool_data : GetPoolData
  pub amount_in : ℕ
  pub minimum_amount_out : ℕ
  pub price_impact : ℕ

pub record GetSwapBaseOutData : Type 0 where
  pub pool_data : GetPoolData
  pub max_amount_in : ℕ
  pub amount_out : ℕ
  pub price_impact : ℕ

-- `Default::default()`
unfoldable pub default_pool_data : GetPoolData
default_pool_data = record {
  status = 0;
  coin_decimals = 0;
  pc_decimals = 0;
  lp_decimals = 0;
  pool_pc_amount = 0;
  pool_coin_amount = 0;
  pnl_pc_amount = 0;
  pnl_coin_amount = 0;
  pool_lp_supply = 0;
  pool_open_time = 0;
  amm_id = none;
}

-- The answers of the runtime and of the other programs. `unpack_mint` gives the decimals.
pub record SimulateRuntime : Type 0 where
  pub authority_id : ℕ → Outcome ℕ
  pub unpack_token_account : ℕ → Outcome TokenAccount
  pub unpack_mint : ℕ → Outcome ℕ
  pub load_market : Outcome Market

-- The accounts of a simulation: `are_readonly` says that none of those that are checked is writable.
pub record SimulateAccounts : Type 0 where
  pub account_len : ℕ
  pub are_readonly : Bool
  pub amm_key : ℕ
  pub amm : AccountData AmmInfo
  pub amm_authority : ℕ
  pub amm_open_orders : ℕ
  pub amm_target_orders : ℕ
  pub target_orders : AccountData TargetOrders
  pub amm_coin_vault : ℕ
  pub amm_pc_vault : ℕ
  pub amm_lp_mint : ℕ
  pub market_program : ℕ
  pub market : ℕ
  pub user_source : ℕ
  pub user_destination : ℕ
  pub user_source_owner_is_signer : Bool
