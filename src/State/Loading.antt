-- ===== src/State/Loading.antt =====
-- The accounts of the program as they are passed to an instruction, and the checks with which their
-- data is loaded: program/src/state.rs (`load_mut_checked` and `load_checked` of `AmmInfo`,
-- `TargetOrders` and `AmmConfig`). The cast of the bytes is the `safe-transmute` crate's: what it
-- gives is the field `contents`.
use raydium_amm.Prelude.{ℕ, Bool, List, Outcome, not, ◌==◌, ◌>>=◌, ◌>>◌, ok, ensure}
use raydium_amm.Errors.{AmmError}
use raydium_amm.State.Amm.{AmmInfo}
use raydium_amm.State.Orders.{TargetOrders}

pub record AccountData (A : Type 0) : Type 0 where
  pub owner_is_program : Bool
  pub len_is_size : Bool
  pub contents : Outcome A

-- `struct AmmConfig`
pub record AmmConfig : Type 0 where
  pub pnl_owner : ℕ
  pub cancel_owner : ℕ
  pub pending_1 : List ℕ
  pub pending_2 : List ℕ
  pub create_pool_fee : ℕ

-- `AmmInfo::load_mut_checked`
unfoldable pub load_amm : AccountData AmmInfo → Outcome AmmInfo
load_amm account = do
  ensure account.owner_is_program AmmError.invalid_amm_account_owner
  ensure account.len_is_size AmmError.expected_account
  amm ← account.contents
  ensure (not (amm.status == 0)) AmmError.invalid_status
  ok amm

-- `TargetOrders::load_mut_checked`
unfoldable pub load_target_orders : AccountData TargetOrders → ℕ → Outcome TargetOrders
load_target_orders account owner = do
  ensure account.owner_is_program AmmError.invalid_target_account_owner
  ensure account.len_is_size AmmError.expected_account
  target ← account.contents
  ensure (target.owner == owner) AmmError.invalid_target_owner
  ok target

-- `AmmConfig::load_checked` and `AmmConfig::load_mut_checked`
unfoldable pub load_config : AccountData AmmConfig → Outcome AmmConfig
load_config account = do
  ensure account.owner_is_program AmmError.invalid_owner
  ensure account.len_is_size AmmError.expected_account
  config ← account.contents
  ok config
