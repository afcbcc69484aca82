-- ===== src/Instruction/Types.antt =====
-- `enum AmmInstruction` and the arguments of the instructions. A `u8`, `u16` or `u64` is a number, and
-- a `Pubkey` the 256-bit number of its bytes.
use raydium_amm.Prelude.{ℕ, Option}
use raydium_amm.State.Fees.{Fees}
use raydium_amm.State.Orders.{LastOrderDistance}

pub record InitializeInstruction : Type 0 where
  pub nonce : ℕ
  pub open_time : ℕ

pub record InitializeInstruction2 : Type 0 where
  pub nonce : ℕ
  pub open_time : ℕ
  pub init_pc_amount : ℕ
  pub init_coin_amount : ℕ

pub record PreInitializeInstruction : Type 0 where
  pub nonce : ℕ

pub record MonitorStepInstruction : Type 0 where
  pub plan_order_limit : ℕ
  pub place_order_limit : ℕ
  pub cancel_order_limit : ℕ

pub record DepositInstruction : Type 0 where
  pub max_coin_amount : ℕ
  pub max_pc_amount : ℕ
  pub base_side : ℕ
  pub other_amount_min : Option ℕ

pub record WithdrawInstruction : Type 0 where
  pub amount : ℕ
  pub min_coin_amount : Option ℕ
  pub min_pc_amount : Option ℕ

pub record SetParamsInstruction : Type 0 where
  pub param : ℕ
  pub value : Option ℕ
  pub new_pubkey : Option ℕ
  pub fees : Option Fees
  pub last_order_distance : Option LastOrderDistance

pub record WithdrawSrmInstruction : Type 0 where
  pub amount : ℕ

pub record SwapInstructionBaseIn : Type 0 where
  pub amount_in : ℕ
  pub minimum_amount_out : ℕ

pub record SwapInstructionBaseOut : Type 0 where
  pub max_amount_in : ℕ
  pub amount_out : ℕ

pub record SimulateInstruction : Type 0 where
  pub param : ℕ
  pub swap_base_in_value : Option SwapInstructionBaseIn
  pub swap_base_out_value : Option SwapInstructionBaseOut

pub record AdminCancelOrdersInstruction : Type 0 where
  pub limit : ℕ

pub record ConfigArgs : Type 0 where
  pub param : ℕ
  pub owner : Option ℕ
  pub create_pool_fee : Option ℕ

pub data AmmInstruction : Type 0 where
  initialize : InitializeInstruction → AmmInstruction
  initialize2 : InitializeInstruction2 → AmmInstruction
  monitor_step : MonitorStepInstruction → AmmInstruction
  deposit : DepositInstruction → AmmInstruction
  withdraw : WithdrawInstruction → AmmInstruction
  migrate_to_open_book : AmmInstruction
  set_params : SetParamsInstruction → AmmInstruction
  withdraw_pnl : AmmInstruction
  withdraw_srm : WithdrawSrmInstruction → AmmInstruction
  swap_base_in : SwapInstructionBaseIn → AmmInstruction
  pre_initialize : PreInitializeInstruction → AmmInstruction
  swap_base_out : SwapInstructionBaseOut → AmmInstruction
  simulate_info : SimulateInstruction → AmmInstruction
  admin_cancel_orders : AdminCancelOrdersInstruction → AmmInstruction
  create_config_account : AmmInstruction
  update_config_account : ConfigArgs → AmmInstruction
