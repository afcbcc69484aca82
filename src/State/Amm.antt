-- ===== src/State/Amm.antt =====
-- `struct StateData` and `struct AmmInfo`: the account of a pool, and its first contents.
-- A `Pubkey` is the 256-bit number of its bytes.
pub mod Laws
use raydium_amm.Prelude.{
  ℕ, ◌+◌, ◌-◌, ◌%◌, ◌^◌, List, [], ◌∷◌, ltb, leb, ◌==◌, if◌then◌else◌, Bool, Outcome, ◌>>=◌, ok,
  unwrap, unwrap_result,
}
use raydium_amm.Prelude.Word
use raydium_amm.Uint.{Uint}
use raydium_amm.Math.Decimal.{to_u64, convert_in_pc_lot_size}
use raydium_amm.State.Fees
use raydium_amm.State.Fees.{Fees}
use raydium_amm.State.Status
use raydium_amm.State.Status.{AmmStatus}
use raydium_amm.State.MachineState
use raydium_amm.State.MachineState.{AmmState}
use raydium_amm.State.ResetFlag
use raydium_amm.State.ResetFlag.{AmmResetFlag}

pub record StateData : Type 0 where
  pub need_take_pnl_coin : ℕ
  pub need_take_pnl_pc : ℕ
  pub total_pnl_pc : ℕ
  pub total_pnl_coin : ℕ
  pub pool_open_time : ℕ
  pub padding : List ℕ
  pub orderbook_to_init_time : ℕ
  pub swap_coin_in_amount : ℕ
  pub swap_pc_out_amount : ℕ
  pub swap_acc_pc_fee : ℕ
  pub swap_pc_in_amount : ℕ
  pub swap_coin_out_amount : ℕ
  pub swap_acc_coin_fee : ℕ

-- `StateData::initialize`; `Zeroable::zeroed()` fills the padding with zeros.
unfoldable pub initialize_data : StateData → ℕ → StateData
initialize_data self open_time = record self {
  need_take_pnl_coin = 0;
  need_take_pnl_pc = 0;
  total_pnl_pc = 0;
  total_pnl_coin = 0;
  pool_open_time = open_time;
  padding = 0 ∷ 0 ∷ [];
  orderbook_to_init_time = 0;
  swap_coin_in_amount = 0;
  swap_pc_out_amount = 0;
  swap_acc_pc_fee = 0;
  swap_pc_in_amount = 0;
  swap_coin_out_amount = 0;
  swap_acc_coin_fee = 0;
}

pub record AmmInfo : Type 0 where
  pub status : ℕ
  pub nonce : ℕ
  pub order_num : ℕ
  pub depth : ℕ
  pub coin_decimals : ℕ
  pub pc_decimals : ℕ
  pub state : ℕ
  pub reset_flag : ℕ
  pub min_size : ℕ
  pub vol_max_cut_ratio : ℕ
  pub amount_wave : ℕ
  pub coin_lot_size : ℕ
  pub pc_lot_size : ℕ
  pub min_price_multiplier : ℕ
  pub max_price_multiplier : ℕ
  pub sys_decimal_value : ℕ
  pub fees : Fees
  pub state_data : StateData
  pub coin_vault : ℕ
  pub pc_vault : ℕ
  pub coin_vault_mint : ℕ
  pub pc_vault_mint : ℕ
  pub lp_mint : ℕ
  pub open_orders : ℕ
  pub market : ℕ
  pub market_program : ℕ
  pub target_orders : ℕ
  pub padding1 : List ℕ
  pub amm_owner : ℕ
  pub lp_amount : ℕ
  pub client_order_id : ℕ
  pub recent_epoch : ℕ
  pub padding2 : ℕ

-- The scale of `AmmInfo::initialize`: ten to the larger number of decimals, or the ratio of the lots
-- where that is larger still. `pow` of `u64` and `u128` panics on overflow.
unfoldable pub initial_sys_decimal_value : ℕ → ℕ → ℕ → ℕ → Outcome ℕ
initial_sys_decimal_value coin_decimals pc_decimals coin_lot_size pc_lot_size = do
  sys ← unwrap (
      if ltb coin_decimals pc_decimals
      then Word.checked_pow 64 10 pc_decimals
      else Word.checked_pow 64 10 coin_decimals)
  pc_scale ← unwrap (Word.checked_pow 128 10 pc_decimals)
  temp_value_numerator ← unwrap (Word.checked_mul 128 coin_lot_size pc_scale)
  coin_scale ← unwrap (Word.checked_pow 128 10 coin_decimals)
  temp_value_denominator ← unwrap (Word.checked_mul 128 pc_lot_size coin_scale)
  ratio ← unwrap (Word.checked_div temp_value_numerator temp_value_denominator)
  if leb sys ratio then unwrap_result (to_u64 ratio) else ok sys

-- The lot size in normalised units; 0 stands for one that does not fit 64 bits.
unfoldable pub initial_min_size : ℕ → ℕ → ℕ → Outcome ℕ
initial_min_size coin_decimals coin_lot_size sys = do
  product ← unwrap (Word.checked_mul 128 coin_lot_size sys)
  coin_scale ← unwrap (Word.checked_pow 128 10 coin_decimals)
  min_size ← unwrap (Word.checked_div product coin_scale)
  if ltb min_size (2 ^ 64 - 1) then to_u64 min_size else ok 0

-- The fields that `AmmInfo::initialize` writes, once the numbers are computed.
unfoldable pub initial_pool : AmmInfo → ℕ → ℕ → ℕ → ℕ → ℕ → ℕ → ℕ → ℕ → ℕ → ℕ → AmmInfo
initial_pool self nonce open_time coin_decimals pc_decimals coin_lot_size sys min_size amount_wave
      pc_lot recent_epoch =
    record self {
      fees = Fees.initialize self.fees;
      state_data = initialize_data self.state_data open_time;
      status = Status.into_u64 AmmStatus.uninitialized;
      nonce = nonce;
      order_num = 7;
      depth = 3;
      coin_decimals = coin_decimals;
      pc_decimals = pc_decimals;
      state = MachineState.into_u64 AmmState.idle_state;
      reset_flag = ResetFlag.into_u64 AmmResetFlag.reset_no;
      sys_decimal_value = sys;
      min_size = min_size;
      vol_max_cut_ratio = 500;
      amount_wave = amount_wave;
      coin_lot_size = coin_lot_size;
      pc_lot_size = pc_lot;
      min_price_multiplier = 1;
      max_price_multiplier = 1000000000;
      client_order_id = 0;
      padding1 = 0 ∷ 0 ∷ 0 ∷ 0 ∷ 0 ∷ 0 ∷ 0 ∷ 0 ∷ [];
      recent_epoch = recent_epoch;
      padding2 = 0;
    }

module _ ⦃uint : Uint⦄ where
  -- `AmmInfo::initialize`. `get_recent_epoch()` asks the runtime's clock: its answer is an argument.
  unfoldable pub initialize : AmmInfo → ℕ → ℕ → ℕ → ℕ → ℕ → ℕ → Outcome ℕ → Outcome AmmInfo
  initialize self nonce open_time coin_decimals pc_decimals coin_lot_size pc_lot_size epoch = do
    sys ← initial_sys_decimal_value coin_decimals pc_decimals coin_lot_size pc_lot_size
    min_size ← initial_min_size coin_decimals coin_lot_size sys
    wave ← unwrap (Word.checked_mul 64 sys 5)
    amount_wave ← unwrap (Word.checked_div wave 1000)
    pc_lot ← convert_in_pc_lot_size pc_decimals coin_decimals pc_lot_size coin_lot_size sys
    recent_epoch ← unwrap_result epoch
    ok (
        initial_pool self nonce open_time coin_decimals pc_decimals coin_lot_size sys min_size
          amount_wave pc_lot recent_epoch)

-- `AmmInfo::incr_client_order_id`: the new account and the returned number.
unfoldable pub incr_client_order_id : AmmInfo → AmmInfo × ℕ
incr_client_order_id self =
    let next = (self.client_order_id + 1) % 2 ^ 64 in
    let id = if next == 0 then next + 1 else next in (record self { client_order_id = id }, id)
