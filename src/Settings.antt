-- ===== src/Settings.antt =====
-- The change of a parameter in `process_set_params` (program/src/processor.rs), from the `match` on the
-- parameter to the end. The accounts and the clock answer through `SettingsAnswers`; the value is the
-- pool's account and, where it is written, the account of the planned orders.
pub mod Laws
use raydium_amm.Prelude.{
  ℕ, Bool, Option, some, none, Outcome, not, ltb, leb, ◌==◌, ◌&&◌, ◌||◌, if◌then◌else◌, ◌>>=◌, ◌>>◌,
  ok, fail, ok_or, unwrap_result, true,
}
use raydium_amm.Errors.{AmmError}
use raydium_amm.State.Constants.{ten_thousand, max_order_limit}
use raydium_amm.State.Status.{valid_status}
use raydium_amm.State.MachineState
use raydium_amm.State.MachineState.{AmmState, valid_state}
use raydium_amm.State.ResetFlag
use raydium_amm.State.ResetFlag.{AmmResetFlag}
use raydium_amm.State.Params
use raydium_amm.State.Params.{AmmParams}
use raydium_amm.State.Fees.{validate}
use raydium_amm.State.Orders.{TargetOrders}
use raydium_amm.State.Amm.{AmmInfo}
use raydium_amm.Instruction.Types.{SetParamsInstruction}
use raydium_amm.Swap.Accounts.{OrderBook}
use raydium_amm.Swap.Prepare.{calc_exact_vault_in_serum}

pub record SettingsAnswers : Type 0 where
  pub load_order_book : Outcome OrderBook
  pub amm_open_orders : ℕ
  pub target_orders : Outcome TargetOrders
  pub new_open_orders : Outcome ℕ
  pub load_new_open_orders : AmmInfo → Outcome (Unit {0})
  pub epoch : Outcome ℕ

-- `match setparams.value { Some(a) => a, None => return Err(InvalidInput) }`
abbrev pub given {ℓ} : {A : Type ℓ} → Option A → Outcome A
given o = ok_or o AmmError.invalid_input

-- The change, if `set_valid` is set.
abbrev pub valid_if : Bool → AmmInfo → Outcome (Option AmmInfo)
valid_if set_valid amm = ok (if set_valid then some amm else none)

-- The status changes only while the order book holds nothing for the pool.
unfoldable pub change_status :
    SettingsAnswers → SetParamsInstruction → AmmInfo → Outcome (Option AmmInfo)
change_status answers p amm = do
  book ← answers.load_order_book
  (shared_pc, shared_coin) ← unwrap_result (calc_exact_vault_in_serum book answers.amm_open_orders)
  (if not (shared_pc == 0) || not (shared_coin == 0) then fail AmmError.invalid_input else (do
    value ← given p.value
    valid_if (valid_status value) (record amm { status = value })))

-- The arms of the `match` on the pool's account; the last parameter, `MinSize`, has none.
unfoldable pub change_param :
    SettingsAnswers → SetParamsInstruction → AmmParams → AmmInfo → Outcome (Option AmmInfo)
change_param answers p AmmParams.status amm = change_status answers p amm
change_param answers p AmmParams.state amm = do
  value ← given p.value
  valid_if (valid_state value) (record amm { state = value })
change_param answers p AmmParams.order_num amm = do
  value ← given p.value
  (if ltb max_order_limit value
      then fail AmmError.invalid_input
      else valid_if true (record amm { order_num = value }))
change_param answers p AmmParams.depth amm = do
  value ← given p.value
  valid_if (ltb 0 value && ltb value 100) (record amm { depth = value })
change_param answers p AmmParams.amount_wave amm = do
  value ← given p.value
  valid_if true (record amm { amount_wave = value })
change_param answers p AmmParams.min_price_multiplier amm = do
  value ← given p.value
  valid_if (ltb value amm.max_price_multiplier) (record amm { min_price_multiplier = value })
change_param answers p AmmParams.max_price_multiplier amm = do
  value ← given p.value
  valid_if (ltb amm.max_price_multiplier value) (record amm { max_price_multiplier = value })
change_param answers p AmmParams.vol_max_cut_ratio amm = do
  value ← given p.value
  valid_if (leb value ten_thousand) (record amm { vol_max_cut_ratio = value })
change_param answers p AmmParams.seperate amm = do
  value ← given p.value
  valid_if (leb value ten_thousand)
      (record amm { fees = record (amm.fees) { min_separate_numerator = value } })
change_param answers p AmmParams.fees amm = do
  fees ← given p.fees
  validate fees
  valid_if true (record amm { fees = fees })
change_param answers p AmmParams.amm_owner amm = do
  new_pubkey ← given p.new_pubkey
  valid_if true (record amm { amm_owner = new_pubkey })
change_param answers p AmmParams.set_open_time amm = do
  value ← given p.value
  valid_if true (record amm { state_data = record (amm.state_data) { pool_open_time = value } })
change_param answers p AmmParams.last_order_distance amm = valid_if true amm
change_param answers p AmmParams.init_order_depth amm =
    valid_if true (record amm { order_num = 7; depth = 3 })
change_param answers p AmmParams.set_switch_time amm = do
  value ← given p.value
  valid_if true
      (record amm { state_data = record (amm.state_data) { orderbook_to_init_time = value } })
change_param answers p AmmParams.clear_open_time amm = valid_if true (record amm {
  state_data = record (amm.state_data) { pool_open_time = 0; orderbook_to_init_time = 0 };
})
change_param answers p AmmParams.update_open_order amm = do
  key ← answers.new_open_orders
  answers.load_new_open_orders (record amm { open_orders = key })
  valid_if true (record amm { open_orders = key })
change_param answers p AmmParams.min_size amm = fail AmmError.invalid_input

-- The arm `LastOrderDistance` writes the account of the planned orders.
unfoldable pub change_target :
    SettingsAnswers → SetParamsInstruction → AmmParams → Outcome (Option TargetOrders)
change_target answers p AmmParams.last_order_distance = do
  target ← answers.target_orders
  distance ← given p.last_order_distance
  ok (
      some (record target {
        last_order_numerator = distance.last_order_numerator;
        last_order_denominator = distance.last_order_denominator;
      }))
change_target answers p _ = ok none

-- After every change the pool cancels all its orders first.
unfoldable pub finish_change : SettingsAnswers → Option AmmInfo → Outcome AmmInfo
finish_change answers none = fail AmmError.invalid_params_set
finish_change answers (some amm) = do
  recent_epoch ← answers.epoch
  ok (record amm {
    state = MachineState.into_u64 AmmState.cancel_all_orders_state;
    reset_flag = ResetFlag.into_u64 AmmResetFlag.reset_yes;
    recent_epoch = recent_epoch;
  })

unfoldable pub set_params :
    SettingsAnswers → SetParamsInstruction → AmmInfo → Outcome (AmmInfo × Option TargetOrders)
set_params answers p amm = do
  kind ← Params.from_u64 p.param
  changed ← change_param answers p kind amm
  target ← change_target answers p kind
  amm' ← finish_change answers changed
  ok (amm', target)
