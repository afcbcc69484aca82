-- ===== src/Tests/Settings.antt =====
-- The state of a pool is set to `IdleState`, which the pool does not keep.
use raydium_amm.Prelude.{refl, some, none, ok, err, arith, ◌>>=◌, Option}
use raydium_amm.Errors.{AmmError, custom}
use raydium_amm.State.Amm.{AmmInfo}
use raydium_amm.State.Orders.{TargetOrders}
use raydium_amm.Instruction.Types.{SetParamsInstruction}
use raydium_amm.Settings.{SettingsAnswers, set_params, change_param, change_target, finish_change}
use raydium_amm.Settings.Laws.{IsChanged, set_params-IsChanged}
use raydium_amm.Tests.State.{pool}

abbrev answers : SettingsAnswers
answers = record {
  load_order_book = err (custom AmmError.invalid_market);
  amm_open_orders = 6;
  target_orders = err (custom AmmError.invalid_target_orders);
  new_open_orders = ok 30;
  load_new_open_orders = λ amm. ok tt;
  epoch = ok 601;
}

abbrev idle : SetParamsInstruction
idle = record {
  param = 1;
  value = some 1;
  new_pubkey = none;
  fees = none;
  last_order_distance = none;
}

abbrev changed : AmmInfo × Option TargetOrders
changed = (record pool { state = 2; reset_flag = 0; recent_epoch = 601 }, none)

set_params_example : IsChanged changed
unfolding set_params change_param change_target finish_change raydium_amm.State.Params.from_u64
    raydium_amm.State.MachineState.valid_state raydium_amm.State.MachineState.into_u64
    raydium_amm.State.ResetFlag.into_u64 ◌>>=◌
set_params_example = set_params-IsChanged answers idle pool {r = changed} (omega arith) refl
