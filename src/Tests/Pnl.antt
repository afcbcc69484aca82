-- ===== src/Tests/Pnl.antt =====
-- A pool that has four times the pc of its last profit calculation, and one that has lost some.
use raydium_amm.Prelude.{◌*◌, ◌≤◌, ◌≡◌, refl, [], err, ◌>>=◌, ◌↔◌}
use raydium_amm.Errors.{AmmError, custom}
use raydium_amm.Uint.Reference.{reference}
use raydium_amm.State.Orders.{TargetOrders}
use raydium_amm.Pnl.{TakenPnl, calc_take_pnl}
use raydium_amm.Pnl.Laws.{PnlStep, calc_take_pnl-PnlStep}
use raydium_amm.Pnl.Errors.{HasLost, calc_take_pnl-HasLost}
use raydium_amm.Tests.State.{pool, pool_data}

abbrev pub target : TargetOrders
target = record {
  owner = 9;
  buy_orders = [];
  padding1 = [];
  target_x = 0;
  target_y = 0;
  plan_x_buy = 0;
  plan_y_buy = 0;
  plan_x_sell = 0;
  plan_y_sell = 0;
  placed_x = 0;
  placed_y = 0;
  calc_pnl_x = 10000;
  calc_pnl_y = 10000;
  sell_orders = [];
  padding2 = [];
  replace_buy_client_id = [];
  replace_sell_client_id = [];
  last_order_numerator = 0;
  last_order_denominator = 0;
  plan_orders_cur = 0;
  place_orders_cur = 0;
  valid_buy_order_num = 0;
  valid_sell_order_num = 0;
  padding3 = [];
  free_slot_bits = 0;
}

abbrev taken : TakenPnl
taken = record {
  amm = record pool {
    state_data = record pool_data {
      total_pnl_pc = 20000;
      total_pnl_coin = 5000;
      need_take_pnl_pc = 2400;
      need_take_pnl_coin = 600;
    };
  };
  total_pc_without_take_pnl = 37600;
  total_coin_without_take_pnl = 9400;
  delta_x = 2400;
  delta_y = 600;
}

calc_take_pnl_example : PnlStep pool 40000 10000 taken × ◌≤◌ (10000 * 10000) (40000 * 10000)
unfolding calc_take_pnl ◌>>=◌ raydium_amm.Math.Decimal.restore_decimal raydium_amm.Pnl.take_pnl
    raydium_amm.Math.Decimal.calc_x_power raydium_amm.Uint.Reference.isqrt raydium_amm.Pnl.pnl_share
    raydium_amm.Pnl.settle_pnl raydium_amm.Pnl.save_pnl
calc_take_pnl_example =
    calc_take_pnl-PnlStep ⦃uint = reference⦄ target pool 40000 10000 40000 10000 10000 10000
      {r = taken} refl refl refl

calc_take_pnl-HasLost_example :
    (calc_take_pnl ⦃uint = reference⦄ target pool 9999 10000 9999 10000
      ≡ err (custom AmmError.calc_pnl_error))
    ↔ ((custom AmmError.calc_pnl_error ≡ custom AmmError.calc_pnl_error)
        × HasLost ⦃uint = reference⦄ target pool 9999 10000)
calc_take_pnl-HasLost_example =
    calc_take_pnl-HasLost ⦃uint = reference⦄ target pool 9999 10000 9999 10000
      (custom AmmError.calc_pnl_error)
