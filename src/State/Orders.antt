-- ===== src/State/Orders.antt =====
-- `struct TargetOrders` and `struct LastOrderDistance`: the plan of the orders of a pool.
pub mod Laws
use raydium_amm.Prelude.{ℕ, ◌-◌, ◌^◌, List, ◌==◌, if◌then◌else◌, Outcome, ok, fail}
use raydium_amm.Errors.{AmmError}

pub record TargetOrder : Type 0 where
  pub price : ℕ
  pub vol : ℕ

-- The fixed arrays are lists: 50 orders a side, and ten client ids (`MAX_ORDER_LIMIT`) a side.
pub record TargetOrders : Type 0 where
  pub owner : ℕ
  pub buy_orders : List TargetOrder
  pub padding1 : List ℕ
  pub target_x : ℕ
  pub target_y : ℕ
  pub plan_x_buy : ℕ
  pub plan_y_buy : ℕ
  pub plan_x_sell : ℕ
  pub plan_y_sell : ℕ
  pub placed_x : ℕ
  pub placed_y : ℕ
  pub calc_pnl_x : ℕ
  pub calc_pnl_y : ℕ
  pub sell_orders : List TargetOrder
  pub padding2 : List ℕ
  pub replace_buy_client_id : List ℕ
  pub replace_sell_client_id : List ℕ
  pub last_order_numerator : ℕ
  pub last_order_denominator : ℕ
  pub plan_orders_cur : ℕ
  pub place_orders_cur : ℕ
  pub valid_buy_order_num : ℕ
  pub valid_sell_order_num : ℕ
  pub padding3 : List ℕ
  pub free_slot_bits : ℕ

pub record LastOrderDistance : Type 0 where
  pub last_order_numerator : ℕ
  pub last_order_denominator : ℕ

-- `TargetOrders::check_init`; `Pubkey::default()` is 0.
unfoldable pub check_init : TargetOrders → ℕ → ℕ → ℕ → Outcome TargetOrders
check_init self x y owner =
    if self.owner == 0
    then ok (record self {
      owner = owner;
      last_order_numerator = 0;
      last_order_denominator = 0;
      plan_orders_cur = 0;
      place_orders_cur = 0;
      valid_buy_order_num = 0;
      valid_sell_order_num = 0;
      target_x = 0;
      target_y = 0;
      plan_x_buy = 0;
      plan_y_buy = 0;
      plan_x_sell = 0;
      plan_y_sell = 0;
      placed_x = 0;
      placed_y = 0;
      calc_pnl_x = x;
      calc_pnl_y = y;
      free_slot_bits = 2 ^ 128 - 1;
    })
    else fail AmmError.already_in_use
