-- ===== src/Pnl.antt =====
-- `Processor::calc_take_pnl` (program/src/processor.rs): the profit of the pool since its last
-- calculation, a share of which is set aside for the owner. The amounts that the source changes
-- through `&mut` are fields of the result.
pub mod Laws
pub mod Errors
use raydium_amm.Prelude.{ℕ, ◌==◌, ◌&&◌, not, leb, if◌then◌else◌, Outcome, ◌>>=◌, ok, fail, unwrap}
use raydium_amm.Prelude.Word
use raydium_amm.Errors.{AmmError}
use raydium_amm.Uint.{Uint, mul128, div128, sub256, mul256, div256, as_u64, as_u128}
use raydium_amm.Math.Decimal.{calc_x_power, restore_decimal}
use raydium_amm.State.Amm.{AmmInfo}
use raydium_amm.State.Orders.{TargetOrders}

pub record TakenPnl : Type 0 where
  pub amm : AmmInfo
  pub total_pc_without_take_pnl : ℕ
  pub total_coin_without_take_pnl : ℕ
  pub delta_x : ℕ
  pub delta_y : ℕ

-- Steps 2 and 3 of the source: the profit is recorded, and leaves the totals.
unfoldable pub save_pnl : AmmInfo → ℕ → ℕ → ℕ → ℕ → ℕ → ℕ → ℕ → ℕ → Outcome TakenPnl
save_pnl amm pc coin diff_pc diff_coin pc_pnl coin_pnl delta_x delta_y = do
  total_pnl_pc ← unwrap (Word.checked_add 64 amm.state_data.total_pnl_pc diff_pc)
  total_pnl_coin ← unwrap (Word.checked_add 64 amm.state_data.total_pnl_coin diff_coin)
  need_take_pnl_pc ← unwrap (Word.checked_add 64 amm.state_data.need_take_pnl_pc pc_pnl)
  need_take_pnl_coin ← unwrap (Word.checked_add 64 amm.state_data.need_take_pnl_coin coin_pnl)
  pc' ← unwrap (Word.checked_sub pc pc_pnl)
  coin' ← unwrap (Word.checked_sub coin coin_pnl)
  ok (record {
    amm = record amm {
      state_data = record (amm.state_data) {
        total_pnl_pc = total_pnl_pc;
        total_pnl_coin = total_pnl_coin;
        need_take_pnl_pc = need_take_pnl_pc;
        need_take_pnl_coin = need_take_pnl_coin;
      };
    };
    total_pc_without_take_pnl = pc';
    total_coin_without_take_pnl = coin';
    delta_x = delta_x;
    delta_y = delta_y;
  })

module _ ⦃uint : Uint⦄ where
  -- `diff * pnl_numerator / pnl_denominator`
  unfoldable pub pnl_share : AmmInfo → ℕ → Outcome ℕ
  pnl_share amm diff = do
    product ← mul128 diff amm.fees.pnl_numerator
    div128 product amm.fees.pnl_denominator

  -- Profit is taken only if the owner's share is positive in both tokens.
  unfoldable pub settle_pnl : AmmInfo → ℕ → ℕ → ℕ → ℕ → ℕ → ℕ → ℕ → ℕ → Outcome TakenPnl
  settle_pnl amm pc coin diff_pc_pnl_amount diff_coin_pnl_amount pc_pnl_amount coin_pnl_amount
        delta_x delta_y =
      if not (pc_pnl_amount == 0) && not (coin_pnl_amount == 0)
      then (do
        diff_pc ← as_u64 diff_pc_pnl_amount
        diff_coin ← as_u64 diff_coin_pnl_amount
        save_pnl amm pc coin diff_pc diff_coin pc_pnl_amount coin_pnl_amount delta_x delta_y)
      else ok (record {
        amm = amm;
        total_pc_without_take_pnl = pc;
        total_coin_without_take_pnl = coin;
        delta_x = 0;
        delta_y = 0;
      })

  -- The branch in which the product of the totals has not fallen; `x1` and `y1` are the normalised
  -- totals of the pool.
  unfoldable pub take_pnl : TargetOrders → AmmInfo → ℕ → ℕ → ℕ → ℕ → Outcome TakenPnl
  take_pnl target amm pc coin x1 y1 = do
    x2_power ← calc_x_power target.calc_pnl_x target.calc_pnl_y x1 y1
    x2y1 ← mul256 (uint.integer_sqrt 256 x2_power) y1
    y2 ← div256 x2y1 x1
    x_diff ← sub256 x1 (uint.integer_sqrt 256 x2_power)
    diff_x ← as_u128 x_diff
    y_diff ← sub256 y1 y2
    diff_y ← as_u128 y_diff
    x_share ← pnl_share amm diff_x
    delta_x ← as_u128 x_share
    y_share ← pnl_share amm diff_y
    delta_y ← as_u128 y_share
    diff_pc_pnl_amount ← restore_decimal diff_x amm.pc_decimals amm.sys_decimal_value
    diff_coin_pnl_amount ← restore_decimal diff_y amm.coin_decimals amm.sys_decimal_value
    pc_share ← pnl_share amm diff_pc_pnl_amount
    pc_pnl_amount ← as_u64 pc_share
    coin_share ← pnl_share amm diff_coin_pnl_amount
    coin_pnl_amount ← as_u64 coin_share
    settle_pnl amm pc coin diff_pc_pnl_amount diff_coin_pnl_amount pc_pnl_amount coin_pnl_amount
        delta_x delta_y

  unfoldable pub calc_take_pnl : TargetOrders → AmmInfo → ℕ → ℕ → ℕ → ℕ → Outcome TakenPnl
  calc_take_pnl target amm pc coin x1 y1 = do
    calc_pc_amount ← restore_decimal target.calc_pnl_x amm.pc_decimals amm.sys_decimal_value
    calc_coin_amount ← restore_decimal target.calc_pnl_y amm.coin_decimals amm.sys_decimal_value
    pool_product ← mul128 pc coin
    calc_product ← mul128 calc_pc_amount calc_coin_amount
    (if leb calc_product pool_product
        then take_pnl target amm pc coin x1 y1
        else fail AmmError.calc_pnl_error)
