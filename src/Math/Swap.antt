-- ===== src/Math/Swap.antt =====
-- `Calculator::swap_token_amount_base_in` and `swap_token_amount_base_out`: the constant product
-- curve, without fees.
pub mod Laws
use raydium_amm.Prelude.{ℕ, Outcome, ◌>>=◌, ok, unwrap}
use raydium_amm.Uint.{Uint, add128, sub128, mul128, div128}
use raydium_amm.Math.CeilDiv.{checked_ceil_div}

-- `enum SwapDirection`
pub data SwapDirection : Type 0 where
  pc_to_coin coin_to_pc : SwapDirection

module _ ⦃uint : Uint⦄ where
  -- `pc` and `coin` are `total_pc_without_take_pnl` and `total_coin_without_take_pnl`.
  unfoldable pub swap_token_amount_base_in : ℕ → ℕ → ℕ → SwapDirection → Outcome ℕ
  swap_token_amount_base_in amount_in pc coin SwapDirection.coin_to_pc = do
    denominator ← add128 coin amount_in
    product ← mul128 pc amount_in
    div128 product denominator
  swap_token_amount_base_in amount_in pc coin SwapDirection.pc_to_coin = do
    denominator ← add128 pc amount_in
    product ← mul128 coin amount_in
    div128 product denominator

  unfoldable pub swap_token_amount_base_out : ℕ → ℕ → ℕ → SwapDirection → Outcome ℕ
  swap_token_amount_base_out amount_out pc coin SwapDirection.coin_to_pc = do
    denominator ← sub128 pc amount_out
    product ← mul128 coin amount_out
    pair ← unwrap (checked_ceil_div product denominator)
    ok (pair.0)
  swap_token_amount_base_out amount_out pc coin SwapDirection.pc_to_coin = do
    denominator ← sub128 coin amount_out
    product ← mul128 pc amount_out
    pair ← unwrap (checked_ceil_div product denominator)
    ok (pair.0)
