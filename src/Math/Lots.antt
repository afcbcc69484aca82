-- ===== src/Math/Lots.antt =====
-- `Calculator::floor_lot`, `ceil_lot` and the price conversions: multiples of a lot.
pub mod Laws
use raydium_amm.Prelude.{ℕ, Outcome, ◌>>=◌, unwrap}
use raydium_amm.Prelude.Word
use raydium_amm.Math.CeilDiv.{checked_ceil_div_u128}
use raydium_amm.Math.Decimal.{unwrap_u64}

unfoldable pub floor_lot : ℕ → ℕ → Outcome ℕ
floor_lot val lot_size = do
  unit ← unwrap (Word.checked_div val lot_size)
  unwrap (Word.checked_mul 64 unit lot_size)

unfoldable pub ceil_lot : ℕ → ℕ → Outcome ℕ
ceil_lot val lot_size = do
  pair ← unwrap (checked_ceil_div_u128 val lot_size)
  unit ← unwrap_u64 (pair.0)
  unwrap (Word.checked_mul 64 unit lot_size)

unfoldable pub convert_in_price : ℕ → ℕ → Outcome ℕ
convert_in_price val pc_lot_size = unwrap (Word.checked_mul 64 val pc_lot_size)

unfoldable pub convert_price_out : ℕ → ℕ → Outcome ℕ
convert_price_out val pc_lot_size = unwrap (Word.checked_div val pc_lot_size)
