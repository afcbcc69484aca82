-- ===== src/Math/Decimal.antt =====
-- The conversions of `Calculator` between native amounts, normalised amounts and the units of the
-- order book.
pub mod Laws
use raydium_amm.Prelude.{
  ℕ, ◌+◌, ◌*◌, ◌/◌, Outcome, ◌>>=◌, ok, fail, unwrap, unwrap_result, ok_or, if◌then◌else◌, ltb, ◌^◌,
}
use raydium_amm.Prelude.Word
use raydium_amm.Uint.{Uint, mul128, div128, pow128, as_u128}
use raydium_amm.Errors.{AmmError}

-- `Calculator::to_u128` and `Calculator::to_u64`
unfoldable pub to_u128 : ℕ → Outcome ℕ
to_u128 val = ok_or (Word.fit 128 val) AmmError.conversion_failure

unfoldable pub to_u64 : ℕ → Outcome ℕ
to_u64 val = ok_or (Word.fit 64 val) AmmError.conversion_failure

-- `Self::to_u64(val).unwrap()`
unfoldable pub unwrap_u64 : ℕ → Outcome ℕ
unfolding to_u64
unwrap_u64 val = unwrap_result (to_u64 val)

module _ ⦃uint : Uint⦄ where
  unfoldable pub calc_x_power : ℕ → ℕ → ℕ → ℕ → Outcome ℕ
  calc_x_power last_x last_y current_x current_y = do
    last_k ← unwrap (uint.checked_mul 256 last_x last_y)
    product ← unwrap (uint.checked_mul 256 last_k current_x)
    unwrap (uint.checked_div 256 product current_y)

  unfoldable pub normalize_decimal_v2 : ℕ → ℕ → ℕ → Outcome ℕ
  normalize_decimal_v2 val native_decimal sys_decimal_value = do
    ret_mut ← mul128 val sys_decimal_value
    scale ← pow128 10 native_decimal
    div128 ret_mut scale

  unfoldable pub normalize_decimal : ℕ → ℕ → ℕ → Outcome ℕ
  normalize_decimal val native_decimal sys_decimal_value = do
    ret_mut ← mul128 val sys_decimal_value
    scale ← pow128 10 native_decimal
    quotient ← div128 ret_mut scale
    quotient' ← as_u128 quotient
    unwrap_u64 quotient'

  unfoldable pub restore_decimal : ℕ → ℕ → ℕ → Outcome ℕ
  restore_decimal val native_decimal sys_decimal_value = do
    scale ← pow128 10 native_decimal
    ret_mut ← mul128 val scale
    div128 ret_mut sys_decimal_value

  -- `*` on `U128` panics on overflow, `/` on a divisor of zero, as the checked forms do.
  unfoldable pub convert_out_pc_lot_size : ℕ → ℕ → ℕ → ℕ → ℕ → Outcome ℕ
  convert_out_pc_lot_size pc_decimals coin_decimals pc_lot_size coin_lot_size sys_decimal_value = do
    lots ← mul128 pc_lot_size coin_lot_size
    pc_scale ← pow128 10 pc_decimals
    numerator ← mul128 lots pc_scale
    coin_scale ← pow128 10 coin_decimals
    denominator ← mul128 sys_decimal_value coin_scale
    quotient ← div128 numerator denominator
    quotient' ← as_u128 quotient
    unwrap_u64 quotient'

  unfoldable pub convert_in_pc_lot_size : ℕ → ℕ → ℕ → ℕ → ℕ → Outcome ℕ
  convert_in_pc_lot_size pc_decimals coin_decimals pc_lot_size coin_lot_size sys_decimal_value = do
    scaled ← mul128 pc_lot_size sys_decimal_value
    coin_scale ← pow128 10 coin_decimals
    numerator ← mul128 scaled coin_scale
    pc_scale ← pow128 10 pc_decimals
    denominator ← mul128 coin_lot_size pc_scale
    quotient ← div128 numerator denominator
    quotient' ← as_u128 quotient
    unwrap_u64 quotient'

  unfoldable pub convert_in_vol : ℕ → ℕ → ℕ → ℕ → Outcome ℕ
  convert_in_vol val coin_decimal coin_lot_size sys_decimal_value = do
    lots ← mul128 val coin_lot_size
    scaled ← mul128 lots sys_decimal_value
    coin_scale ← pow128 10 coin_decimal
    volume ← div128 scaled coin_scale
    volume' ← as_u128 volume
    unwrap_u64 volume'

  unfoldable pub convert_vol_out : ℕ → ℕ → ℕ → ℕ → Outcome ℕ
  convert_vol_out val coin_decimal coin_lot_size sys_decimal_value = do
    coin_scale ← pow128 10 coin_decimal
    scaled ← mul128 val coin_scale
    denominator ← mul128 coin_lot_size sys_decimal_value
    volume ← div128 scaled denominator
    volume' ← as_u128 volume
    unwrap_u64 volume'
