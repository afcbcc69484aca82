-- ===== src/Math/Exchange.antt =====
-- `InvariantToken` and `InvariantPool`: proportional exchange with a rounding direction.
pub mod Laws
use raydium_amm.Prelude.{ℕ, Outcome, ◌>>=◌, ok, unwrap}
use raydium_amm.Uint.{Uint, mul128, div128, as_u64}
use raydium_amm.Math.CeilDiv.{checked_ceil_div}

-- `enum RoundDirection`
pub data RoundDirection : Type 0 where
  floor ceiling : RoundDirection

-- `struct InvariantToken`
pub record InvariantToken : Type 0 where
  pub token_coin : ℕ
  pub token_pc : ℕ

-- `struct InvariantPool`
pub record InvariantPool : Type 0 where
  pub token_input : ℕ
  pub token_total : ℕ

-- Every exchange returns `Some` of its value, or panics; the `Some` is left out.
module _ ⦃uint : Uint⦄ where
  unfoldable pub exchange_coin_to_pc : InvariantToken → ℕ → RoundDirection → Outcome ℕ
  exchange_coin_to_pc self token_coin RoundDirection.floor = do
    product ← mul128 token_coin self.token_pc
    quotient ← div128 product self.token_coin
    as_u64 quotient
  exchange_coin_to_pc self token_coin RoundDirection.ceiling = do
    product ← mul128 token_coin self.token_pc
    pair ← unwrap (checked_ceil_div product self.token_coin)
    as_u64 (pair.0)

  unfoldable pub exchange_pc_to_coin : InvariantToken → ℕ → RoundDirection → Outcome ℕ
  exchange_pc_to_coin self token_pc RoundDirection.floor = do
    product ← mul128 token_pc self.token_coin
    quotient ← div128 product self.token_pc
    as_u64 quotient
  exchange_pc_to_coin self token_pc RoundDirection.ceiling = do
    product ← mul128 token_pc self.token_coin
    pair ← unwrap (checked_ceil_div product self.token_pc)
    as_u64 (pair.0)

  unfoldable pub exchange_pool_to_token : InvariantPool → ℕ → RoundDirection → Outcome ℕ
  exchange_pool_to_token self token_total_amount RoundDirection.floor = do
    product ← mul128 token_total_amount self.token_input
    quotient ← div128 product self.token_total
    as_u64 quotient
  exchange_pool_to_token self token_total_amount RoundDirection.ceiling = do
    product ← mul128 token_total_amount self.token_input
    pair ← unwrap (checked_ceil_div product self.token_total)
    as_u64 (pair.0)

  unfoldable pub exchange_token_to_pool : InvariantPool → ℕ → RoundDirection → Outcome ℕ
  exchange_token_to_pool self pool_total_amount RoundDirection.floor = do
    product ← mul128 pool_total_amount self.token_input
    quotient ← div128 product self.token_total
    as_u64 quotient
  exchange_token_to_pool self pool_total_amount RoundDirection.ceiling = do
    product ← mul128 pool_total_amount self.token_input
    pair ← unwrap (checked_ceil_div product self.token_total)
    as_u64 (pair.0)
