-- ===== src/Tests/Math.antt =====
-- The calculator on a pool of 1,000,000 pc and 2,000,000 coin, and on a scale of 10^9.
use raydium_amm.Prelude.{
  ◌>>=◌, ℕ, ◌+◌, ◌-◌, ◌*◌, ◌^◌, ◌≤◌, ◌<◌, ◌≡◌, ◌↔◌, some, ok, refl, arith, List, length,
}
use raydium_amm.Uint.Reference.{reference}
use raydium_amm.Math.CeilDiv.{checked_ceil_div, checked_ceil_div_u128}
use raydium_amm.Math.CeilDiv.Laws.{IsCeilPair, checked_ceil_div_lem}
use raydium_amm.Math.Swap.{SwapDirection, swap_token_amount_base_in, swap_token_amount_base_out}
use raydium_amm.Math.Swap.Laws.{KeepsProduct, base_in_greatest, base_out_least}
use raydium_amm.Math.Exchange.{
  RoundDirection, exchange_pool_to_token, exchange_coin_to_pc, exchange_pc_to_coin,
  exchange_token_to_pool,
}
use raydium_amm.Math.Exchange.Laws.{
  IsCharge, pool_to_token_greatest, token_to_pool_fair, deposit-IsCharge,
}
use raydium_amm.Math.Decimal.{normalize_decimal_v2, restore_decimal}
use raydium_amm.Math.Decimal.Laws.{restore-normalize}
use raydium_amm.Math.Lots.{floor_lot}
use raydium_amm.Math.Lots.Laws.{floor_lot_total}
use raydium_amm.Math.Fibonacci.{fibonacci}
use raydium_amm.Math.Fibonacci.Laws.{table, fibonacci-table}

checked_ceil_div_example :
    (pair : ℕ × ℕ) × (checked_ceil_div ⦃uint = reference⦄ 1001 10 ≡ some pair)
    × (checked_ceil_div_u128 1001 10 ≡ some pair)
    × IsCeilPair 1001 10 pair
checked_ceil_div_example =
    checked_ceil_div_lem ⦃uint = reference⦄ 1001 10 (omega arith) (omega arith) (omega arith)

base_in_example :
    (out : ℕ) × (swap_token_amount_base_in ⦃uint = reference⦄ 1000 1000000 2000000
        SwapDirection.pc_to_coin
      ≡ ok out)
    × ((o : ℕ) → o ≤ 2000000 → KeepsProduct 1000000 2000000 1000 o ↔ (o ≤ out))
    × (out ≤ 2000000)
base_in_example =
    base_in_greatest ⦃uint = reference⦄ 1000 1000000 2000000 SwapDirection.pc_to_coin (omega arith)
      (omega arith) (omega arith) (omega arith)

base_out_example :
    (paid : ℕ) × (swap_token_amount_base_out ⦃uint = reference⦄ 1000 1000000 2000000
        SwapDirection.coin_to_pc
      ≡ ok paid)
    × (1000000 - 1000 ≤ 2000000 * 1000 * 2
        → (i : ℕ) → KeepsProduct 2000000 1000000 i 1000 ↔ (paid ≤ i))
    × (2000000 * 1000 * 2 < 1000000 - 1000 → paid ≡ 0)
base_out_example =
    base_out_least ⦃uint = reference⦄ 1000 1000000 2000000 SwapDirection.coin_to_pc (omega arith)
      (omega arith) (omega arith)

pool_to_token_example :
    (out : ℕ) × (exchange_pool_to_token ⦃uint = reference⦄
        (record { token_input = 7; token_total = 100 })
        1000003
        RoundDirection.floor
      ≡ ok out)
    × (out ≤ 1000003)
    × ((o : ℕ) → o ≤ 1000003 → (1000003 * (100 - 7) ≤ (1000003 - o) * 100) ↔ (o ≤ out))
pool_to_token_example =
    pool_to_token_greatest ⦃uint = reference⦄ 7 100 1000003 (omega arith) (omega arith)
      (omega arith) (omega arith)

token_to_pool_example :
    ((1000 + 3) * 3000 ≤ 1000 * (3000 + 10)) × (1000 * (3000 + 10) < (1000 + 3 + 1) * 3000)
unfolding exchange_token_to_pool ◌>>=◌
token_to_pool_example = token_to_pool_fair ⦃uint = reference⦄ 10 3000 1000 refl

deposit-IsCharge_example :
    (exchange_coin_to_pc ⦃uint = reference⦄
          (record { token_coin = 300; token_pc = 100 })
          10
          RoundDirection.ceiling
        ≡ ok 4
      → IsCharge (10 * 100) 300 4)
    × (exchange_pc_to_coin ⦃uint = reference⦄
            (record { token_coin = 300; token_pc = 100 })
            10
            RoundDirection.ceiling
          ≡ ok 4
        → IsCharge (10 * 300) 100 4)
deposit-IsCharge_example =
    deposit-IsCharge ⦃uint = reference⦄ (record { token_coin = 300; token_pc = 100 }) 10
      (omega arith) (omega arith) (omega arith) (omega arith) (omega arith)

restore-normalize_example :
    (normalize_decimal_v2 ⦃uint = reference⦄ 123 6 (10 ^ 9) ≡ ok (123 * 1000))
    × (restore_decimal ⦃uint = reference⦄ (123 * 1000) 6 (10 ^ 9) ≡ ok 123)
restore-normalize_example =
    restore-normalize ⦃uint = reference⦄ 123 6 (10 ^ 9) 1000 (omega arith) (omega arith)
      (omega arith) refl

floor_lot_example :
    (unit : ℕ) × (floor_lot 1234 100 ≡ ok (unit * 100))
    × (unit * 100 ≤ 1234)
    × (1234 < unit * 100 + 100)
floor_lot_example = floor_lot_total 1234 100 (omega arith) (omega arith)

fibonacci-table_example :
    (7 ≤ 10 → fibonacci 7 ≡ ok (table 7))
    × ((fb : List ℕ) → fibonacci 7 ≡ ok fb → (fb ≡ table 7) × (length fb ≡ 7))
fibonacci-table_example = fibonacci-table 7
