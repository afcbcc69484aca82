-- ===== src/Swap/Fair.antt =====
-- What a swap does to a pool, in terms of the amounts paid in and out.
use raydium_amm.Swap.Book.{IsBook}
use raydium_amm.Prelude.{ℕ, ◌+◌, ◌-◌, ◌≤◌, ◌<◌, ◌≡◌, ◌++◌, List}
use raydium_amm.State.Amm.{AmmInfo}
use raydium_amm.Math.Swap.{SwapDirection}
use raydium_amm.Math.Swap.Laws.{reserve_in, reserve_out, KeepsProduct}
use raydium_amm.Swap.Accounts.{Call, SwapResult}
use raydium_amm.Swap.Prepare.{Prepared}
use raydium_amm.Swap.BaseIn.{transfer_calls}

-- The counters that a direction adds to.
abbrev pub counted_in : AmmInfo → SwapDirection → ℕ
counted_in amm SwapDirection.coin_to_pc = amm.state_data.swap_coin_in_amount
counted_in amm SwapDirection.pc_to_coin = amm.state_data.swap_pc_in_amount

abbrev pub counted_out : AmmInfo → SwapDirection → ℕ
counted_out amm SwapDirection.coin_to_pc = amm.state_data.swap_pc_out_amount
counted_out amm SwapDirection.pc_to_coin = amm.state_data.swap_coin_out_amount

abbrev pub counted_fee : AmmInfo → SwapDirection → ℕ
counted_fee amm SwapDirection.coin_to_pc = amm.state_data.swap_acc_coin_fee
counted_fee amm SwapDirection.pc_to_coin = amm.state_data.swap_acc_pc_fee

-- The counters grow by what is paid in, what is paid out and the fee.
abbrev pub Counts : AmmInfo → SwapDirection → ℕ → ℕ → ℕ → AmmInfo → Type 0
Counts amm d paid out fee amm' =
    (counted_in amm' d ≡ counted_in amm d + paid)
    × (counted_out amm' d ≡ counted_out amm d + out)
    × (counted_fee amm' d ≡ counted_fee amm d + fee)

-- The user pays `paid`, of which `fee` stays in the pool, and receives `out`: both are positive, the
-- user has the one, the pool has more than the other; the product of the reserves does not fall even
-- if the fee is left out; the counters have the three amounts, and after calls of the order book the last
-- two calls transfer what is paid into the pool and what is paid out of it.
pub record IsSwap (p : Prepared) (paid fee out : ℕ) (r : SwapResult) : Type 0 where
  pub paid_pos : 0 < paid
  pub out_pos : 0 < out
  pub paid_le : paid ≤ p.user_source_amount
  pub fee_le : fee ≤ paid
  pub out_lt :
      out < reserve_out p.total_pc_without_take_pnl p.total_coin_without_take_pnl p.swap_direction
  pub keeps_product :
      KeepsProduct
        (reserve_in p.total_pc_without_take_pnl p.total_coin_without_take_pnl p.swap_direction)
        (reserve_out p.total_pc_without_take_pnl p.total_coin_without_take_pnl p.swap_direction)
        (paid - fee)
        out
  pub counts : Counts p.amm p.swap_direction paid out fee r.amm
  pub transfers :
      (book : List Call) × IsBook book
      × (r.calls ≡ book ++ transfer_calls p.swap_direction paid out)
