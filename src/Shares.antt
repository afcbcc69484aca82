-- ===== src/Shares.antt =====
-- The abstract view of a pool, which forgets how the program represents it: what it holds of both tokens
-- and how many pool tokens there are. An operation of a user is a step that is bounded only by what it
-- may take; the instructions of the program implement it (`Refinement`).
pub mod Refinement
pub mod Value
use native.Mathlib.Nat.{mul-le-mul_right, mul-le-mul}
use raydium_amm.Prelude.{ℕ, ◌<◌, ◌*◌, ◌≤◌, arith, ◌+◌, ◌-◌}

-- What belongs to the holders of the pool tokens, in the vaults and in the order book.
pub record Holdings : Type 0 where
  pub pc : ℕ
  pub coin : ℕ
  pub lp : ℕ

-- A swap, a deposit and a withdrawal: a swap keeps the product of the holdings, a deposit mints at most
-- its part of the pool in both tokens, a withdrawal leaves at least their part to the other tokens.
infix 4 ◌⟶◌
pub data ◌⟶◌ : Holdings → Holdings → Type 0 where
  swapped :
      (pc coin pc' coin' lp : ℕ)
      → pc * coin ≤ pc' * coin'
      → record { pc = pc; coin = coin; lp = lp } ⟶ record { pc = pc'; coin = coin'; lp = lp }
  deposited :
      (pc coin lp more_pc more_coin minted : ℕ)
      → 0 < lp
      → minted * pc ≤ lp * more_pc
      → minted * coin ≤ lp * more_coin
      → record { pc = pc; coin = coin; lp = lp }
        ⟶ record { pc = pc + more_pc; coin = coin + more_coin; lp = lp + minted }
  withdrawn :
      (pc coin lp out_pc out_coin burnt : ℕ)
      → burnt < lp
      → out_pc ≤ pc
      → out_coin ≤ coin
      → pc * (lp - burnt) ≤ (pc - out_pc) * lp
      → coin * (lp - burnt) ≤ (coin - out_coin) * lp
      → record { pc = pc; coin = coin; lp = lp }
        ⟶ record { pc = pc - out_pc; coin = coin - out_coin; lp = lp - burnt }

-- A pool token is worth at least as much as before: the product of the holdings over the square of the
-- number of pool tokens has not fallen, multiplied out.
abbrev pub IsWorth : Holdings → Holdings → Type 0
IsWorth a b = a.pc * a.coin * (b.lp * b.lp) ≤ b.pc * b.coin * (a.lp * a.lp)

-- Two proportional changes multiply.
product_worth :
    (pc coin lp pc' coin' lp' : ℕ)
    → pc * lp' ≤ pc' * lp
    → coin * lp' ≤ coin' * lp
    → pc * coin * (lp' * lp') ≤ pc' * coin' * (lp * lp)
product_worth pc coin lp pc' coin' lp' h h' = let both = mul-le-mul h h' in omega arith

-- No step lowers the value of a pool token.
pub step-IsWorth : {a b : Holdings} → a ⟶ b → 0 < a.lp → (0 < b.lp) × IsWorth a b
step-IsWorth (swapped pc coin pc' coin' lp keeps) pos = (pos, mul-le-mul_right (lp * lp) keeps)
step-IsWorth (deposited pc coin lp more_pc more_coin minted p fair_pc fair_coin) pos = (
  omega arith,
  product_worth pc coin lp (pc + more_pc) (coin + more_coin) (lp + minted) (omega arith)
      (omega arith),
)
step-IsWorth (withdrawn pc coin lp out_pc out_coin burnt less le_pc le_coin fair_pc fair_coin) pos =
    (
      omega arith,
      product_worth pc coin lp (pc - out_pc) (coin - out_coin) (lp - burnt) fair_pc fair_coin,
    )
