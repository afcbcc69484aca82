-- ===== src/Math/Fibonacci.antt =====
-- `Calculator::fibonacci`: the table 0, 1, 2, 3, 5, 8, … that spaces the planned orders.
pub mod Laws
use raydium_amm.Prelude.{
  ℕ, zero, suc, ◌+◌, ◌-◌, List, [], ◌∷◌, ◌++◌, Option, some, get_elem?, ◌==◌, if◌then◌else◌,
  Outcome, ◌>>=◌, ok, unwrap,
}
use raydium_amm.Prelude.Word

-- The element that round `i` pushes: an index out of range panics, and so does an overflow of `+`.
fibonacci_elem : List ℕ → ℕ → Outcome ℕ
fibonacci_elem fb i =
    let next = do
      a ← unwrap (get_elem? fb (i - 1))
      b ← unwrap (get_elem? fb (i - 2))
      unwrap (Word.checked_add 64 a b)
    in if i == 0 then ok 0 else if i == 1 then ok 1 else if i == 2 then ok 2 else next

-- The rounds `i ..` of the loop, `n` of them.
fibonacci_loop : ℕ → ℕ → List ℕ → Outcome (List ℕ)
fibonacci_loop zero i fb = ok fb
fibonacci_loop (suc n) i fb = do
  ret ← fibonacci_elem fb i
  fibonacci_loop n (i + 1) (fb ++ ret ∷ [])

unfoldable pub fibonacci : ℕ → Outcome (List ℕ)
unfolding fibonacci_loop fibonacci_elem
fibonacci order_num = fibonacci_loop order_num 0 []
