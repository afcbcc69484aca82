-- ===== src/Simulation/Empty.antt =====
-- A pool without coin, in the simulation of the order plan.
use raydium_amm.Simulation.Laws.{panics_after}
use raydium_amm.State.Amm.{AmmInfo}
use raydium_amm.Simulation.RunCrank.{crank_idle, has_lost, price_out_of_range, CrankPool}
use raydium_amm.Prelude.{
  ℕ, ◌>>=◌, ◌≡◌, Bool, panic, refl, Outcome, ltb, ◌&&◌, ◌==◌, Option, unwrap, ok, some, none,
}
use raydium_amm.Uint.{Uint, div128}

two_steps :
    (first second : Option ℕ) (g : ℕ → ℕ → Bool) (f : Bool → Outcome Bool)
    → ((b : Bool) → f b ≡ panic)
    → (unwrap first >>= (λ a. unwrap second >>= (λ b. ok (g a b))) >>= f) ≡ panic
unfolding ◌>>=◌
two_steps none second g f h = refl
two_steps (some a) none g f h = refl
two_steps (some a) (some b) g f h = h (g a b)

module _ ⦃uint : Uint⦄ where
  by_zero : (a : ℕ) → div128 a 0 ≡ panic
  by_zero a = rw (uint.div_law 128 a 0) refl

  price-panic : (amm : AmmInfo) (p : CrankPool) → p.y ≡ 0 → price_out_of_range amm p ≡ panic
  unfolding price_out_of_range ◌>>=◌
  price-panic amm p empty =
      panics_after (uint.checked_mul 128 p.x amm.sys_decimal_value) _
        (λ scaled _. rw empty (rw (by_zero scaled) refl))

  -- The loss is computed, or panics.
  has_lost-then :
      (p : CrankPool) (f : Bool → Outcome Bool)
      → ((b : Bool) → f b ≡ panic)
      → (has_lost p >>= f) ≡ panic
  unfolding has_lost ◌>>=◌
  has_lost-then p f h =
      two_steps (uint.checked_mul 128 p.x p.y)
        (uint.checked_mul 128 p.target.calc_pnl_x p.target.calc_pnl_y)
        (λ product last. ltb product last && (p.bids == 0 && p.asks == 0)) f h

  -- Where the normalised total of coin is 0, the simulation of the idle state has no answer: it panics,
  -- although the code means to answer that no step is due.
  pub crank_idle_panics : (amm : AmmInfo) (p : CrankPool) → p.y ≡ 0 → crank_idle amm p ≡ panic
  unfolding crank_idle ◌>>=◌
  crank_idle_panics amm p empty = has_lost-then p _ (λ lost. rw (price-panic amm p empty) refl)
