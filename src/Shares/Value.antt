-- ===== src/Shares/Value.antt =====
-- The value of a pool token over any sequence of runs.
use raydium_amm.Liquidity.Pool.{settle}
use raydium_amm.Pnl.Laws.{PnlStep, calc_take_pnl-Step, PnlStep-lp}
use native.Mathlib.Nat.{mul-le-mul_right, mul-pos, le_of_mul-le-mul_right, mul-le-mul}
use raydium_amm.Pnl.{TakenPnl, calc_take_pnl}
use raydium_amm.Shares.Refinement.{◌⇒◌, run-step, settled_holdings}
use raydium_amm.State.Amm.{AmmInfo}
use raydium_amm.State.Orders.{TargetOrders}
use raydium_amm.Prelude.{
  ℕ, ◌≡◌, ◌*◌, ◌<◌, ◌≤◌, arith, ok, ensures_value, inl, inr, Ensures, skip, bind-Ensures, of_ok,
}
use raydium_amm.Shares.{Holdings, IsWorth, step-IsWorth}
use raydium_amm.Uint.{Uint}

module _ ⦃uint : Uint⦄ where
  -- The profit calculation sets the owner's share aside, from the holdings `a` to the holdings `b`.
  pub data SetsAside : Holdings → Holdings → Type 0 where
    set_aside :
        (target : TargetOrders) (amm : AmmInfo) (pc coin x1 y1 : ℕ) (r : TakenPnl)
        → calc_take_pnl target amm pc coin x1 y1 ≡ ok r
        → SetsAside
            (record { pc = pc; coin = coin; lp = amm.lp_amount })
            (record {
              pc = r.total_pc_without_take_pnl;
              coin = r.total_coin_without_take_pnl;
              lp = r.amm.lp_amount;
            })

  -- So do `process_deposit`, `process_withdraw` and `process_withdrawpnl`, from the totals that they read.
  settle-SetsAside :
      (target : TargetOrders) (amm : AmmInfo) (pc coin : ℕ)
      → Ensures
          (λ s.
            SetsAside (record { pc = pc; coin = coin; lp = amm.lp_amount }) (settled_holdings s))
          (settle target amm (pc, coin))
  unfolding settle
  settle-SetsAside target amm pc coin = skip _ _ (λ x1. skip _ _ (λ y1. skip _ _ (λ x1'.
      skip _ _ (λ y1'.
        bind-Ensures _ _ (λ taken e. of_ok (set_aside target amm pc coin x1' y1' taken e))))))

  -- Runs of the instructions and profit calculations in any order. `whole` and `left` are the products of the
  -- holdings before and after each of the profit calculations, multiplied.
  pub data Runs (a : Holdings) : Holdings → (whole left : ℕ) → Type 0 where
    no_run : Runs a a 1 1
    then_run : {b c : Holdings} {whole left : ℕ} → Runs a b whole left → b ⇒ c → Runs a c whole left
    then_aside :
        {b c : Holdings} {whole left : ℕ}
        → Runs a b whole left
        → SetsAside b c
        → Runs a c (whole * (b.pc * b.coin)) (left * (c.pc * c.coin))

  -- The value of a pool token has fallen at most from `whole` to `left`.
  abbrev pub IsWorthBut : Holdings → Holdings → (whole left : ℕ) → Type 0
  IsWorthBut a b whole left =
      a.pc * a.coin * (b.lp * b.lp) * left ≤ b.pc * b.coin * (a.lp * a.lp) * whole

  IsWorthBut-step :
      (a b c : Holdings) (whole left : ℕ)
      → 0 < b.lp
      → IsWorthBut a b whole left
      → IsWorth b c
      → IsWorthBut a c whole left
  IsWorthBut-step a b c whole left pos h k =
      let square : 0 < b.lp * b.lp = mul-pos pos pos in
      let first = mul-le-mul_right (c.lp * c.lp) h in
      let second = mul-le-mul_right (a.lp * a.lp * whole) k in
      le_of_mul-le-mul_right {k = b.lp * b.lp} (omega arith) square

  -- Pool tokens stay, and no holdings grow.
  SetsAside-less :
      {b c : Holdings} → SetsAside b c → (c.lp ≡ b.lp) × (c.pc * c.coin ≤ b.pc * b.coin)
  SetsAside-less (set_aside target amm pc coin x1 y1 r e) =
      let step =
        ensures_value {P = PnlStep amm pc coin} _ (calc_take_pnl-Step target amm pc coin x1 y1) e in
      (
        PnlStep-lp amm pc coin r step,
        elim step [
          | inl untaken ↦ mul-le-mul (same-le untaken.same_pc) (same-le untaken.same_coin)
          | inr taken ↦ mul-le-mul (lt-le taken.pc_left) (lt-le taken.coin_left)
        ],
      )
    where
      same-le : {m n : ℕ} → m ≡ n → m ≤ n
      same-le h = omega arith

      lt-le : {m n : ℕ} → m < n → m ≤ n
      lt-le h = omega arith

  aside_worth :
      (a b c : Holdings) (whole left : ℕ)
      → IsWorthBut a b whole left
      → a.pc * a.coin * (b.lp * b.lp) * (left * (c.pc * c.coin))
        ≤ c.pc * c.coin * (a.lp * a.lp) * (whole * (b.pc * b.coin))
  aside_worth a b c whole left h = let scaled = mul-le-mul_right (c.pc * c.coin) h in omega arith

  -- Through any sequence of successful swaps, deposits and withdrawals (as `run-step` describes them) and of
  -- profit calculations, each from the holdings that the one before left, a pool that has pool tokens keeps some, and only the profit calculations lower the value of a pool
  -- token (the product of the holdings over the square of the number of pool tokens): it falls by no more
  -- than the product of the holdings falls in them, from `whole` to `left` altogether.
  pub Runs-IsWorth :
      {a b : Holdings} {whole left : ℕ}
      → Runs a b whole left
      → 0 < a.lp
      → (0 < b.lp) × (left ≤ whole) × IsWorthBut a b whole left
  Runs-IsWorth {a} no_run pos = (pos, omega arith, omega arith)
  Runs-IsWorth {a} (then_run {b} {c} {whole} {left} runs run) pos =
      let (mid, less, worth) = Runs-IsWorth runs pos in
      let (pos', worth') = step-IsWorth (run-step run) mid in
      (pos', less, IsWorthBut-step a b c whole left mid worth worth')
  Runs-IsWorth {a} (then_aside {b} {c} {whole} {left} runs aside) pos =
      let (mid, less, worth) = Runs-IsWorth runs pos in
      let (same, smaller) = SetsAside-less aside in
      (rw same mid, mul-le-mul less smaller, rw same (aside_worth a b c whole left worth))
