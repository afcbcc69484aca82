-- ===== src/Liquidity/Withdraw/Laws.antt =====
-- What a withdrawal does.
use raydium_amm.Swap.Steps.{ensured}
use raydium_amm.Liquidity.Deposit.Laws.{three_positive}
use raydium_amm.Math.Exchange.Laws.{pool_to_token_greatest}
use raydium_amm.State.Orders.{TargetOrders}
use raydium_amm.Math.Exchange.{exchange_pool_to_token, RoundDirection}
use raydium_amm.Prelude.Word
use raydium_amm.Liquidity.Pool.{LiquidityRuntime, LiquidityResult, Settled}
use raydium_amm.Prelude.Word.{IsWord}
use raydium_amm.Instruction.Types.{WithdrawInstruction}
use raydium_amm.Prelude.{
  ℕ, ◌≤◌, Option, unwrap, ltb, not, ◌<◌, ◌&&◌, ◌*◌, ◌-◌, ◌≡◌, ◌↔◌, true, some, ok, arith, Ensures,
  ensures_value, ◌+◌, ◌++◌, subst, bind-Ensures, none, ok-injective, of_ok, sym, refl, ◌∙◌, skip,
}
use raydium_amm.Uint.{Uint}
use raydium_amm.Liquidity.Withdraw.{
  WithdrawPool, below_minimums, finish_withdraw, withdraw_state, withdraw_calls,
}

-- `out` is the largest payment from `total` that leaves the other pool tokens their part:
-- `total / lp ≤ (total - out) / (lp - amount)`, multiplied out.
abbrev pub IsShare : (amount lp total out : ℕ) → Type 0
IsShare amount lp total out =
    (out ≤ total) × ((o : ℕ) → o ≤ total → (total * (lp - amount) ≤ (total - o) * lp) ↔ (o ≤ out))

-- The user gets the share of the pool tokens in both tokens.
pub record IsWithdraw (p : WithdrawPool) (withdraw : WithdrawInstruction) (r : LiquidityResult)
    : Type 0 where
  pub coin : ℕ
  pub pc : ℕ
  pub amount_pos : 0 < withdraw.amount
  pub coin_pos : 0 < coin
  pub pc_pos : 0 < pc
  pub coin_share :
      IsShare withdraw.amount p.settled.taken.amm.lp_amount
        p.settled.taken.total_coin_without_take_pnl coin
  pub pc_share :
      IsShare withdraw.amount p.settled.taken.amm.lp_amount
        p.settled.taken.total_pc_without_take_pnl pc
  pub coin_vault : coin < p.coin_vault_amount
  pub pc_vault : pc < p.pc_vault_amount
  pub above :
      (min_coin min_pc : ℕ)
      → withdraw.min_coin_amount ≡ some min_coin
      → withdraw.min_pc_amount ≡ some min_pc
      → (min_coin ≤ coin) × (min_pc ≤ pc)
  pub lp_after : r.amm.lp_amount + withdraw.amount ≡ p.settled.taken.amm.lp_amount
  pub calls : r.calls ≡ p.book_calls ++ withdraw_calls coin pc withdraw.amount

above_minimums :
    (a b : Option ℕ) (coin pc min_coin min_pc : ℕ)
    → not (below_minimums a b coin pc) ≡ true
    → a ≡ some min_coin
    → b ≡ some min_pc
    → (min_coin ≤ coin) × (min_pc ≤ pc)
unfolding below_minimums
above_minimums (some m) (some n) coin pc min_coin min_pc h e e' = ground arith
above_minimums (some m) none coin pc min_coin min_pc h e e' = cc
above_minimums none b coin pc min_coin min_pc h e e' = cc

both_lt : (a b c d : ℕ) → (ltb a b && ltb c d) ≡ true → (a < b) × (c < d)
both_lt a b c d h = ground arith

subtracted : (a b : ℕ) {n : ℕ} → unwrap (Word.checked_sub a b) ≡ ok n → n + b ≡ a
subtracted a b h = ground arith

module _ ⦃uint : Uint⦄ where
  withdraw_state-lp :
      (runtime : LiquidityRuntime) (settled : Settled) (target : TargetOrders) (coin pc lp : ℕ)
      → Ensures
          (λ (amm, _). amm.lp_amount + lp ≡ settled.taken.amm.lp_amount)
          (withdraw_state runtime settled target coin pc lp)
  unfolding withdraw_state
  withdraw_state-lp runtime settled target coin pc lp = bind-Ensures _ _ (λ left e_left.
      skip _ _ (λ x.
        skip _ _
          (λ y. skip _ _ (λ epoch. of_ok (subtracted settled.taken.amm.lp_amount lp e_left)))))

  paid-IsShare :
      (amount lp total : ℕ) {out : ℕ}
      → IsWord 64 amount
      → IsWord 64 total
      → 0 < amount
      → amount ≤ lp
      → exchange_pool_to_token
          (record { token_input = amount; token_total = lp })
          total
          RoundDirection.floor
        ≡ ok out
      → IsShare amount lp total out
  paid-IsShare amount lp total {out} ha ht pos le h =
      let (best, runs, share_le, greatest) =
        pool_to_token_greatest amount lp total ha ht (omega arith) le in
      subst (IsShare amount lp total) (ok-injective best out (sym runs ∙ h)) (share_le, greatest)

  -- From 64-bit totals and a 64-bit amount, a withdrawal that succeeds is one (`IsWithdraw`): the amount
  -- is positive and is what the count of the pool tokens falls by; it pays positive sums that the vaults
  -- exceed, each the largest that leaves the other pool tokens their part of the pool, and at least the
  -- minimums where both are given; and after the order book's calls come the two transfers and the
  -- burning of exactly these amounts.
  pub finish_withdraw-IsWithdraw :
      (runtime : LiquidityRuntime) (p : WithdrawPool) (withdraw : WithdrawInstruction)
      {r : LiquidityResult}
      → IsWord 64 withdraw.amount
      → IsWord 64 p.settled.taken.total_coin_without_take_pnl
      → IsWord 64 p.settled.taken.total_pc_without_take_pnl
      → finish_withdraw runtime p withdraw ≡ ok r
      → IsWithdraw p withdraw r
  unfolding finish_withdraw
  finish_withdraw-IsWithdraw runtime p withdraw ha hc hp =
      ensures_value {P = IsWithdraw p withdraw} (finish_withdraw runtime p withdraw) (
        bind-Ensures _ _ (λ coin e_coin. bind-Ensures _ _ (λ pc e_pc. bind-Ensures _ _ (λ _ e_input.
          bind-Ensures _ _ (λ _ e_vaults. bind-Ensures _ _ (λ _ e_min.
            bind-Ensures _ _ (λ (amm, target) e_state.
              let (amount_pos, coin_pos, pc_pos) =
                three_positive withdraw.amount coin pc (ensured _ _ e_input) in
              let (coin_vault, pc_vault) =
                both_lt coin p.coin_vault_amount pc p.pc_vault_amount (ensured _ _ e_vaults) in
              let left : amm.lp_amount + withdraw.amount ≡ p.settled.taken.amm.lp_amount =
                ensures_value
                  {P = λ (amm, _). amm.lp_amount + withdraw.amount ≡ p.settled.taken.amm.lp_amount}
                  _ (withdraw_state-lp runtime p.settled p.target_orders coin pc withdraw.amount)
                  e_state in
              of_ok (record {
                coin = coin;
                pc = pc;
                amount_pos = amount_pos;
                coin_pos = coin_pos;
                pc_pos = pc_pos;
                coin_share = paid-IsShare _ _ _ ha hc amount_pos (omega arith) e_coin;
                pc_share = paid-IsShare _ _ _ ha hp amount_pos (omega arith) e_pc;
                coin_vault = coin_vault;
                pc_vault = pc_vault;
                above = λ m n e e'.
                    above_minimums withdraw.min_coin_amount withdraw.min_pc_amount coin pc m n
                      (ensured _ _ e_min) e e';
                lp_after = left;
                calls = refl;
              }))))))))
