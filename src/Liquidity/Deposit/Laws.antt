-- ===== src/Liquidity/Deposit/Laws.antt =====
-- What a deposit does.
use raydium_amm.Swap.Accounts.{Call, Vault}
use raydium_amm.State.Orders.{TargetOrders}
use raydium_amm.Liquidity.Pool.{LiquidityRuntime, LiquidityResult, Settled}
use raydium_amm.Swap.Steps.{leb-value, ensured, added}
use raydium_amm.Math.Exchange.Laws.{
  token_to_pool_fair, coin_to_pc-IsCharge, pc_to_coin-IsCharge, charge_covers,
}
use native.Mathlib.Nat.{mul-le-mul_right, mul-le-mul_left, le_of_mul-le-mul_right}
use raydium_amm.Prelude.Word.{IsWord}
use raydium_amm.Instruction.Types.{DepositInstruction}
use raydium_amm.Prelude.{
  ℕ, Option, ◌<◌, ◌+◌, ◌*◌, ◌==◌, ◌≤◌, arith, ◌≡◌, suc, some, false, true, zero, Ensures, none,
  bind-Ensures, of_ok, Bool-cases, leb, not, inl, ◌||◌, ◌&&◌, ok, inr, ensures_value, refl, ◌∷◌, [],
}
use raydium_amm.Uint.{Uint}
use raydium_amm.Liquidity.Deposit.{
  above_minimum, Quote, quote_deposit, finish_deposit, DepositPool, deposit_state, deposit_calls,
}

-- What a proportional charge of the one token mints is proportional for the other as well.
fair_other :
    (lp coin pc total_coin total_pc total_lp : ℕ)
    → 0 < total_coin
    → lp * total_coin ≤ total_lp * coin
    → coin * total_pc ≤ pc * total_coin
    → lp * total_pc ≤ total_lp * pc
fair_other lp coin pc total_coin total_pc total_lp p fair covers =
    let left = mul-le-mul_right total_pc fair in
    let right = mul-le-mul_left total_lp covers in
    le_of_mul-le-mul_right {k = total_coin} (omega arith) p

-- `other_amount_min` bounds what is charged of the token that is not the base.
abbrev pub AboveMinimum : DepositInstruction → Quote → Type 0
AboveMinimum deposit q =
    (minimum : ℕ)
    → deposit.other_amount_min ≡ some minimum
    → (deposit.base_side ≡ 0 → minimum ≤ q.pc) × (0 < deposit.base_side → minimum ≤ q.coin)

-- The charges are within the given bounds, the base side's is the whole of its bound; the pool tokens are, for each
-- token, at most those for which nobody's part of the pool falls.
pub record IsQuote (total_coin total_pc lp_amount : ℕ) (deposit : DepositInstruction) (q : Quote)
    : Type 0 where
  pub coin_le : q.coin ≤ deposit.max_coin_amount
  pub pc_le : q.pc ≤ deposit.max_pc_amount
  pub whole :
      (deposit.base_side ≡ 0 → q.coin ≡ deposit.max_coin_amount)
      × (0 < deposit.base_side → q.pc ≡ deposit.max_pc_amount)
  pub above : AboveMinimum deposit q
  pub coin_fair : 0 < q.coin → 0 < q.pc → q.lp * total_coin ≤ lp_amount * q.coin
  pub pc_fair : 0 < q.coin → 0 < q.pc → q.lp * total_pc ≤ lp_amount * q.pc

above : (m : Option ℕ) (n minimum : ℕ) → above_minimum m n ≡ true → m ≡ some minimum → minimum ≤ n
unfolding above_minimum
above none n minimum h e = cc
above (some k) n minimum h e = ground arith

is_zero : (n : ℕ) → (n == 0) ≡ true → n ≡ 0
is_zero n h = ground arith

not_zero : (n : ℕ) → (n == 0) ≡ false → 0 < n
not_zero n h = ground arith

less : (a b c d : ℕ) → (a + b) * c ≤ a * (c + d) → b * c ≤ a * d
less a b c d h = omega arith

positive_total : (a b n d : ℕ) → a * n < (a + b) * d → 0 < d
positive_total a b n zero h = omega arith
positive_total a b n (suc d) h = omega arith

module _ ⦃uint : Uint⦄ where
  base_coin-IsQuote :
      (C P L : ℕ) (deposit : DepositInstruction)
      → IsWord 64 deposit.max_coin_amount
      → IsWord 64 C
      → IsWord 64 P
      → (deposit.base_side == 0) ≡ true
      → Ensures (IsQuote C P L deposit) (quote_deposit C P L deposit)
  unfolding quote_deposit
  base_coin-IsQuote C P L deposit hm hc hp side = rw side (
      bind-Ensures _ _ (λ pc e_pc. bind-Ensures _ _ (λ _ e_max. bind-Ensures _ _ (λ _ e_min.
        bind-Ensures _ _ (λ lp e_lp.
          let coin = deposit.max_coin_amount in
          let (fair, next) = token_to_pool_fair coin C L e_lp in
          let minted = less L lp C coin fair in
          let total_pos = positive_total L (lp + 1) (C + coin) C (omega arith) in
          let charge =
            coin_to_pc-IsCharge (record { token_coin = C; token_pc = P }) coin hm hc hp total_pos
              e_pc in
          of_ok (record {
            coin_le = omega arith;
            pc_le = leb-value pc deposit.max_pc_amount (ensured _ _ e_max);
            whole = (
              λ _. refl,
              λ positive. let zero_side = is_zero deposit.base_side side in omega arith,
            );
            above = λ minimum e. (
              λ _. above deposit.other_amount_min pc minimum (ensured _ _ e_min) e,
              λ positive. let zero_side = is_zero deposit.base_side side in omega arith,
            );
            coin_fair = λ _ _. minted;
            pc_fair = λ _ pos.
                fair_other lp coin pc C P L total_pos minted
                  (charge_covers (coin * P) C pc pos charge);
          }))))))

  base_pc-IsQuote :
      (C P L : ℕ) (deposit : DepositInstruction)
      → IsWord 64 deposit.max_pc_amount
      → IsWord 64 C
      → IsWord 64 P
      → (deposit.base_side == 0) ≡ false
      → Ensures (IsQuote C P L deposit) (quote_deposit C P L deposit)
  unfolding quote_deposit
  base_pc-IsQuote C P L deposit hm hc hp side = rw side (
      bind-Ensures _ _ (λ coin e_coin. bind-Ensures _ _ (λ _ e_max. bind-Ensures _ _ (λ _ e_min.
        bind-Ensures _ _ (λ lp e_lp.
          let pc = deposit.max_pc_amount in
          let (fair, next) = token_to_pool_fair pc P L e_lp in
          let minted = less L lp P pc fair in
          let total_pos = positive_total L (lp + 1) (P + pc) P (omega arith) in
          let charge =
            pc_to_coin-IsCharge (record { token_coin = C; token_pc = P }) pc hm hc hp total_pos
              e_coin in
          of_ok (record {
            coin_le = leb-value coin deposit.max_coin_amount (ensured _ _ e_max);
            pc_le = omega arith;
            whole = (
              λ zero_side. let positive = not_zero deposit.base_side side in omega arith,
              λ _. refl,
            );
            above = λ minimum e. (
              λ zero_side. let positive = not_zero deposit.base_side side in omega arith,
              λ _. above deposit.other_amount_min coin minimum (ensured _ _ e_min) e,
            );
            coin_fair = λ pos _.
                fair_other lp pc coin P C L total_pos minted
                  (charge_covers (pc * C) P coin pos charge);
            pc_fair = λ _ _. minted;
          }))))))

  quote_deposit-IsQuote :
      (C P L : ℕ) (deposit : DepositInstruction)
      → IsWord 64 deposit.max_coin_amount
      → IsWord 64 deposit.max_pc_amount
      → IsWord 64 C
      → IsWord 64 P
      → Ensures (IsQuote C P L deposit) (quote_deposit C P L deposit)
  quote_deposit-IsQuote C P L deposit hm hm' hc hp = elim (Bool-cases (deposit.base_side == 0)) [
    | inl side ↦ base_coin-IsQuote C P L deposit hm hc hp side
    | inr side ↦ base_pc-IsQuote C P L deposit hm' hc hp side
  ]

-- The user has what is charged, and gets exactly the pool tokens of the quote.
pub record IsDeposit (p : DepositPool) (deposit : DepositInstruction) (r : LiquidityResult)
    : Type 0 where
  pub quote : Quote
  pub coin_pos : 0 < quote.coin
  pub pc_pos : 0 < quote.pc
  pub lp_pos : 0 < quote.lp
  pub is_quote :
      IsQuote p.settled.taken.total_coin_without_take_pnl p.settled.taken.total_pc_without_take_pnl
        p.settled.taken.amm.lp_amount deposit quote
  pub coin_funds : quote.coin ≤ p.user_coin_amount
  pub pc_funds : quote.pc ≤ p.user_pc_amount
  pub lp_before : 0 < p.settled.taken.amm.lp_amount
  pub lp_after : r.amm.lp_amount ≡ p.settled.taken.amm.lp_amount + quote.lp
  pub calls :
      r.calls
      ≡ Call.deposit_to Vault.coin_vault quote.coin
        ∷ Call.deposit_to Vault.pc_vault quote.pc
        ∷ Call.mint_lp quote.lp
        ∷ []

pub three_positive :
    (a b c : ℕ) → not (a == 0 || b == 0 || c == 0) ≡ true → (0 < a) × (0 < b) × (0 < c)
three_positive a b c h = ground arith

both_le : (a b c d : ℕ) → (leb a b && leb c d) ≡ true → (a ≤ b) × (c ≤ d)
both_le a b c d h = ground arith

pub one_positive : (a : ℕ) → not (a == 0) ≡ true → 0 < a
one_positive a h = ground arith

module _ ⦃uint : Uint⦄ where
  deposit_state-lp :
      (runtime : LiquidityRuntime) (settled : Settled) (target : TargetOrders) (q : Quote)
      → Ensures
          (λ (amm, _). amm.lp_amount ≡ settled.taken.amm.lp_amount + q.lp)
          (deposit_state runtime settled target q)
  unfolding deposit_state
  deposit_state-lp runtime settled target q = bind-Ensures _ _ (λ lp e_lp. bind-Ensures _ _ (λ x _.
      bind-Ensures _ _ (λ y _.
        bind-Ensures _ _ (λ epoch _. of_ok (added 64 settled.taken.amm.lp_amount q.lp e_lp)))))

  -- From 64-bit totals and bounds, a deposit that succeeds is one (`IsDeposit`): it charges positive
  -- amounts that the user has and within the bounds given, of the base side exactly its bound; it mints a
  -- positive number of pool tokens, for both tokens no more than the deposit's part of the pool, and
  -- counts them; and its calls are the two transfers and the minting of exactly these amounts.
  pub finish_deposit-IsDeposit :
      (runtime : LiquidityRuntime) (p : DepositPool) (deposit : DepositInstruction)
      {r : LiquidityResult}
      → IsWord 64 deposit.max_coin_amount
      → IsWord 64 deposit.max_pc_amount
      → IsWord 64 p.settled.taken.total_coin_without_take_pnl
      → IsWord 64 p.settled.taken.total_pc_without_take_pnl
      → finish_deposit runtime p deposit ≡ ok r
      → IsDeposit p deposit r
  unfolding finish_deposit deposit_calls
  finish_deposit-IsDeposit runtime p deposit hm hm' hc hp =
      ensures_value {P = IsDeposit p deposit} (finish_deposit runtime p deposit) (
        bind-Ensures _ _ (λ _ e_lp. bind-Ensures _ _ (λ q e_q. bind-Ensures _ _ (λ _ e_funds.
          bind-Ensures _ _ (λ _ e_input. bind-Ensures _ _ (λ (amm, target) e_state.
            let (lp_pos, coin_pos, pc_pos) =
              three_positive q.lp q.coin q.pc (ensured _ _ e_input) in
            let (coin_funds, pc_funds) =
              both_le q.coin p.user_coin_amount q.pc p.user_pc_amount (ensured _ _ e_funds) in
            of_ok (record {
              quote = q;
              coin_pos = coin_pos;
              pc_pos = pc_pos;
              lp_pos = lp_pos;
              is_quote =
                  ensures_value
                    {P = IsQuote p.settled.taken.total_coin_without_take_pnl
                      p.settled.taken.total_pc_without_take_pnl p.settled.taken.amm.lp_amount
                      deposit}
                    _ (quote_deposit-IsQuote _ _ _ deposit hm hm' hc hp) e_q;
              coin_funds = coin_funds;
              pc_funds = pc_funds;
              lp_before = one_positive p.settled.taken.amm.lp_amount (ensured _ _ e_lp);
              lp_after =
                  ensures_value
                    {P = λ (amm, _). amm.lp_amount ≡ p.settled.taken.amm.lp_amount + q.lp} _
                    (deposit_state-lp runtime p.settled p.target_orders q) e_state;
              calls = refl;
            })))))))
