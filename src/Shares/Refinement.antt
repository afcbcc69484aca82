-- ===== src/Shares/Refinement.antt =====
-- The instructions of the program are steps of the abstract view.
use raydium_amm.State.Loading.{load_amm}
use raydium_amm.State.Amm.{AmmInfo}
use raydium_amm.Liquidity.Ready.{
  DepositFit, prepare_deposit-DepositFit, WithdrawFit, prepare_withdraw-WithdrawFit,
}
use raydium_amm.Swap.BaseOut.Laws.{process_swap_base_out-IsBaseOut}
use raydium_amm.Prelude.Word.{IsWord}
use raydium_amm.Swap.BaseOut.{process_swap_base_out}
use raydium_amm.Swap.BaseIn.Laws.{IsBaseIn, finish_base_in-IsSwap}
use raydium_amm.Uint.{Uint}
use native.Mathlib.Nat.{mul-le-mul_right}
use raydium_amm.Liquidity.Withdraw.Laws.{IsWithdraw, IsShare, finish_withdraw-IsWithdraw}
use raydium_amm.Math.Swap.Laws.{KeepsProduct, reserve_in, reserve_out}
use raydium_amm.Liquidity.Deposit.Laws.{IsDeposit, finish_deposit-IsDeposit}
use raydium_amm.Swap.Fair.{IsSwap}
use raydium_amm.Swap.Book.{IsBook}
use raydium_amm.Math.Swap.{SwapDirection}
use raydium_amm.Instruction.Types.{
  WithdrawInstruction, DepositInstruction, SwapInstructionBaseIn, SwapInstructionBaseOut,
}
use raydium_amm.Liquidity.Fit.{HasWords as LiquidityHasWords}
use raydium_amm.Swap.Ready.{HasWords, PreparedFit, prepare_swap-PreparedFit}
use raydium_amm.Prelude.{
  ◌∷◌, List, ℕ, ◌≤◌, ◌++◌, ◌<◌, ◌≡◌, ◌+◌, ◌-◌, [], refl, arith, subst, sym, ensures_value, ok,
  after_ok,
}
use raydium_amm.Swap.Accounts.{Call, Vault, SwapResult, Runtime, SwapAccounts}
use raydium_amm.Liquidity.Withdraw.{
  WithdrawPool, withdraw_calls, process_withdraw, WithdrawAccounts, prepare_withdraw,
  finish_withdraw,
}
use raydium_amm.Swap.Prepare.{Prepared, prepare_swap}
use raydium_amm.Shares.{Holdings, ◌⟶◌, deposited, swapped, withdrawn}
use raydium_amm.Swap.BaseIn.{transfer_calls, process_swap_base_in, finish_base_in}
use raydium_amm.Liquidity.Deposit.{
  DepositPool, process_deposit, DepositAccounts, prepare_deposit, finish_deposit,
}
use raydium_amm.Liquidity.Pool.{Settled, LiquidityResult, LiquidityRuntime}

-- What a call does to the holdings. The order book's calls move tokens between it and the vaults, which
-- both count.
unfoldable pub apply_call : Holdings → Call → Holdings
apply_call h (Call.cancel_orders ids) = h
apply_call h (Call.settle_funds coin pc) = h
apply_call h (Call.deposit_to Vault.coin_vault n) = record h { coin = h.coin + n }
apply_call h (Call.deposit_to Vault.pc_vault n) = record h { pc = h.pc + n }
apply_call h (Call.withdraw_from Vault.coin_vault n) = record h { coin = h.coin - n }
apply_call h (Call.withdraw_from Vault.pc_vault n) = record h { pc = h.pc - n }
apply_call h (Call.mint_lp n) = record h { lp = h.lp + n }
apply_call h (Call.burn_lp n) = record h { lp = h.lp - n }

unfoldable pub apply_calls : Holdings → List Call → Holdings
apply_calls h [] = h
apply_calls h (call ∷ calls) = apply_calls (apply_call h call) calls

apply_calls-book :
    (h : Holdings) (book calls : List Call)
    → IsBook book
    → apply_calls h (book ++ calls) ≡ apply_calls h calls
unfolding apply_calls apply_call
apply_calls-book h [] calls k = refl
apply_calls-book h (Call.cancel_orders ids ∷ book) calls (_, k) = apply_calls-book h book calls k
apply_calls-book h (Call.settle_funds coin pc ∷ book) calls (_, k) = apply_calls-book h book calls k
apply_calls-book h (Call.deposit_to vault n ∷ book) calls (k, _) = absurd k
apply_calls-book h (Call.withdraw_from vault n ∷ book) calls (k, _) = absurd k
apply_calls-book h (Call.mint_lp n ∷ book) calls (k, _) = absurd k
apply_calls-book h (Call.burn_lp n ∷ book) calls (k, _) = absurd k

-- The holdings that an instruction has computed when it computes the amounts.
abbrev pub swap_holdings : Prepared → Holdings
swap_holdings p = record {
  pc = p.total_pc_without_take_pnl;
  coin = p.total_coin_without_take_pnl;
  lp = p.amm.lp_amount;
}

abbrev pub settled_holdings : Settled → Holdings
settled_holdings s = record {
  pc = s.taken.total_pc_without_take_pnl;
  coin = s.taken.total_coin_without_take_pnl;
  lp = s.taken.amm.lp_amount;
}

transfers_step :
    (d : SwapDirection) (pc coin lp paid fee out : ℕ)
    → fee ≤ paid
    → KeepsProduct (reserve_in pc coin d) (reserve_out pc coin d) (paid - fee) out
    → record { pc = pc; coin = coin; lp = lp }
      ⟶ apply_calls (record { pc = pc; coin = coin; lp = lp }) (transfer_calls d paid out)
unfolding apply_calls apply_call transfer_calls
transfers_step SwapDirection.coin_to_pc pc coin lp paid fee out le keeps =
    let more : coin + (paid - fee) ≤ coin + paid = omega arith in
    let product = mul-le-mul_right (pc - out) more in
    swapped pc coin (pc - out) (coin + paid) lp (omega arith)
transfers_step SwapDirection.pc_to_coin pc coin lp paid fee out le keeps =
    let more : pc + (paid - fee) ≤ pc + paid = omega arith in
    let product = mul-le-mul_right (coin - out) more in
    swapped pc coin (pc + paid) (coin - out) lp (omega arith)

-- The calls of the order book change nothing.
book_step :
    (a : Holdings) (book calls all_calls : List Call)
    → IsBook book
    → all_calls ≡ book ++ calls
    → a ⟶ apply_calls a calls
    → a ⟶ apply_calls a all_calls
book_step a book calls all_calls k e step =
    rw e (subst (λ b. a ⟶ b) (sym (apply_calls-book a book calls k)) step)

swap_step :
    (p : Prepared) (paid fee out : ℕ) (r : SwapResult)
    → IsSwap p paid fee out r
    → swap_holdings p ⟶ apply_calls (swap_holdings p) r.calls
swap_step p paid fee out r s =
    let (book, is_book, e) = s.transfers in
    book_step (swap_holdings p) book (transfer_calls p.swap_direction paid out) r.calls is_book e (
      transfers_step p.swap_direction p.total_pc_without_take_pnl p.total_coin_without_take_pnl
        p.amm.lp_amount paid fee out s.fee_le s.keeps_product)

deposit_step :
    (p : DepositPool) (deposit : DepositInstruction) (r : LiquidityResult)
    → IsDeposit p deposit r
    → settled_holdings p.settled ⟶ apply_calls (settled_holdings p.settled) r.calls
unfolding apply_calls apply_call
deposit_step p deposit r d = rw d.calls (
    deposited _ _ _ _ _ _ d.lp_before (d.is_quote.pc_fair d.coin_pos d.pc_pos)
      (d.is_quote.coin_fair d.coin_pos d.pc_pos))

withdrawal_step :
    (pc coin lp out_pc out_coin burnt : ℕ)
    → burnt < lp
    → IsShare burnt lp pc out_pc
    → IsShare burnt lp coin out_coin
    → record { pc = pc; coin = coin; lp = lp }
      ⟶ apply_calls
          (record { pc = pc; coin = coin; lp = lp })
          (withdraw_calls out_coin out_pc burnt)
unfolding apply_calls apply_call withdraw_calls
withdrawal_step pc coin lp out_pc out_coin burnt less (pc_le, pc_best) (coin_le, coin_best) =
    withdrawn pc coin lp out_pc out_coin burnt less pc_le coin_le
      ((pc_best out_pc pc_le).1 (omega arith)) ((coin_best out_coin coin_le).1 (omega arith))

withdraw_step :
    (p : WithdrawPool) (withdraw : WithdrawInstruction) (r : LiquidityResult)
    → IsBook p.book_calls
    → withdraw.amount < p.settled.taken.amm.lp_amount
    → IsWithdraw p withdraw r
    → settled_holdings p.settled ⟶ apply_calls (settled_holdings p.settled) r.calls
withdraw_step p withdraw r is_book less w =
    book_step (settled_holdings p.settled) p.book_calls (withdraw_calls w.coin w.pc withdraw.amount)
      r.calls is_book w.calls
      (withdrawal_step p.settled.taken.total_pc_without_take_pnl
        p.settled.taken.total_coin_without_take_pnl p.settled.taken.amm.lp_amount w.pc w.coin
        withdraw.amount less w.pc_share w.coin_share)

module _ ⦃uint : Uint⦄ where
  -- The successful runs of the program that a user of the pool can cause, from the holdings that the
  -- instruction has computed to those after its calls.
  infix 4 ◌⇒◌
  pub data ◌⇒◌ : Holdings → Holdings → Type 0 where
    base_in :
        (runtime : Runtime) (accounts : SwapAccounts) (swap : SwapInstructionBaseIn) (p : Prepared)
        (r : SwapResult)
        → prepare_swap runtime accounts ≡ ok p
        → process_swap_base_in runtime accounts swap ≡ ok r
        → swap_holdings p ⇒ apply_calls (swap_holdings p) r.calls
    base_out :
        (runtime : Runtime) (accounts : SwapAccounts) (swap : SwapInstructionBaseOut) (p : Prepared)
        (r : SwapResult)
        → HasWords runtime
        → prepare_swap runtime accounts ≡ ok p
        → process_swap_base_out runtime accounts swap ≡ ok r
        → swap_holdings p ⇒ apply_calls (swap_holdings p) r.calls
    paid_in :
        (runtime : LiquidityRuntime) (accounts : DepositAccounts) (deposit : DepositInstruction)
        (p : DepositPool) (r : LiquidityResult)
        → LiquidityHasWords runtime
        → IsWord 64 deposit.max_coin_amount
        → IsWord 64 deposit.max_pc_amount
        → prepare_deposit runtime accounts deposit ≡ ok p
        → process_deposit runtime accounts deposit ≡ ok r
        → settled_holdings p.settled ⇒ apply_calls (settled_holdings p.settled) r.calls
    paid_out :
        (runtime : LiquidityRuntime) (accounts : WithdrawAccounts) (withdraw : WithdrawInstruction)
        (amm : AmmInfo) (p : WithdrawPool) (r : LiquidityResult)
        → LiquidityHasWords runtime
        → IsWord 64 withdraw.amount
        → load_amm accounts.amm ≡ ok amm
        → prepare_withdraw runtime accounts withdraw ≡ ok p
        → process_withdraw runtime accounts withdraw ≡ ok r
        → settled_holdings p.settled ⇒ apply_calls (settled_holdings p.settled) r.calls

  -- Every successful run of `process_swap_base_in`, `process_swap_base_out`, `process_deposit` or
  -- `process_withdraw`, on a runtime whose token accounts hold 64-bit amounts and with 64-bit amounts of
  -- its instruction, is a step of the abstract pool: the holdings that the calls of the run leave are
  -- those after a swap that keeps the product, a deposit or a withdrawal in fair parts.
  pub run-step : {a b : Holdings} → a ⇒ b → a ⟶ b
  unfolding process_swap_base_in process_deposit process_withdraw
  run-step (base_in runtime accounts swap p r prepared run) =
      let (fee, out, is_swap, _) =
        ensures_value {P = IsBaseIn p swap} _ (finish_base_in-IsSwap runtime p swap)
          (after_ok (λ q. finish_base_in runtime q swap) prepared run) in
      swap_step p swap.amount_in fee out r is_swap
  run-step (base_out runtime accounts swap p r words prepared run) =
      let (pc_fits, coin_fits) =
        ensures_value {P = PreparedFit} _ (prepare_swap-PreparedFit runtime accounts words)
          prepared in
      let (fee, paid, is_swap, _) =
        process_swap_base_out-IsBaseOut runtime accounts swap p prepared pc_fits coin_fits run in
      swap_step p paid fee swap.amount_out r is_swap
  run-step (paid_in runtime accounts deposit p r words coin_word pc_word prepared run) =
      let (pc_fits, coin_fits) =
        ensures_value {P = DepositFit} _ (prepare_deposit-DepositFit runtime accounts deposit words)
          prepared in
      deposit_step p deposit r (
        finish_deposit-IsDeposit runtime p deposit coin_word pc_word coin_fits pc_fits
          (after_ok (λ q. finish_deposit runtime q deposit) prepared run))
  run-step (paid_out runtime accounts withdraw amm p r words word loaded prepared run) =
      let (pc_fits, coin_fits, is_book, less, same) =
        ensures_value {P = WithdrawFit withdraw amm.lp_amount} _
          (prepare_withdraw-WithdrawFit runtime accounts withdraw amm words loaded) prepared in
      withdraw_step p withdraw r is_book (omega arith) (
        finish_withdraw-IsWithdraw runtime p withdraw word coin_fits pc_fits
          (after_ok (λ q. finish_withdraw runtime q withdraw) prepared run))
