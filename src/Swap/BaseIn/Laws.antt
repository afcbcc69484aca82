-- ===== src/Swap/BaseIn/Laws.antt =====
-- What a swap of a given amount does.
use raydium_amm.Swap.Book.{base_in_book_calls-IsBook}
use raydium_amm.Prelude.{
  refl, ℕ, ◌≤◌, ◌≡◌, Ensures, Outcome, ◌-◌, ok, bind-Ensures, ◌+◌, ap, ensures_value, of_ok, sym,
  ◌∙◌, >>=-eq-ok, subst, ◌<◌,
}
use raydium_amm.Uint.{Uint, as_u64}
use raydium_amm.Math.Swap.{SwapDirection}
use raydium_amm.Swap.Accounts.{Runtime, SwapAccounts, SwapResult}
use raydium_amm.Swap.Prepare.{Prepared, prepare_swap}
use raydium_amm.Swap.BaseIn.{
  base_in_state, quote_base_in, finish_base_in, process_swap_base_in, total_out, base_in_book_calls,
  AmmInfo, SwapInstructionBaseIn,
}
use raydium_amm.Math.Swap.Laws.{base_in_keeps, reserve_in, reserve_out, KeepsProduct}
use raydium_amm.Swap.Steps.{
  none_zero, leb-value, ltb-value, Counts-epoch, added, ensured, total_out-reserve, narrowed,
  deducted, narrow-Ensures,
}
use raydium_amm.Swap.Fair.{IsSwap, Counts}

base_in_state-Counts :
    (amm : AmmInfo) (d : SwapDirection) (paid out fee : ℕ) (read : Outcome ℕ)
    → Ensures (λ n. n ≡ fee) read
    → Ensures (Counts amm d paid out fee) (base_in_state amm d paid out read)
unfolding base_in_state
base_in_state-Counts amm SwapDirection.coin_to_pc paid out fee read h = bind-Ensures _ _ (λ a ea.
    bind-Ensures _ _ (λ b eb. bind-Ensures _ _ (λ f ef. bind-Ensures _ _ (λ c ec.
      let same = ensures_value {P = λ n. n ≡ fee} read h ef in
      of_ok (
        added 128 _ _ ea,
        added 128 _ _ eb,
        added 64 _ _ ec ∙ ap (λ n. amm.state_data.swap_acc_coin_fee + n) same,
      )))))
base_in_state-Counts amm SwapDirection.pc_to_coin paid out fee read h = bind-Ensures _ _ (λ a ea.
    bind-Ensures _ _ (λ b eb. bind-Ensures _ _ (λ f ef. bind-Ensures _ _ (λ c ec.
      let same = ensures_value {P = λ n. n ≡ fee} read h ef in
      of_ok (
        added 128 _ _ ea,
        added 128 _ _ eb,
        added 64 _ _ ec ∙ ap (λ n. amm.state_data.swap_acc_pc_fee + n) same,
      )))))

-- A swap of the given amount, for at least the given minimum.
abbrev pub IsBaseIn : Prepared → SwapInstructionBaseIn → SwapResult → Type 0
IsBaseIn p swap r =
    (fee out : ℕ) × IsSwap p swap.amount_in fee out r × (swap.minimum_amount_out ≤ out)

module _ ⦃uint : Uint⦄ where
  -- What the quote says of the fee and of the amount that leaves the pool.
  abbrev Quoted : Prepared → ℕ → ℕ × ℕ → Type 0
  Quoted p amount_in (fee, out) =
      (fee ≤ amount_in)
      × KeepsProduct
          (reserve_in p.total_pc_without_take_pnl p.total_coin_without_take_pnl p.swap_direction)
          (reserve_out p.total_pc_without_take_pnl p.total_coin_without_take_pnl p.swap_direction)
          (amount_in - fee) out

  quote_base_in-Quoted :
      (p : Prepared) (amount_in : ℕ) → Ensures (Quoted p amount_in) (quote_base_in p amount_in)
  unfolding quote_base_in
  quote_base_in-Quoted p amount_in = bind-Ensures _ _ (λ n _. bind-Ensures _ _ (λ (fee, _) _.
      bind-Ensures _ _ (λ net e_net. bind-Ensures _ _ (λ out e_out. bind-Ensures _ _ (λ out' e_out'.
        let (le, e) = deducted amount_in fee e_net in
        let same = narrowed 64 out e_out' in
        let keeps =
          base_in_keeps net p.total_pc_without_take_pnl p.total_coin_without_take_pnl
            p.swap_direction e_out in
        of_ok (le, rw (sym e) (rw same keeps)))))))

  pub finish_base_in-IsSwap :
      (runtime : Runtime) (p : Prepared) (swap : SwapInstructionBaseIn)
      → Ensures (IsBaseIn p swap) (finish_base_in runtime p swap)
  unfolding finish_base_in
  finish_base_in-IsSwap runtime p swap = bind-Ensures _ _ (λ _ e_funds.
      bind-Ensures _ _ (λ (fee, out) e_quote. bind-Ensures _ _ (λ _ e_slippage.
        bind-Ensures _ _ (λ _ e_input. bind-Ensures _ _ (λ _ e_total. bind-Ensures _ _ (λ amm e_amm.
          bind-Ensures _ _ (λ epoch _.
            let quoted =
              ensures_value {P = Quoted p swap.amount_in} _ (quote_base_in-Quoted p swap.amount_in)
                e_quote in
            let counted =
              ensures_value {P = Counts p.amm p.swap_direction swap.amount_in out fee} _
                (base_in_state-Counts p.amm p.swap_direction swap.amount_in out fee (as_u64 fee)
                  (narrow-Ensures 64 fee))
                e_amm in
            let (out_pos, paid_pos) = none_zero out swap.amount_in (ensured _ _ e_input) in
            let out_lt = ltb-value out (total_out p) (ensured _ _ e_total) in
            of_ok (
              fee,
              out,
              record {
                paid_pos = paid_pos;
                out_pos = out_pos;
                paid_le = leb-value _ _ (ensured _ _ e_funds);
                fee_le = quoted.0;
                out_lt = subst (λ t. out < t) (total_out-reserve p) out_lt;
                keeps_product = quoted.1;
                counts =
                    Counts-epoch p.amm p.swap_direction swap.amount_in out fee epoch amm counted;
                transfers = (base_in_book_calls p out, base_in_book_calls-IsBook p out, refl);
              },
              leb-value _ _ (ensured _ _ e_slippage),
            ))))))))

  -- A swap of a given amount that succeeds has prepared a pool `p`, and from it is a swap (`IsSwap`) of
  -- exactly the given amount, for at least the given minimum.
  pub process_swap_base_in-IsBaseIn :
      (runtime : Runtime) (accounts : SwapAccounts) (swap : SwapInstructionBaseIn) {r : SwapResult}
      → process_swap_base_in runtime accounts swap ≡ ok r
      → (p : Prepared) × (prepare_swap runtime accounts ≡ ok p) × IsBaseIn p swap r
  unfolding process_swap_base_in
  process_swap_base_in-IsBaseIn runtime accounts swap h =
      let (p, prepared, finished) =
        >>=-eq-ok (prepare_swap runtime accounts) (λ p. finish_base_in runtime p swap) h in
      (
        p,
        prepared,
        ensures_value {P = IsBaseIn p swap} (finish_base_in runtime p swap)
            (finish_base_in-IsSwap runtime p swap) finished,
      )
