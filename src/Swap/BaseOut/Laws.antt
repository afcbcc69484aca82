-- ===== src/Swap/BaseOut/Laws.antt =====
-- What a swap for a given amount does.
use raydium_amm.Swap.Book.{base_out_book_calls-IsBook}
use raydium_amm.Prelude.Word.{IsWord}
use raydium_amm.Prelude.{
  ◌/◌, ◌<◌, some, unwrap-eq-ok, ◌*◌, ℕ, ◌-◌, ◌≤◌, ◌<◌, refl, subst, sym, ◌∙◌, ap, arith, ◌≡◌,
  Ensures, unwrap, bind-Ensures, ok, of_ok, ◌+◌, >>=-eq-ok, ensures_value, ok-injective,
}
use raydium_amm.Prelude.Word
use raydium_amm.Uint.{Uint, mul128}
use raydium_amm.State.Amm.{AmmInfo}
use raydium_amm.Math.CeilDiv.{checked_ceil_div, checked_ceil_div_u128}
use raydium_amm.Math.CeilDiv.Laws.{eq_u128}
use native.Mathlib.Nat.{div-eq_of_lt}
use raydium_amm.Math.Swap.{SwapDirection, swap_token_amount_base_out}
use raydium_amm.Math.Decimal.{to_u128}
use raydium_amm.Math.Swap.Laws.{base_out_keeps}
use raydium_amm.Instruction.Types.{SwapInstructionBaseOut}
use raydium_amm.Swap.Accounts.{Runtime, SwapAccounts, SwapResult}
use raydium_amm.Swap.Prepare.{Prepared, prepare_swap}
use raydium_amm.Swap.BaseIn.{total_out}
use raydium_amm.Swap.BaseOut.{
  base_out_state, quote_base_out, finish_base_out, process_swap_base_out, base_out_book_calls,
}
use raydium_amm.Swap.Steps.{
  multiplied, none_zero, leb-value, ltb-value, Counts-epoch, added, ensured, total_out-reserve,
  narrowed,
}
use raydium_amm.Swap.Fair.{IsSwap, Counts}

fitted : (a : ℕ) {n : ℕ} → to_u128 a ≡ ok n → n ≡ a
unfolding to_u128
fitted a h = ground arith

subtracted : (a b : ℕ) {n : ℕ} → unwrap (Word.checked_sub a b) ≡ ok n → (b ≤ a) × (n ≡ a - b)
subtracted a b h = ground arith

base_out_state-Counts :
    (amm : AmmInfo) (d : SwapDirection) (paid out fee : ℕ)
    → Ensures (Counts amm d paid out fee) (base_out_state amm d paid out fee)
unfolding base_out_state
base_out_state-Counts amm SwapDirection.coin_to_pc paid out fee = bind-Ensures _ _ (λ a ea.
    bind-Ensures _ _ (λ out' e_out. bind-Ensures _ _ (λ b eb. bind-Ensures _ _ (λ c ec. of_ok (
      added 128 _ _ ea,
      added 128 _ _ eb ∙ ap (λ n. amm.state_data.swap_pc_out_amount + n) (fitted out e_out),
      added 64 _ _ ec,
    )))))
base_out_state-Counts amm SwapDirection.pc_to_coin paid out fee = bind-Ensures _ _ (λ a ea.
    bind-Ensures _ _ (λ b eb.
      bind-Ensures _ _ (λ c ec. of_ok (added 128 _ _ ea, added 128 _ _ eb, added 64 _ _ ec))))

-- A swap for the given amount, of at most the given maximum.
abbrev pub IsBaseOut : Prepared → SwapInstructionBaseOut → SwapResult → Type 0
IsBaseOut p swap r =
    (fee paid : ℕ) × IsSwap p paid fee swap.amount_out r × (paid ≤ swap.max_amount_in)

u128_zero : (d : ℕ) {q r : ℕ} → checked_ceil_div_u128 0 d ≡ some (q, r) → q ≡ 0
unfolding checked_ceil_div_u128
u128_zero d h =
    let none_left : 0 < d → 0 / d ≡ 0 = λ pos. div-eq_of_lt pos in ground (arith, none_left)

module _ ⦃uint : Uint⦄ where
  -- `paid` without `fee` is what the inverse formula asks, and it is positive if anything is paid.
  abbrev FromFormula : Prepared → ℕ → ℕ × ℕ → Type 0
  FromFormula p out (paid, fee) =
      (fee ≤ paid)
      × (swap_token_amount_base_out out p.total_pc_without_take_pnl p.total_coin_without_take_pnl
            p.swap_direction
          ≡ ok (paid - fee))
      × (0 < paid → 0 < paid - fee)

  -- Rounding up 0 gives 0.
  ceil_zero : (d : ℕ) {q r : ℕ} → checked_ceil_div 0 d ≡ some (q, r) → q ≡ 0
  ceil_zero d h = u128_zero d (sym (eq_u128 0 d) ∙ h)

  after_zero :
      (before d rest : ℕ) {n after back : ℕ}
      → mul128 before d ≡ ok n
      → unwrap (checked_ceil_div n rest) ≡ ok (after, back)
      → before ≡ 0
      → after ≡ 0
  after_zero before d rest {n} {after} {back} e_n e_after z =
      let empty : 0 * d ≡ 0 = omega arith in
      let n_eq : n ≡ 0 = multiplied before d e_n ∙ (ap (λ b. b * d) z ∙ empty) in
      ceil_zero rest
        (subst (λ m. checked_ceil_div m rest ≡ some (after, back)) n_eq (unwrap-eq-ok _ e_after))

  formula :
      (before before' paid fee : ℕ)
      → before' ≡ before
      → before' ≤ paid
      → fee ≡ paid - before'
      → (before ≡ 0 → paid ≡ 0)
      → (fee ≤ paid) × (before ≡ paid - fee) × (0 < paid → 0 < paid - fee)
  formula before before' paid fee e le fee_eq zero = ground arith

  quote_base_out-FromFormula :
      (p : Prepared) (out : ℕ) → Ensures (FromFormula p out) (quote_base_out p out)
  unfolding quote_base_out
  quote_base_out-FromFormula p out = bind-Ensures _ _ (λ before e_before. bind-Ensures _ _ (λ n e_n.
      bind-Ensures _ _ (λ d e_d. bind-Ensures _ _ (λ (after, back) e_after.
        bind-Ensures _ _ (λ paid e_paid. bind-Ensures _ _ (λ before' e_before'.
          bind-Ensures _ _ (λ fee e_fee.
            let (le, fee_eq) = subtracted paid before' e_fee in
            let same = narrowed 64 before e_before' in
            let (fee_le, net, positive) =
              formula before before' paid fee same le fee_eq
                (λ z. narrowed 64 after e_paid ∙ after_zero before _ _ e_n e_after z) in
            of_ok (fee_le, e_before ∙ ap ok net, positive))))))))

  finish_base_out-IsSwap :
      (runtime : Runtime) (p : Prepared) (swap : SwapInstructionBaseOut)
      → IsWord 64 p.total_pc_without_take_pnl
      → IsWord 64 p.total_coin_without_take_pnl
      → Ensures (IsBaseOut p swap) (finish_base_out runtime p swap)
  unfolding finish_base_out
  finish_base_out-IsSwap runtime p swap hp hc = bind-Ensures _ _ (λ (paid, fee) e_quote.
      bind-Ensures _ _ (λ _ e_funds. bind-Ensures _ _ (λ _ e_slippage.
        bind-Ensures _ _ (λ _ e_input. bind-Ensures _ _ (λ _ e_total. bind-Ensures _ _ (λ amm e_amm.
          bind-Ensures _ _ (λ epoch _.
            let quoted =
              ensures_value {P = FromFormula p swap.amount_out} _
                (quote_base_out-FromFormula p swap.amount_out) e_quote in
            let counted =
              ensures_value {P = Counts p.amm p.swap_direction paid swap.amount_out fee} _
                (base_out_state-Counts p.amm p.swap_direction paid swap.amount_out fee) e_amm in
            let (paid_pos, out_pos) = none_zero paid swap.amount_out (ensured _ _ e_input) in
            let out_lt =
              subst (λ t. swap.amount_out < t) (total_out-reserve p)
                (ltb-value swap.amount_out (total_out p) (ensured _ _ e_total)) in
            of_ok (
              fee,
              paid,
              record {
                paid_pos = paid_pos;
                out_pos = out_pos;
                paid_le = leb-value _ _ (ensured _ _ e_funds);
                fee_le = quoted.0;
                out_lt = out_lt;
                keeps_product =
                    base_out_keeps swap.amount_out p.total_pc_without_take_pnl
                      p.total_coin_without_take_pnl p.swap_direction hp hc out_lt
                      (quoted.2 paid_pos) quoted.1;
                counts =
                    Counts-epoch p.amm p.swap_direction paid swap.amount_out fee epoch amm counted;
                transfers = (
                  base_out_book_calls p swap.amount_out,
                  base_out_book_calls-IsBook p swap.amount_out,
                  refl,
                );
              },
              leb-value _ _ (ensured _ _ e_slippage),
            ))))))))

  -- A swap for a given amount that succeeds, on a prepared pool whose totals are 64-bit numbers, is a
  -- swap (`IsSwap`) for exactly the given amount, in which the user pays at most the given maximum.
  pub process_swap_base_out-IsBaseOut :
      (runtime : Runtime) (accounts : SwapAccounts) (swap : SwapInstructionBaseOut) (p : Prepared)
      {r : SwapResult}
      → prepare_swap runtime accounts ≡ ok p
      → IsWord 64 p.total_pc_without_take_pnl
      → IsWord 64 p.total_coin_without_take_pnl
      → process_swap_base_out runtime accounts swap ≡ ok r
      → IsBaseOut p swap r
  unfolding process_swap_base_out
  process_swap_base_out-IsBaseOut runtime accounts swap p {r} prepared hp hc h =
      let (p', prepared', finished) =
        >>=-eq-ok (prepare_swap runtime accounts) (λ q. finish_base_out runtime q swap) h in
      let same : p' ≡ p = ok-injective p' p (sym prepared' ∙ prepared) in
      ensures_value {P = IsBaseOut p swap} (finish_base_out runtime p swap)
        (finish_base_out-IsSwap runtime p swap hp hc)
        (subst (λ q. finish_base_out runtime q swap ≡ ok r) same finished)
