-- ===== src/Liquidity/Ready.antt =====
-- What holds of a pool when a deposit or a withdrawal computes its amounts.
use raydium_amm.Liquidity.Withdraw.Laws.{finish_withdraw-IsWithdraw}
use raydium_amm.State.Status.{orderbook_permission, AmmStatus}
use raydium_amm.State.Loading.{load_amm}
use raydium_amm.Swap.Totals.{Fit}
use raydium_amm.Liquidity.Fit.{
  HasWords, TokensFit, SettledFit, book_totals-Fit, vault_totals-Fit, unpack_accounts-TokensFit,
  taken-SettledFit, settle-SettledFit,
}
use raydium_amm.Swap.Cancel.{cancel_calls}
use raydium_amm.State.Amm.{AmmInfo}
use raydium_amm.Swap.Book.{IsBook, append-IsBook, cancel_calls-IsBook}
use raydium_amm.State.Orders.{TargetOrders}
use raydium_amm.Swap.Accounts.{MarketAccount, Call}
use raydium_amm.Prelude.Word.{IsWord}
use raydium_amm.Liquidity.Pool.{LiquidityRuntime, TokenAccounts, LiquidityResult}
use raydium_amm.Instruction.Types.{WithdrawInstruction, DepositInstruction}
use raydium_amm.Prelude.{
  List, ℕ, not, ltb, ◌<◌, Bool, ◌||◌, Ensures, ◌++◌, leb, ◌≡◌, true, ensure, ok, bind-Ensures,
  arith, Bool-cases, ◌∷◌, [], inl, ensures_value, ok-injective, of_ok, if_Ensures, sym, inr, false,
  ◌∙◌, of_err, ap, refl, ◌==◌, skip, ◌+◌, >>=-eq-ok,
}
use raydium_amm.Liquidity.Deposit.{deposit_totals, DepositPool, prepare_deposit, DepositAccounts}
use raydium_amm.Uint.{Uint}
use raydium_amm.Liquidity.Withdraw.{
  withdraw_totals, check_burn, settle_withdraw, WithdrawPool, prepare_withdraw, WithdrawAccounts,
  take_unless_withdraw_only, process_withdraw, finish_withdraw,
}
use raydium_amm.Errors.{AmmError}
use raydium_amm.State.Status

deposit_totals-Fit :
    (runtime : LiquidityRuntime) (accounts : DepositAccounts) (enable : Bool) (amm : AmmInfo)
    (tokens : TokenAccounts)
    → TokensFit tokens
    → Ensures Fit (deposit_totals runtime accounts enable amm tokens)
unfolding deposit_totals
deposit_totals-Fit runtime accounts true amm tokens fits = skip _ _ (λ _.
    skip _ _ (λ _. skip _ _ (λ market. book_totals-Fit market accounts.amm_open_orders amm tokens)))
deposit_totals-Fit runtime accounts false amm tokens fits = vault_totals-Fit amm tokens fits

-- The totals are 64-bit numbers.
abbrev pub DepositFit : DepositPool → Type 0
DepositFit p =
    IsWord 64 p.settled.taken.total_pc_without_take_pnl
    × IsWord 64 p.settled.taken.total_coin_without_take_pnl

-- What a withdrawal has checked: the totals are 64-bit numbers, the calls so far are the order book's,
-- and the pool has more pool tokens than are burnt, as many as the account of the pool counts.
abbrev pub WithdrawFit : WithdrawInstruction → ℕ → WithdrawPool → Type 0
WithdrawFit withdraw lp p =
    IsWord 64 p.settled.taken.total_pc_without_take_pnl
    × IsWord 64 p.settled.taken.total_coin_without_take_pnl
    × IsBook p.book_calls
    × (withdraw.amount < lp)
    × (p.settled.taken.amm.lp_amount ≡ lp)

settle_funds-IsBook :
    (vec : List (List ℕ)) (coin pc : MarketAccount)
    → IsBook (cancel_calls vec ++ (Call.settle_funds coin pc ∷ []))
settle_funds-IsBook vec coin pc =
    append-IsBook (cancel_calls vec) _ (cancel_calls-IsBook vec) (tt, tt)

withdraw_totals-Fit :
    (runtime : LiquidityRuntime) (accounts : WithdrawAccounts) (enable : Bool) (amm : AmmInfo)
    (tokens : TokenAccounts)
    → TokensFit tokens
    → Ensures
        (λ (totals, calls). Fit totals × IsBook calls)
        (withdraw_totals runtime accounts enable amm tokens)
unfolding withdraw_totals
withdraw_totals-Fit runtime accounts true amm tokens fits = skip _ _ (λ _. skip _ _ (λ _.
    skip _ _ (λ _. skip _ _ (λ market. skip _ _ (λ vec. bind-Ensures _ _ (λ totals e. of_ok (
      ensures_value {P = Fit} _ (book_totals-Fit market accounts.amm_open_orders amm tokens) e,
      settle_funds-IsBook vec MarketAccount.market_coin_vault MarketAccount.market_pc_vault,
    )))))))
withdraw_totals-Fit runtime accounts false amm tokens fits =
    bind-Ensures _ _
      (λ totals e. of_ok (ensures_value {P = Fit} _ (vault_totals-Fit amm tokens fits) e, tt))

some_left : (supply amount lp : ℕ) → not (ltb supply amount || leb lp amount) ≡ true → amount < lp
some_left supply amount lp h = ground arith

check_burn-lt :
    (runtime : LiquidityRuntime) (accounts : WithdrawAccounts) (amm : AmmInfo) (amount : ℕ)
    → Ensures (λ _. amount < amm.lp_amount) (check_burn runtime accounts amm amount)
unfolding check_burn
check_burn-lt runtime accounts amm amount =
    skip _ _ (λ supply. skip _ _ (λ user_lp. skip _ _ (λ _. skip _ _ (λ _. left supply))))
  where
    left :
        (supply : ℕ)
        → Ensures
            (λ _. amount < amm.lp_amount)
            (ensure
              (not (ltb supply amount || leb amm.lp_amount amount))
              AmmError.not_allow_zero_lp)
    left supply = elim (Bool-cases (not (ltb supply amount || leb amm.lp_amount amount))) [
      | inl h ↦ rw h (of_ok (some_left supply amount amm.lp_amount h))
      | inr h ↦ rw h of_err
    ]

module _ ⦃uint : Uint⦄ where
  pub prepare_deposit-DepositFit :
      (runtime : LiquidityRuntime) (accounts : DepositAccounts) (deposit : DepositInstruction)
      → HasWords runtime
      → Ensures DepositFit (prepare_deposit runtime accounts deposit)
  unfolding prepare_deposit
  prepare_deposit-DepositFit runtime accounts deposit words = skip _ _ (λ _. skip _ _ (λ amm.
      skip _ _ (λ _. skip _ _ (λ _. skip _ _ (λ status. skip _ _ (λ _.
        bind-Ensures _ _ (λ tokens e_tokens. skip _ _ (λ target.
          bind-Ensures _ _ (λ totals e_totals. bind-Ensures _ _ (λ settled e_settled.
            let tokens_fit =
              ensures_value {P = TokensFit} _ (unpack_accounts-TokensFit runtime _ _ _ _ _ words)
                e_tokens in
            let fits =
              ensures_value {P = Fit} _
                (deposit_totals-Fit runtime accounts (orderbook_permission status) amm tokens
                  tokens_fit)
                e_totals in
            let (pc_fits, coin_fits, _) =
              ensures_value {P = SettledFit amm} _ (settle-SettledFit target amm totals fits)
                e_settled in
            of_ok (pc_fits, coin_fits)))))))))))

  take_unless-SettledFit :
      (target : TargetOrders) (amm : AmmInfo) (pc coin x1 y1 : ℕ)
      → Fit (pc, coin)
      → Ensures
          (λ t. SettledFit amm (record { x1 = x1; y1 = y1; taken = t }))
          (take_unless_withdraw_only target amm pc coin x1 y1)
  unfolding take_unless_withdraw_only
  take_unless-SettledFit target amm pc coin x1 y1 (pc_fits, coin_fits) =
      if_Ensures (not (amm.status == Status.into_u64 AmmStatus.withdraw_only)) _ (ok _)
        (λ _. skip _ _ (λ x1'.
          skip _ _ (λ y1'. taken-SettledFit target amm pc coin x1 y1 x1' y1' (pc_fits, coin_fits))))
        (λ _. of_ok (pc_fits, coin_fits, refl))

  settle_withdraw-SettledFit :
      (target : TargetOrders) (amm : AmmInfo) (totals : ℕ × ℕ)
      → Fit totals
      → Ensures (SettledFit amm) (settle_withdraw target amm totals)
  unfolding settle_withdraw
  settle_withdraw-SettledFit target amm (pc, coin) fits = skip _ _ (λ x1. skip _ _ (λ y1.
      bind-Ensures _ _ (λ t e_t. of_ok (
        ensures_value {P = λ t. SettledFit amm (record { x1 = x1; y1 = y1; taken = t })} _
          (take_unless-SettledFit target amm pc coin x1 y1 fits) e_t))))

  -- `lp` is what the account of the pool has.
  pub prepare_withdraw-WithdrawFit :
      (runtime : LiquidityRuntime) (accounts : WithdrawAccounts) (withdraw : WithdrawInstruction)
      (amm : AmmInfo)
      → HasWords runtime
      → load_amm accounts.amm ≡ ok amm
      → Ensures (WithdrawFit withdraw amm.lp_amount) (prepare_withdraw runtime accounts withdraw)
  unfolding prepare_withdraw
  prepare_withdraw-WithdrawFit runtime accounts withdraw loaded words e_loaded = skip _ _ (λ _.
      skip _ _ (λ _. skip _ _ (λ _. bind-Ensures _ _ (λ amm e_amm. skip _ _ (λ target.
        skip _ _ (λ status. skip _ _ (λ _. bind-Ensures _ _ (λ tokens e_tokens.
          bind-Ensures _ _ (λ _ e_burn. bind-Ensures _ _ (λ (totals, calls) e_totals.
            bind-Ensures _ _ (λ settled e_settled.
              let same : amm ≡ loaded = ok-injective amm loaded (sym e_amm ∙ e_loaded) in
              let same_lp = ap (λ (a : AmmInfo). a.lp_amount) same in
              let tokens_fit =
                ensures_value {P = TokensFit} _ (unpack_accounts-TokensFit runtime _ _ _ _ _ words)
                  e_tokens in
              let less =
                ensures_value {P = λ _. withdraw.amount < amm.lp_amount} _
                  (check_burn-lt runtime accounts amm withdraw.amount) e_burn in
              let (fits, is_book) =
                ensures_value {P = λ (totals, calls). Fit totals × IsBook calls} _
                  (withdraw_totals-Fit runtime accounts (orderbook_permission status) amm tokens
                    tokens_fit)
                  e_totals in
              let (pc_fits, coin_fits, kept) =
                ensures_value {P = SettledFit amm} _
                  (settle_withdraw-SettledFit target amm totals fits) e_settled in
              of_ok (pc_fits, coin_fits, is_book, omega arith, kept ∙ same_lp))))))))))))

  -- On a runtime whose token accounts hold 64-bit amounts, a withdrawal of a 64-bit amount that succeeds
  -- takes exactly that amount from the pool tokens that the account of the pool counts, and leaves some:
  -- a pool cannot be emptied.
  pub process_withdraw-lp :
      (runtime : LiquidityRuntime) (accounts : WithdrawAccounts) (withdraw : WithdrawInstruction)
      (amm : AmmInfo) {r : LiquidityResult}
      → HasWords runtime
      → IsWord 64 withdraw.amount
      → load_amm accounts.amm ≡ ok amm
      → process_withdraw runtime accounts withdraw ≡ ok r
      → (r.amm.lp_amount + withdraw.amount ≡ amm.lp_amount) × (0 < r.amm.lp_amount)
  unfolding process_withdraw
  process_withdraw-lp runtime accounts withdraw amm words word loaded run =
      let (p, prepared, finished) =
        >>=-eq-ok (prepare_withdraw runtime accounts withdraw)
          (λ p. finish_withdraw runtime p withdraw) run in
      let (pc_fits, coin_fits, _, less, same) =
        ensures_value {P = WithdrawFit withdraw amm.lp_amount} _
          (prepare_withdraw-WithdrawFit runtime accounts withdraw amm words loaded) prepared in
      let w = finish_withdraw-IsWithdraw runtime p withdraw word coin_fits pc_fits finished in
      let after = w.lp_after in (omega arith, omega arith)
