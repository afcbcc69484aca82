-- ===== src/Swap/Ready.antt =====
-- The totals of a pool are 64-bit numbers when a swap computes its amounts.
use raydium_amm.State.Status.{orderbook_permission}
use raydium_amm.Swap.Totals.{
  Fit, calc_total_without_take_pnl-Fit, calc_total_without_take_pnl_no_orderbook-Fit,
}
use raydium_amm.State.Amm.{AmmInfo}
use raydium_amm.Prelude.Word.{IsWord}
use raydium_amm.Prelude.{ℕ, Ensures, Bool, skip, bind-Ensures, of_ok, ensures_value, true, false}
use raydium_amm.Swap.Accounts.{Runtime, SwapAccounts}
use raydium_amm.Swap.Prepare.{prepare_swap, load_totals, Prepared}

-- The amount of an SPL token account is a `u64`.
abbrev pub HasWords : Runtime → Type 0
HasWords runtime =
    (account : ℕ) → Ensures (λ t. IsWord 64 t.amount) (runtime.unpack_token_account account)

abbrev pub PreparedFit : Prepared → Type 0
PreparedFit p = IsWord 64 p.total_pc_without_take_pnl × IsWord 64 p.total_coin_without_take_pnl

load_totals-Fit :
    (runtime : Runtime) (accounts : SwapAccounts) (enable : Bool) (pc coin : ℕ) (amm : AmmInfo)
    → IsWord 64 pc
    → IsWord 64 coin
    → Ensures (λ (totals, bids, asks). Fit totals) (load_totals runtime accounts enable pc coin amm)
unfolding load_totals
load_totals-Fit runtime accounts true pc coin amm hp hc = skip _ _ (λ _. skip _ _ (λ _.
    skip _ _ (λ _. skip _ _ (λ book. bind-Ensures _ _ (λ totals e. of_ok (
      ensures_value {P = Fit} _
        (calc_total_without_take_pnl-Fit pc coin accounts.amm_open_orders book amm) e))))))
load_totals-Fit runtime accounts false pc coin amm hp hc = bind-Ensures _ _ (λ totals e.
    of_ok (
      ensures_value {P = Fit} _ (calc_total_without_take_pnl_no_orderbook-Fit pc coin amm hp hc) e))

pub prepare_swap-PreparedFit :
    (runtime : Runtime) (accounts : SwapAccounts)
    → HasWords runtime
    → Ensures PreparedFit (prepare_swap runtime accounts)
unfolding prepare_swap
prepare_swap-PreparedFit runtime accounts words = skip _ _ (λ _. skip _ _ (λ amm.
    skip _ _ (λ status. skip _ _ (λ _. bind-Ensures _ _ (λ coin_vault e_coin.
      bind-Ensures _ _ (λ pc_vault e_pc. skip _ _ (λ source. skip _ _ (λ destination.
        skip _ _ (λ opened. bind-Ensures _ _ (λ (totals, bids, asks) e_totals.
          skip _ _ (λ direction.
            let hc =
              ensures_value {P = λ t. IsWord 64 t.amount} _ (words accounts.amm_coin_vault)
                e_coin in
            let hp =
              ensures_value {P = λ t. IsWord 64 t.amount} _ (words accounts.amm_pc_vault) e_pc in
            of_ok (
              ensures_value {P = λ (totals, bids, asks). Fit totals} _
                (load_totals-Fit runtime accounts (orderbook_permission status) pc_vault.amount
                  coin_vault.amount opened hp hc)
                e_totals))))))))))))
