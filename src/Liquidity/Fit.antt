-- ===== src/Liquidity/Fit.antt =====
-- The totals of a pool are 64-bit numbers, since the amounts of token accounts are.
use raydium_amm.Pnl.Laws.{PnlStep, PnlStep-lp, calc_take_pnl-Step}
use raydium_amm.Swap.Totals.{
  Fit, calc_total_without_take_pnl_no_orderbook-Fit, calc_total_without_take_pnl-Fit,
}
use raydium_amm.Pnl.{TakenPnl, calc_take_pnl}
use raydium_amm.State.Orders.{TargetOrders}
use raydium_amm.Prelude.Word.{IsWord}
use raydium_amm.Prelude.{
  Ensures, ℕ, bind-Ensures, ◌≡◌, Ensures-map, of_ok, ◌≤◌, arith, inl, ensures_value, inr, skip,
}
use raydium_amm.State.Amm.{AmmInfo}
use raydium_amm.Liquidity.Pool.{
  book_totals, unpack_accounts, TokenAccounts, LiquidityRuntime, vault_totals, Market, Settled,
  settle,
}
use raydium_amm.Uint.{Uint}

-- The amount of an SPL token account is a `u64`.
abbrev pub HasWords : LiquidityRuntime → Type 0
HasWords runtime =
    (account token_program : ℕ)
    → Ensures (λ t. IsWord 64 t.amount) (runtime.unpack_token_account account token_program)

abbrev pub TokensFit : TokenAccounts → Type 0
TokensFit tokens = IsWord 64 tokens.coin_vault.amount × IsWord 64 tokens.pc_vault.amount

pub unpack_accounts-TokensFit :
    (runtime : LiquidityRuntime) (token_program coin_vault pc_vault user_coin user_pc : ℕ)
    → HasWords runtime
    → Ensures TokensFit
        (unpack_accounts runtime token_program coin_vault pc_vault user_coin user_pc)
unfolding unpack_accounts
unpack_accounts-TokensFit runtime token_program coin_vault pc_vault user_coin user_pc words =
    bind-Ensures _ _ (λ c e_c. bind-Ensures _ _ (λ p e_p. skip _ _ (λ uc. skip _ _ (λ up. of_ok (
      ensures_value {P = λ t. IsWord 64 t.amount} _ (words coin_vault token_program) e_c,
      ensures_value {P = λ t. IsWord 64 t.amount} _ (words pc_vault token_program) e_p,
    )))))

pub book_totals-Fit :
    (market : Market) (owner : ℕ) (amm : AmmInfo) (tokens : TokenAccounts)
    → Ensures Fit (book_totals market owner amm tokens)
unfolding book_totals
book_totals-Fit market owner amm tokens = skip _ _ (λ _.
    calc_total_without_take_pnl-Fit tokens.pc_vault.amount tokens.coin_vault.amount owner
      market.book amm)

pub vault_totals-Fit :
    (amm : AmmInfo) (tokens : TokenAccounts)
    → TokensFit tokens
    → Ensures Fit (vault_totals amm tokens)
unfolding vault_totals
vault_totals-Fit amm tokens (coin_fits, pc_fits) =
    calc_total_without_take_pnl_no_orderbook-Fit tokens.pc_vault.amount tokens.coin_vault.amount amm
      pc_fits coin_fits

-- What the totals are once a profit has left them, and the pool tokens, which stay.
abbrev pub SettledFit : AmmInfo → Settled → Type 0
SettledFit amm s =
    IsWord 64 s.taken.total_pc_without_take_pnl
    × IsWord 64 s.taken.total_coin_without_take_pnl
    × (s.taken.amm.lp_amount ≡ amm.lp_amount)

-- Taking a profit lowers the totals, if it changes them.
pub PnlStep-le :
    (amm : AmmInfo) (pc coin : ℕ) (t : TakenPnl)
    → PnlStep amm pc coin t
    → (t.total_pc_without_take_pnl ≤ pc) × (t.total_coin_without_take_pnl ≤ coin)
PnlStep-le amm pc coin t (inl untaken) =
    let same_pc = untaken.same_pc in let same_coin = untaken.same_coin in (omega arith, omega arith)
PnlStep-le amm pc coin t (inr taken) =
    let pc_left = taken.pc_left in let coin_left = taken.coin_left in (omega arith, omega arith)

module _ ⦃uint : Uint⦄ where
  pub taken-SettledFit :
      (target : TargetOrders) (amm : AmmInfo) (pc coin x1 y1 x1' y1' : ℕ)
      → Fit (pc, coin)
      → Ensures
          (λ t. SettledFit amm (record { x1 = x1; y1 = y1; taken = t }))
          (calc_take_pnl target amm pc coin x1' y1')
  taken-SettledFit target amm pc coin x1 y1 x1' y1' (pc_fits, coin_fits) =
      Ensures-map
        (λ t step.
          let (pc_le, coin_le) = PnlStep-le amm pc coin t step in
          (omega arith, omega arith, PnlStep-lp amm pc coin t step))
        (calc_take_pnl-Step target amm pc coin x1' y1')

  pub settle-SettledFit :
      (target : TargetOrders) (amm : AmmInfo) (totals : ℕ × ℕ)
      → Fit totals
      → Ensures (SettledFit amm) (settle target amm totals)
  unfolding settle
  settle-SettledFit target amm (pc, coin) fits = skip _ _ (λ x1. skip _ _ (λ y1. skip _ _ (λ x1'.
      skip _ _ (λ y1'. bind-Ensures _ _ (λ t e_t. of_ok (
        ensures_value {P = λ t. SettledFit amm (record { x1 = x1; y1 = y1; taken = t })} _
          (taken-SettledFit target amm pc coin x1 y1 x1' y1' fits) e_t))))))
