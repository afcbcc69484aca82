-- ===== src/Liquidity/WithdrawPnl/Laws.antt =====
-- What the withdrawal of the profit pays.
use raydium_amm.Swap.Accounts.{Call, Vault}
use raydium_amm.Swap.Totals.{IsTotal}
use raydium_amm.Pnl.Laws.{PnlStep, calc_take_pnl-Step}
use raydium_amm.State.Orders.{TargetOrders}
use raydium_amm.Liquidity.Pool.{settle, LiquidityResult, LiquidityRuntime}
use raydium_amm.Pnl.{TakenPnl}
use raydium_amm.Uint.{Uint}
use raydium_amm.Liquidity.WithdrawPnl.{PnlPool, finish_withdrawpnl, pnl_calls}
use raydium_amm.Prelude.{
  ℕ, leb, ◌≤◌, ◌+◌, ◌&&◌, Ensures, inl, ◌≡◌, true, ap, ok, ensures_value, arith, bind-Ensures, ◌∷◌,
  if_Ensures, inr, of_ok, of_err, [], ◌-◌, refl, skip,
}
use raydium_amm.State.Amm.{AmmInfo}

-- All that the pool owes its owner is paid, the earlier debt with it: the vaults have it, and what is left
-- in them and in the order book is exactly the total of the pool, which owes nothing any more.
pub record IsPaid (p : PnlPool) (before : AmmInfo) (serum : ℕ × ℕ) (r : LiquidityResult)
    : Type 0 where
  pub coin : ℕ
  pub pc : ℕ
  pub coin_le : coin ≤ p.coin_vault_amount
  pub pc_le : pc ≤ p.pc_vault_amount
  pub owed_coin : before.state_data.need_take_pnl_coin ≤ coin
  pub owed_pc : before.state_data.need_take_pnl_pc ≤ pc
  pub calls :
      r.calls ≡ Call.withdraw_from Vault.coin_vault coin ∷ Call.withdraw_from Vault.pc_vault pc ∷ []
  pub clear_coin : r.amm.state_data.need_take_pnl_coin ≡ 0
  pub clear_pc : r.amm.state_data.need_take_pnl_pc ≡ 0
  pub total :
      IsTotal
        (p.pc_vault_amount - pc)
        (p.coin_vault_amount - coin)
        serum
        r.amm
        (p.settled.taken.total_pc_without_take_pnl, p.settled.taken.total_coin_without_take_pnl)

-- Taking a profit keeps the sums of totals and debts.
abbrev Kept : AmmInfo → ℕ × ℕ → TakenPnl → Type 0
Kept amm (pc, coin) t =
    (t.total_pc_without_take_pnl + t.amm.state_data.need_take_pnl_pc
      ≡ pc + amm.state_data.need_take_pnl_pc)
    × (t.total_coin_without_take_pnl + t.amm.state_data.need_take_pnl_coin
        ≡ coin + amm.state_data.need_take_pnl_coin)
    × (t.total_pc_without_take_pnl ≤ pc)
    × (t.total_coin_without_take_pnl ≤ coin)

PnlStep-Kept :
    (amm : AmmInfo) (pc coin : ℕ) (t : TakenPnl) → PnlStep amm pc coin t → Kept amm (pc, coin) t
PnlStep-Kept amm pc coin t (inl untaken) =
    let debt_pc = ap (λ (a : AmmInfo). a.state_data.need_take_pnl_pc) untaken.same_amm in
    let debt_coin = ap (λ (a : AmmInfo). a.state_data.need_take_pnl_coin) untaken.same_amm in
    let same_pc = untaken.same_pc in
    let same_coin = untaken.same_coin in (omega arith, omega arith, omega arith, omega arith)
PnlStep-Kept amm pc coin t (inr taken) =
    let pc_left = taken.pc_left in
    let coin_left = taken.coin_left in (taken.pc_kept, taken.coin_kept, omega arith, omega arith)

both_le : (a b c d : ℕ) → (leb a b && leb c d) ≡ true → (a ≤ b) × (c ≤ d)
both_le a b c d h = ground arith

module _ ⦃uint : Uint⦄ where
  settle-Kept :
      (target : TargetOrders) (amm : AmmInfo) (totals : ℕ × ℕ)
      → Ensures (λ s. Kept amm totals s.taken) (settle target amm totals)
  unfolding settle
  settle-Kept target amm (pc, coin) = skip _ _ (λ x1. skip _ _ (λ y1. skip _ _ (λ x1'.
      skip _ _ (λ y1'. bind-Ensures _ _ (λ t e_t. of_ok (
        PnlStep-Kept amm pc coin t (
          ensures_value {P = PnlStep amm pc coin} _ (calc_take_pnl-Step target amm pc coin x1' y1')
            e_t)))))))

  -- From totals that are, with the debts, what the vaults and the order book hold (`IsTotal`), a
  -- withdrawal of the profit that succeeds pays all that is owed (`IsPaid`): at least the debts that the
  -- pool had, and after the transfers what is left is exactly the totals, with no debt.
  pub finish_withdrawpnl-IsPaid :
      (runtime : LiquidityRuntime) (p : PnlPool) (before : AmmInfo) (serum totals : ℕ × ℕ)
      {r : LiquidityResult}
      → IsTotal p.pc_vault_amount p.coin_vault_amount serum before totals
      → settle p.target_orders before totals ≡ ok p.settled
      → finish_withdrawpnl runtime p ≡ ok r
      → IsPaid p before serum r
  unfolding finish_withdrawpnl pnl_calls
  finish_withdrawpnl-IsPaid runtime p before (pc_serum, coin_serum) (pc, coin)
        (pc_held, coin_held, pc_fits, coin_fits) e_settled =
      let (kept_pc, kept_coin, pc_le, coin_le) =
        ensures_value {P = λ s. Kept before (pc, coin) s.taken} _
          (settle-Kept p.target_orders before (pc, coin)) e_settled in
      ensures_value {P = IsPaid p before (pc_serum, coin_serum)} (finish_withdrawpnl runtime p) (
        if_Ensures _ _ _
          (λ held.
            let (coin_room, pc_room) =
              both_le p.settled.taken.amm.state_data.need_take_pnl_coin p.coin_vault_amount
                p.settled.taken.amm.state_data.need_take_pnl_pc p.pc_vault_amount held in
            skip _ _ (λ x. skip _ _ (λ x'. skip _ _ (λ y. skip _ _ (λ y'. skip _ _ (λ epoch.
              of_ok (record {
                coin = p.settled.taken.amm.state_data.need_take_pnl_coin;
                pc = p.settled.taken.amm.state_data.need_take_pnl_pc;
                coin_le = coin_room;
                pc_le = pc_room;
                owed_coin = omega arith;
                owed_pc = omega arith;
                calls = refl;
                clear_coin = refl;
                clear_pc = refl;
                total = (omega arith, omega arith, omega arith, omega arith);
              })))))))
          (λ _. of_err))
