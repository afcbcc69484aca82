-- ===== src/Swap/Totals.antt =====
-- The totals of a pool: what its vaults and the order book hold for it, less the profit that its
-- owner has not withdrawn.
use raydium_amm.Swap.Flow.{Flow, HasFlow, calc_exact_vault_in_serum-HasFlow, IsFlow}
use raydium_amm.Prelude.{
  ℕ, ◌+◌, ◌≡◌, refl, List, [], ◌>>=◌, ok, ok_or, arith, ensures_value, bind-Ensures, of_ok, Ensures,
}
use raydium_amm.Prelude.Word
use raydium_amm.Prelude.Word.{IsWord}
use raydium_amm.Errors.{AmmError}
use raydium_amm.State.Amm.{AmmInfo}
use raydium_amm.Swap.Accounts.{OrderBook}
use raydium_amm.Swap.Prepare.{
  calc_total_without_take_pnl, calc_total_without_take_pnl_no_orderbook, calc_exact_vault_in_serum,
}

added :
    (a b : ℕ) (e : AmmError) {n : ℕ}
    → ok_or (Word.checked_add 64 a b) e ≡ ok n
    → IsWord 64 n × (n ≡ a + b)
added a b e h = ground arith

subtracted : (a b : ℕ) (e : AmmError) {n : ℕ} → ok_or (Word.checked_sub a b) e ≡ ok n → n + b ≡ a
subtracted a b e h = ground arith

-- The totals with the profit that is owed are what the vaults and the order book hold.
abbrev pub IsTotal : ℕ → ℕ → ℕ × ℕ → AmmInfo → ℕ × ℕ → Type 0
IsTotal pc_amount coin_amount (pc_serum, coin_serum) amm (pc, coin) =
    (pc + amm.state_data.need_take_pnl_pc ≡ pc_amount + pc_serum)
    × (coin + amm.state_data.need_take_pnl_coin ≡ coin_amount + coin_serum)
    × IsWord 64 pc
    × IsWord 64 coin

-- The totals with the profit that is owed are what the vaults and the open orders account hold, after the
-- trades in the event queue.
abbrev pub IsTraded : ℕ → ℕ → ℕ → OrderBook → AmmInfo → ℕ × ℕ → Type 0
IsTraded pc_amount coin_amount owner book amm (pc, coin) =
    (flow : Flow) × IsFlow owner book.events flow
    × (pc + amm.state_data.need_take_pnl_pc + flow.pc_spent
        ≡ pc_amount + book.native_pc_total + flow.pc_earned)
    × (coin + amm.state_data.need_take_pnl_coin + flow.coin_spent
        ≡ coin_amount + book.native_coin_total + flow.coin_earned)
    × IsWord 64 pc
    × IsWord 64 coin

-- With an order book: the totals of a calculation that succeeds are 64-bit numbers; with the profit that is
-- owed they are what the vaults and the open orders account hold, less what the pool's own filled orders in
-- the event queue have paid, and with what these have received: bids pay pc for coin, asks coin for pc, and
-- no other event counts (`IsFlow`).
pub calc_total_without_take_pnl-IsTraded :
    (pc_amount coin_amount owner : ℕ) (book : OrderBook) (amm : AmmInfo) {totals : ℕ × ℕ}
    → calc_total_without_take_pnl pc_amount coin_amount book owner amm ≡ ok totals
    → IsTraded pc_amount coin_amount owner book amm totals
unfolding calc_total_without_take_pnl
calc_total_without_take_pnl-IsTraded pc_amount coin_amount owner book amm =
    ensures_value {P = IsTraded pc_amount coin_amount owner book amm}
      (calc_total_without_take_pnl pc_amount coin_amount book owner amm)
      (bind-Ensures _ _ (λ serum held.
        let (flow, is_flow, (pc_flow, coin_flow)) =
          ensures_value {P = HasFlow owner book} _ (calc_exact_vault_in_serum-HasFlow book owner)
            held in
        bind-Ensures _ _ (λ pc_sum e_pc_sum. bind-Ensures _ _ (λ pc e_pc.
          bind-Ensures _ _ (λ coin_sum e_coin_sum. bind-Ensures _ _ (λ coin e_coin.
            let (pc_fits, pc_eq) = added pc_amount (serum.0) _ e_pc_sum in
            let (coin_fits, coin_eq) = added coin_amount (serum.1) _ e_coin_sum in
            let pc_left = subtracted pc_sum amm.state_data.need_take_pnl_pc _ e_pc in
            let coin_left = subtracted coin_sum amm.state_data.need_take_pnl_coin _ e_coin in
            of_ok (flow, is_flow, omega arith, omega arith, omega arith, omega arith)))))))

-- Where the order book holds nothing for the pool and has no events, the calculation with it and the one
-- without it agree on 64-bit amounts, errors included.
pub calc_total_without_take_pnl-no_orderbook :
    (pc_amount coin_amount owner : ℕ) (bids asks : List ℕ) (amm : AmmInfo)
    → IsWord 64 pc_amount
    → IsWord 64 coin_amount
    → calc_total_without_take_pnl pc_amount coin_amount
        (record {
          native_pc_total = 0;
          native_coin_total = 0;
          events = [];
          bids = bids;
          asks = asks;
        })
        owner
        amm
      ≡ calc_total_without_take_pnl_no_orderbook pc_amount coin_amount amm
unfolding calc_total_without_take_pnl calc_total_without_take_pnl_no_orderbook
    calc_exact_vault_in_serum ◌>>=◌
calc_total_without_take_pnl-no_orderbook pc_amount coin_amount owner bids asks amm hp hc =
    let pc_eq : pc_amount + 0 ≡ pc_amount = omega arith in
    let coin_eq : coin_amount + 0 ≡ coin_amount = omega arith in
    rw pc_eq
      (rw coin_eq (rw (Word.fit-some 64 pc_amount hp) (rw (Word.fit-some 64 coin_amount hc) refl)))

abbrev pub Fit : ℕ × ℕ → Type 0
Fit (pc, coin) = IsWord 64 pc × IsWord 64 coin

-- Totals are 64-bit numbers, of 64-bit amounts where the order book is not counted.
pub calc_total_without_take_pnl-Fit :
    (pc_amount coin_amount owner : ℕ) (book : OrderBook) (amm : AmmInfo)
    → Ensures Fit (calc_total_without_take_pnl pc_amount coin_amount book owner amm)
unfolding calc_total_without_take_pnl
calc_total_without_take_pnl-Fit pc_amount coin_amount owner book amm = bind-Ensures _ _ (λ serum _.
    bind-Ensures _ _ (λ pc_sum e_pc_sum. bind-Ensures _ _ (λ pc e_pc.
      bind-Ensures _ _ (λ coin_sum e_coin_sum. bind-Ensures _ _ (λ coin e_coin.
        let (pc_fits, _) = added pc_amount (serum.0) _ e_pc_sum in
        let (coin_fits, _) = added coin_amount (serum.1) _ e_coin_sum in
        let pc_left = subtracted pc_sum amm.state_data.need_take_pnl_pc _ e_pc in
        let coin_left = subtracted coin_sum amm.state_data.need_take_pnl_coin _ e_coin in
        of_ok (omega arith, omega arith))))))

pub calc_total_without_take_pnl_no_orderbook-Fit :
    (pc_amount coin_amount : ℕ) (amm : AmmInfo)
    → IsWord 64 pc_amount
    → IsWord 64 coin_amount
    → Ensures Fit (calc_total_without_take_pnl_no_orderbook pc_amount coin_amount amm)
unfolding calc_total_without_take_pnl_no_orderbook
calc_total_without_take_pnl_no_orderbook-Fit pc_amount coin_amount amm hp hc =
    bind-Ensures _ _ (λ pc e_pc. bind-Ensures _ _ (λ coin e_coin.
      let pc_left = subtracted pc_amount amm.state_data.need_take_pnl_pc _ e_pc in
      let coin_left = subtracted coin_amount amm.state_data.need_take_pnl_coin _ e_coin in
      of_ok (omega arith, omega arith)))
