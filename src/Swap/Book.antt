-- ===== src/Swap/Book.antt =====
-- The calls of the order book, which move tokens between it and the vaults of the pool only.
use raydium_amm.Swap.Prepare.{Prepared}
use raydium_amm.Swap.BaseIn.{base_in_book_calls}
use raydium_amm.Swap.Cancel.{cancel_all, cancel_calls, order_id_batches}
use raydium_amm.Swap.Accounts.{Call, MarketAccount}
use raydium_amm.Math.Swap.{SwapDirection}
use raydium_amm.Swap.BaseOut.{base_out_book_calls}
use raydium_amm.Prelude.{[], ◌∷◌, Bool, List, ℕ, ◌++◌, if◌then◌else◌, All, true, ltb, false}

abbrev pub IsBookCall : Call → Type 0
IsBookCall (Call.cancel_orders ids) = Unit
IsBookCall (Call.settle_funds coin pc) = Unit
IsBookCall (Call.deposit_to vault n) = ⊥
IsBookCall (Call.withdraw_from vault n) = ⊥
IsBookCall (Call.mint_lp n) = ⊥
IsBookCall (Call.burn_lp n) = ⊥

abbrev pub IsBook : List Call → Type 0
IsBook calls = All IsBookCall calls

pub append-IsBook : (xs ys : List Call) → IsBook xs → IsBook ys → IsBook (xs ++ ys)
append-IsBook [] ys h k = k
append-IsBook (x ∷ xs) ys (h, hs) k = (h, append-IsBook xs ys hs k)

pub cancel_calls-IsBook : (vec : List (List ℕ)) → IsBook (cancel_calls vec)
unfolding cancel_calls
cancel_calls-IsBook [] = tt
cancel_calls-IsBook (ids ∷ vec) = (tt, cancel_calls-IsBook vec)

cancel_all-IsBook : (ids : List ℕ) → IsBook (cancel_all ids)
unfolding cancel_all
cancel_all-IsBook ids = cancel_calls-IsBook (order_id_batches ids)

-- The cancellations, and a settlement or none.
with_settlement :
    (test : Bool) (ids : List ℕ) (coin pc : MarketAccount)
    → IsBook (cancel_all ids ++ (if test then Call.settle_funds coin pc ∷ [] else []))
with_settlement true ids coin pc = append-IsBook (cancel_all ids) _ (cancel_all-IsBook ids) (tt, tt)
with_settlement false ids coin pc = append-IsBook (cancel_all ids) _ (cancel_all-IsBook ids) tt

if_IsBook : (test : Bool) (calls : List Call) → IsBook calls → IsBook (if test then calls else [])
if_IsBook true calls h = h
if_IsBook false calls h = tt

side_IsBook :
    (d : SwapDirection) (xs ys : List Call)
    → IsBook xs
    → IsBook ys
    → IsBook (elim d [ SwapDirection.coin_to_pc ↦ xs | SwapDirection.pc_to_coin ↦ ys ])
side_IsBook SwapDirection.coin_to_pc xs ys h k = h
side_IsBook SwapDirection.pc_to_coin xs ys h k = k

pub base_in_book_calls-IsBook : (p : Prepared) (out : ℕ) → IsBook (base_in_book_calls p out)
unfolding base_in_book_calls
base_in_book_calls-IsBook p out = if_IsBook p.enable_orderbook _ (
    side_IsBook p.swap_direction _ _
      (with_settlement (ltb p.pc_vault_amount out) p.bids MarketAccount.market_coin_vault
        MarketAccount.market_pc_vault)
      (with_settlement (ltb p.coin_vault_amount out) p.asks MarketAccount.market_coin_vault
        MarketAccount.market_pc_vault))

pub base_out_book_calls-IsBook : (p : Prepared) (out : ℕ) → IsBook (base_out_book_calls p out)
unfolding base_out_book_calls
base_out_book_calls-IsBook p out = if_IsBook p.enable_orderbook _ (
    side_IsBook p.swap_direction _ _
      (with_settlement (ltb p.pc_vault_amount out) p.bids MarketAccount.market_coin_vault
        MarketAccount.market_pc_vault)
      (with_settlement (ltb p.coin_vault_amount out) p.asks MarketAccount.market_asks
        MarketAccount.market_pc_vault))
