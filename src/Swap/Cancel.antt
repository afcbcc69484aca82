-- ===== src/Swap/Cancel.antt =====
-- The cancellation of the pool's orders, eight client ids to a call.
pub mod Laws
use raydium_amm.Prelude.{ℕ, ◌+◌, List, [], ◌∷◌, ◌++◌, ◌==◌, if◌then◌else◌, zero, suc}
use raydium_amm.Swap.Accounts.{Call}

-- `[0u64; 8]`
abbrev pub no_ids : List ℕ
no_ids = 0 ∷ 0 ∷ 0 ∷ 0 ∷ 0 ∷ 0 ∷ 0 ∷ 0 ∷ []

-- `order_ids[count] = id`
unfoldable pub set_id : List ℕ → ℕ → ℕ → List ℕ
set_id [] n id = []
set_id (x ∷ xs) zero id = id ∷ xs
set_id (x ∷ xs) (suc n) id = x ∷ set_id xs n id

-- The body of the loop, on `amm_order_ids_vec`, `order_ids` and `count`.
unfoldable pub push_id : List (List ℕ) × List ℕ × ℕ → ℕ → List (List ℕ) × List ℕ × ℕ
unfolding set_id
push_id (vec, order_ids, count) id =
    let order_ids' = set_id order_ids count id in
    if count + 1 == 8 then (vec ++ (order_ids' ∷ []), no_ids, 0) else (vec, order_ids', count + 1)

-- The loop, and the push of the last array.
unfoldable pub batch_orders : List (List ℕ) × List ℕ × ℕ → List ℕ → List (List ℕ)
batch_orders (vec, order_ids, count) [] = if count == 0 then vec else vec ++ (order_ids ∷ [])
batch_orders state (id ∷ ids) = batch_orders (push_id state id) ids

-- The arrays of client ids of the calls that cancel the orders.
unfoldable pub order_id_batches : List ℕ → List (List ℕ)
unfolding batch_orders
order_id_batches ids = batch_orders ([], no_ids, 0) ids

unfoldable pub cancel_calls : List (List ℕ) → List Call
cancel_calls [] = []
cancel_calls (ids ∷ vec) = Call.cancel_orders ids ∷ cancel_calls vec

unfoldable pub cancel_all : List ℕ → List Call
unfolding cancel_calls
cancel_all ids = cancel_calls (order_id_batches ids)
