-- ===== src/Liquidity/Withdraw/Orders.antt =====
-- The loop that cancels the pool's bids and asks.
use raydium_amm.Swap.Cancel.Laws.{Batches, order_id_batches-Batches}
use raydium_amm.Swap.Cancel.{push_id, order_id_batches, batch_orders, no_ids}
use raydium_amm.Liquidity.Withdraw.{
  store_pair, store_next, store_id, flush, max_len, both_batches, store_pairs,
}
use raydium_amm.Prelude.{
  [], List, ℕ, ◌>>=◌, ◌+◌, ◌<◌, ◌∷◌, ◌≡◌, ok, lt→ltb, ◌==◌, false, refl, arith, Outcome, Bool-cases,
  inl, if◌then◌else◌, suc, length, inr, ◌++◌,
}

-- The bids and the asks side by side, and then what is left of the longer list.
abbrev pub interleave : List ℕ → List ℕ → List ℕ
interleave [] asks = asks
interleave (bid ∷ bids) [] = bid ∷ bids
interleave (bid ∷ bids) (ask ∷ asks) = bid ∷ ask ∷ interleave bids asks

-- An iteration stores one id as the loop over one list does, where there is room for it.
one_step :
    (vec : List (List ℕ)) (order_ids : List ℕ) (count id : ℕ) (rest : List ℕ)
    → count < 8
    → (store_pair (vec, order_ids, count) (id ∷ rest) [] ≡ ok (push_id (vec, order_ids, count) id))
      × (store_pair (vec, order_ids, count) [] (id ∷ rest)
          ≡ ok (push_id (vec, order_ids, count) id))
unfolding store_pair store_next store_id flush push_id ◌>>=◌
one_step vec order_ids count id rest h = rw (lt→ltb count 8 h) (refl, refl)

-- Two ids, where there is room for both.
two_steps :
    (vec : List (List ℕ)) (order_ids : List ℕ) (count bid ask : ℕ) (bids asks : List ℕ)
    → count + 1 < 8
    → store_pair (vec, order_ids, count) (bid ∷ bids) (ask ∷ asks)
      ≡ ok (push_id (push_id (vec, order_ids, count) bid) ask)
unfolding store_pair store_next store_id flush push_id ◌>>=◌
two_steps vec order_ids count bid ask bids asks h =
    let first : (count + 1 == 8) ≡ false = ground arith in
    rw (lt→ltb count 8 (omega arith)) (rw (lt→ltb (count + 1) 8 h) (rw first refl))

abbrev State : Type 0
State = List (List ℕ) × List ℕ × ℕ

-- The loop and the push of the last array.
abbrev run_loop : ℕ → State → (bids asks : List ℕ) → Outcome (List (List ℕ))
run_loop n state bids asks = do
  (vec, order_ids, count) ← store_pairs n state bids asks
  ok (if count == 0 then vec else vec ++ (order_ids ∷ []))

push_id-room : (state : State) (id : ℕ) → state.2 < 8 → (push_id state id).2 < 8
unfolding push_id
push_id-room (vec, order_ids, count) id h = ground arith

-- Two more ids keep the count even.
abbrev IsEven : State → Type 0
IsEven state = (half : ℕ) × (state.2 ≡ half + half) × (half < 4)

push_id-IsEven :
    (state : State) (bid ask : ℕ) → IsEven state → IsEven (push_id (push_id state bid) ask)
unfolding push_id
push_id-IsEven (vec, order_ids, count) bid ask (half, e, h) =
    let first : (count + 1 == 8) ≡ false = ground arith in
    rw first (elim (Bool-cases (count + 1 + 1 == 8)) [
      | inl full ↦ rw full (0, refl, omega arith)
      | inr room ↦ rw room (half + 1, omega arith, ground arith)
    ])

only_bids :
    (ids : List ℕ) (state : State)
    → state.2 < 8
    → run_loop (length ids) state ids [] ≡ ok (batch_orders state ids)
unfolding store_pairs batch_orders ◌>>=◌
only_bids [] state h = refl
only_bids (id ∷ ids) state h =
    rw ((one_step (state.0) (state.1) (state.2) id ids h).0)
      (only_bids ids (push_id state id) (push_id-room state id h))

only_asks :
    (ids : List ℕ) (state : State)
    → state.2 < 8
    → run_loop (length ids) state [] ids ≡ ok (batch_orders state ids)
unfolding store_pairs batch_orders ◌>>=◌
only_asks [] state h = refl
only_asks (id ∷ ids) state h =
    rw ((one_step (state.0) (state.1) (state.2) id ids h).1)
      (only_asks ids (push_id state id) (push_id-room state id h))

max_len-suc : (a b : ℕ) (xs ys : List ℕ) → max_len (a ∷ xs) (b ∷ ys) ≡ suc (max_len xs ys)
unfolding max_len
max_len-suc a b xs ys = ground arith

max_len-nil : (xs : List ℕ) → (max_len xs [] ≡ length xs) × (max_len [] xs ≡ length xs)
unfolding max_len
max_len-nil xs = (ground arith, ground arith)

both_lists :
    (bids asks : List ℕ) (state : State)
    → IsEven state
    → run_loop (max_len bids asks) state bids asks ≡ ok (batch_orders state (interleave bids asks))
unfolding store_pairs batch_orders ◌>>=◌
both_lists [] asks state (half, e, h) =
    rw ((max_len-nil asks).1) (only_asks asks state (omega arith))
both_lists (bid ∷ bids) [] state (half, e, h) =
    rw ((max_len-nil (bid ∷ bids)).0) (only_bids (bid ∷ bids) state (omega arith))
both_lists (bid ∷ bids) (ask ∷ asks) state (half, e, h) = rw (max_len-suc bid ask bids asks) (
    rw (two_steps (state.0) (state.1) (state.2) bid ask bids asks (omega arith)) (
      both_lists bids asks (push_id (push_id state bid) ask)
        (push_id-IsEven state bid ask (half, e, h))))

-- The loop over the bids and the asks side by side never stores out of range: it has a result, for lists
-- of any lengths, and its arrays of eight ids are, one behind another, the bids and the asks in turn and
-- then fewer than eight zeros.
pub both_batches-Batches :
    (bids asks : List ℕ)
    → (vec : List (List ℕ)) × (both_batches bids asks ≡ ok vec) × Batches (interleave bids asks) vec
unfolding both_batches order_id_batches
both_batches-Batches bids asks = (
  order_id_batches (interleave bids asks),
  both_lists bids asks ([], no_ids, 0) (0, refl, omega arith),
  order_id_batches-Batches (interleave bids asks),
)
