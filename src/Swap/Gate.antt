-- ===== src/Swap/Gate.antt =====
-- When a pool can be swapped with.
use raydium_amm.Errors.{custom, AmmError}
use raydium_amm.Prelude.{
  err, inl, inr, refl, ltb, leb, false, ◌==◌, if◌then◌else◌, ◌⊎◌, ℕ, ◌≡◌, ◌≤◌, ok, true, ◌>>=◌,
  arith, ◌⊎◌, ◌<◌, err,
}
use raydium_amm.State.Status
use raydium_amm.State.Status.{AmmStatus, swap_permission, orderbook_permission}
use raydium_amm.State.Amm.{AmmInfo}
use raydium_amm.Swap.Prepare.{open_for_swap}

-- The pool may be swapped with at a time.
abbrev pub IsTradable : ℕ → AmmInfo → Type 0
IsTradable now amm =
    (amm.status ≡ 1)
    ⊎ (amm.status ≡ 6)
    ⊎ ((amm.status ≡ 7) × (amm.state_data.pool_open_time ≤ now))
    ⊎ ((amm.status ≡ 5) × (amm.state_data.orderbook_to_init_time ≤ now))

-- The status that a pool trades with.
abbrev pub trading_status : ℕ → ℕ
trading_status n = if n == 7 then 6 else if n == 5 then 1 else n

not_below : (a b : ℕ) → b ≤ a → ltb a b ≡ false
not_below a b h = ground arith

reached : (a b : ℕ) → a ≤ b → leb a b ≡ true
reached a b h = ground arith

opens :
    (now : ℕ) (amm : AmmInfo)
    → IsTradable now amm
    → open_for_swap (ok now) amm ≡ ok (record amm { status = trading_status amm.status })
unfolding open_for_swap ◌>>=◌ swap_permission Status.from_u64 Status.into_u64
opens now amm (inl h) = rw h refl
opens now amm (inr (inl h)) = rw h refl
opens now amm (inr (inr (inl (h, le)))) =
    rw h (rw (not_below now amm.state_data.pool_open_time le) refl)
opens now amm (inr (inr (inr (h, le)))) =
    rw h (rw (reached amm.state_data.orderbook_to_init_time now le) refl)

refuses :
    (now : ℕ) (amm : AmmInfo)
    → amm.status < 8
    → ¬ IsTradable now amm
    → open_for_swap (ok now) amm ≡ err (custom AmmError.invalid_status)
unfolding open_for_swap ◌>>=◌ swap_permission Status.from_u64 Status.into_u64
refuses now amm h shut = ground arith

-- A pool whose status is one of the eight is opened for a swap exactly if it may be swapped with at the
-- time: then `WaitingTrade` becomes `SwapOnly`, `OrderBookOnly` becomes `Initialized`, and nothing else
-- changes; in every other case the error is `InvalidStatus`.
pub open_for_swap-IsTradable :
    (now : ℕ) (amm : AmmInfo)
    → amm.status < 8
    → (IsTradable now amm
        → open_for_swap (ok now) amm ≡ ok (record amm { status = trading_status amm.status }))
      × (¬ IsTradable now amm → open_for_swap (ok now) amm ≡ err (custom AmmError.invalid_status))
open_for_swap-IsTradable now amm h = (opens now amm, refuses now amm h)
