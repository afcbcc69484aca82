-- ===== src/State/Orders/Laws.antt =====
-- The account of the planned orders is set up once.
use raydium_amm.Prelude.{◌^◌, ◌-◌, ℕ, ◌≡◌, ◌<◌, ok, err, arith}
use raydium_amm.Errors.{AmmError, custom}
use raydium_amm.State.Orders.{TargetOrders, check_init}

-- An account that is set up for an owner other than the default key starts from the given amounts and
-- with all order slots free, and setting it up again is refused with `AlreadyInUse`.
check_init_once :
    (t : TargetOrders) (x y owner x' y' owner' : ℕ) {r : TargetOrders}
    → 0 < owner
    → check_init t x y owner ≡ ok r
    → (r.calc_pnl_x ≡ x)
      × (r.calc_pnl_y ≡ y)
      × (r.owner ≡ owner)
      × (r.free_slot_bits ≡ 2 ^ 128 - 1)
      × (check_init r x' y' owner' ≡ err (custom AmmError.already_in_use))
unfolding check_init
check_init_once t x y owner x' y' owner' pos h = ground arith
