-- ===== src/State/MachineState/Laws.antt =====
-- The numbers and the variants of `AmmState` correspond.
use raydium_amm.Prelude.{ℕ, ◌≡◌, refl, ok, arith}
use raydium_amm.State.MachineState.{AmmState, from_u64, into_u64}

pub state_from-into : (s : AmmState) → from_u64 (into_u64 s) ≡ ok s
unfolding from_u64 into_u64
state_from-into AmmState.invlid_state = refl
state_from-into AmmState.idle_state = refl
state_from-into AmmState.cancel_all_orders_state = refl
state_from-into AmmState.plan_orders_state = refl
state_from-into AmmState.cancel_order_state = refl
state_from-into AmmState.place_orders_state = refl
state_from-into AmmState.purge_order_state = refl

pub state_into-from : (n : ℕ) {s : AmmState} → from_u64 n ≡ ok s → into_u64 s ≡ n
unfolding from_u64 into_u64
state_into-from n h = ground arith
