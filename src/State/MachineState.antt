-- ===== src/State/MachineState.antt =====
-- `AmmState`: the states of the machine that keeps the orders of a pool.
pub mod Laws
use raydium_amm.Prelude.{ℕ, Bool, true, false, ◌==◌, ◌||◌, if◌then◌else◌, Outcome, ok, panic}

-- `enum AmmState`
pub data AmmState : Type 0 where
  invlid_state idle_state cancel_all_orders_state plan_orders_state cancel_order_state : AmmState
  place_orders_state purge_order_state : AmmState

-- `AmmState::from_u64`; any other number is `unreachable!()`.
unfoldable pub from_u64 : ℕ → Outcome AmmState
from_u64 n =
    if n == 0
    then ok AmmState.invlid_state
    else if n == 1
    then ok AmmState.idle_state
    else if n == 2
    then ok AmmState.cancel_all_orders_state
    else if n == 3
    then ok AmmState.plan_orders_state
    else if n == 4
    then ok AmmState.cancel_order_state
    else if n == 5
    then ok AmmState.place_orders_state
    else if n == 6
    then ok AmmState.purge_order_state
    else panic

-- `AmmState::into_u64`
unfoldable pub into_u64 : AmmState → ℕ
into_u64 AmmState.invlid_state = 0
into_u64 AmmState.idle_state = 1
into_u64 AmmState.cancel_all_orders_state = 2
into_u64 AmmState.plan_orders_state = 3
into_u64 AmmState.cancel_order_state = 4
into_u64 AmmState.place_orders_state = 5
into_u64 AmmState.purge_order_state = 6

-- `AmmState::valid_state`
unfoldable pub valid_state : ℕ → Bool
valid_state n = n == 0 || n == 1 || n == 2 || n == 3 || n == 4 || n == 5 || n == 6
