-- ===== src/State/Simulate/Laws.antt =====
-- The numbers and the variants of `SimulateParams` correspond.
use raydium_amm.Prelude.{ℕ, ◌≡◌, refl, ok, arith}
use raydium_amm.State.Simulate.{SimulateParams, from_u64, into_u64}

pub simulate_from-into : (s : SimulateParams) → from_u64 (into_u64 s) ≡ ok s
unfolding from_u64 into_u64
simulate_from-into SimulateParams.pool_info = refl
simulate_from-into SimulateParams.swap_base_in_info = refl
simulate_from-into SimulateParams.swap_base_out_info = refl
simulate_from-into SimulateParams.run_crank_info = refl

pub simulate_into-from : (n : ℕ) {s : SimulateParams} → from_u64 n ≡ ok s → into_u64 s ≡ n
unfolding from_u64 into_u64
simulate_into-from n h = ground arith
