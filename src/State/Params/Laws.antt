-- ===== src/State/Params/Laws.antt =====
-- The numbers and the variants of `AmmParams` correspond.
use raydium_amm.Prelude.{ℕ, ◌≡◌, refl, ok, arith}
use raydium_amm.State.Params.{AmmParams, from_u64, into_u64}

pub params_from-into : (s : AmmParams) → from_u64 (into_u64 s) ≡ ok s
unfolding from_u64 into_u64
params_from-into AmmParams.status = refl
params_from-into AmmParams.state = refl
params_from-into AmmParams.order_num = refl
params_from-into AmmParams.depth = refl
params_from-into AmmParams.amount_wave = refl
params_from-into AmmParams.min_price_multiplier = refl
params_from-into AmmParams.max_price_multiplier = refl
params_from-into AmmParams.min_size = refl
params_from-into AmmParams.vol_max_cut_ratio = refl
params_from-into AmmParams.fees = refl
params_from-into AmmParams.amm_owner = refl
params_from-into AmmParams.set_open_time = refl
params_from-into AmmParams.last_order_distance = refl
params_from-into AmmParams.init_order_depth = refl
params_from-into AmmParams.set_switch_time = refl
params_from-into AmmParams.clear_open_time = refl
params_from-into AmmParams.seperate = refl
params_from-into AmmParams.update_open_order = refl

pub params_into-from : (n : ℕ) {s : AmmParams} → from_u64 n ≡ ok s → into_u64 s ≡ n
unfolding from_u64 into_u64
params_into-from n h = ground arith
