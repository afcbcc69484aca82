-- ===== src/Tests/State.antt =====
-- The state of a pool at concrete inputs.
use raydium_amm.Prelude.{
  ◌≡◌, ◌≢◌, ◌↔◌, ◌⊎◌, ◌<◌, ◌^◌, [], ◌∷◌, ◌++◌, ok, true, false, refl, arith, ◌>>=◌, ◌-◌,
}
use raydium_amm.Prelude.Word.{IsWord}
use raydium_amm.Uint.Reference.{reference}
use raydium_amm.State.Status.{
  AmmStatus, deposit_permission, withdraw_permission, swap_permission, orderbook_permission,
}
use raydium_amm.State.Status.Laws.{status_permissions}
use raydium_amm.State.Fees
use raydium_amm.State.Fees.{Fees, validate, pack_into_slice, unpack_from_slice}
use raydium_amm.State.Fees.Laws.{IsValid, fees_validate_iff, fees_unpack-pack}
use raydium_amm.State.Amm
use raydium_amm.State.Amm.{AmmInfo, StateData, incr_client_order_id, initial_pool}
use raydium_amm.State.Amm.Laws.{IsNew, initialize-IsNew, incr_client_order_id_fresh}

abbrev pub pool_fees : Fees
pool_fees = record {
  min_separate_numerator = 5;
  min_separate_denominator = 10000;
  trade_fee_numerator = 25;
  trade_fee_denominator = 10000;
  pnl_numerator = 12;
  pnl_denominator = 100;
  swap_fee_numerator = 25;
  swap_fee_denominator = 10000;
}

abbrev pub pool_data : StateData
pool_data = record {
  need_take_pnl_coin = 0;
  need_take_pnl_pc = 0;
  total_pnl_pc = 0;
  total_pnl_coin = 0;
  pool_open_time = 0;
  padding = 0 ∷ 0 ∷ [];
  orderbook_to_init_time = 0;
  swap_coin_in_amount = 0;
  swap_pc_out_amount = 0;
  swap_acc_pc_fee = 0;
  swap_pc_in_amount = 0;
  swap_coin_out_amount = 0;
  swap_acc_coin_fee = 0;
}

-- A pool that trades without the order book; its vaults have the keys 1 and 2.
abbrev pub pool : AmmInfo
pool = record {
  status = 6;
  nonce = 254;
  order_num = 7;
  depth = 3;
  coin_decimals = 3;
  pc_decimals = 3;
  state = 1;
  reset_flag = 0;
  min_size = 1;
  vol_max_cut_ratio = 500;
  amount_wave = 5;
  coin_lot_size = 100;
  pc_lot_size = 100;
  min_price_multiplier = 1;
  max_price_multiplier = 1000000000;
  sys_decimal_value = 1000;
  fees = pool_fees;
  state_data = pool_data;
  coin_vault = 1;
  pc_vault = 2;
  coin_vault_mint = 3;
  pc_vault_mint = 4;
  lp_mint = 5;
  open_orders = 6;
  market = 7;
  market_program = 8;
  target_orders = 9;
  padding1 = [];
  amm_owner = 10;
  lp_amount = 1000;
  client_order_id = 2 ^ 64 - 1;
  recent_epoch = 0;
  padding2 = 0;
}

status_permissions_example :
    (swap_permission AmmStatus.swap_only ≡ true → deposit_permission AmmStatus.swap_only ≡ true)
    × (deposit_permission AmmStatus.swap_only ≡ true
        → withdraw_permission AmmStatus.swap_only ≡ true)
    × (orderbook_permission AmmStatus.swap_only ≡ true
        → deposit_permission AmmStatus.swap_only ≡ true)
    × ((withdraw_permission AmmStatus.swap_only ≡ false) ↔ (
        (AmmStatus.swap_only ≡ AmmStatus.uninitialized)
        ⊎ (AmmStatus.swap_only ≡ AmmStatus.disabled)))
status_permissions_example = status_permissions AmmStatus.swap_only

fees_validate_example :
    ((validate pool_fees ≡ ok tt) ↔ IsValid pool_fees)
    × (validate (Fees.initialize pool_fees) ≡ ok tt)
fees_validate_example = fees_validate_iff pool_fees

fees_round_trip_example : unpack_from_slice (pack_into_slice pool_fees ++ (7 ∷ [])) ≡ ok pool_fees
fees_round_trip_example = fees_unpack-pack pool_fees (7 ∷ []) (record {
  min_separate_numerator_fits = omega arith;
  min_separate_denominator_fits = omega arith;
  trade_fee_numerator_fits = omega arith;
  trade_fee_denominator_fits = omega arith;
  pnl_numerator_fits = omega arith;
  pnl_denominator_fits = omega arith;
  swap_fee_numerator_fits = omega arith;
  swap_fee_denominator_fits = omega arith;
})

abbrev new_pool : AmmInfo
new_pool =
    initial_pool pool 254 1700000000 9 6 1000000000 1000000000 1000000000 5000000 1000000000 600

initialize_example : IsNew new_pool
unfolding Amm.initialize Amm.initial_sys_decimal_value Amm.initial_min_size
    raydium_amm.Math.Decimal.convert_in_pc_lot_size raydium_amm.Math.Decimal.to_u64
    raydium_amm.Math.Decimal.unwrap_u64 initial_pool ◌>>=◌
initialize_example =
    initialize-IsNew ⦃uint = reference⦄ pool 254 1700000000 9 6 1000000000 1000000 (ok 600)
      {amm = new_pool} refl

incr_client_order_id_example :
    let (amm', id) = incr_client_order_id pool in
    IsWord 64 id × (0 < id) × (id ≢ pool.client_order_id) × (amm'.client_order_id ≡ id)
incr_client_order_id_example = incr_client_order_id_fresh pool (omega arith)
