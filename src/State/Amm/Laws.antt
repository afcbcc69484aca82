-- ===== src/State/Amm/Laws.antt =====
-- A new pool's account, and the client order ids.
use raydium_amm.Prelude.{
  ◌>>=◌, ℕ, ◌^◌, ◌≤◌, ◌<◌, ◌≡◌, ◌≢◌, refl, Outcome, ok, arith, ensures_value, bind-Ensures, of_ok,
}
use raydium_amm.Prelude.Word.{IsWord}
use raydium_amm.Uint.{Uint}
use raydium_amm.Math.Decimal.{to_u64}
use raydium_amm.State.Constants.{ten_thousand, max_order_limit}
use raydium_amm.State.Fees
use raydium_amm.State.Fees.Laws.{IsValid}
use native.Mathlib.Nat.{pow-le-pow_right}
use raydium_amm.State.Status
use raydium_amm.State.MachineState
use raydium_amm.State.Amm.{
  AmmInfo, initialize_data, initial_sys_decimal_value, initial_pool, initialize,
  incr_client_order_id,
}

-- The settings of a pool that `SetParams` guards.
pub record IsConfigured (amm : AmmInfo) : Type 0 where
  pub status_le : amm.status ≤ 7
  pub state_le : amm.state ≤ 6
  pub order_num_le : amm.order_num ≤ max_order_limit
  pub depth_pos : 0 < amm.depth
  pub depth_lt : amm.depth < 100
  pub vol_max_cut_ratio_le : amm.vol_max_cut_ratio ≤ ten_thousand
  pub multipliers_lt : amm.min_price_multiplier < amm.max_price_multiplier

pow_mono : (c p : ℕ) → c ≤ p → 10 ^ c ≤ 10 ^ p
pow_mono c p h = pow-le-pow_right (omega arith) h

sys_decimal_value_bounds :
    (c p cl pl : ℕ) {sys : ℕ}
    → initial_sys_decimal_value c p cl pl ≡ ok sys
    → IsWord 64 sys × (10 ^ c ≤ sys) × (10 ^ p ≤ sys)
unfolding initial_sys_decimal_value to_u64 ◌>>=◌
sys_decimal_value_bounds c p cl pl h = ground (arith, pow_mono c p, pow_mono p c)

-- A pool that is set up but not yet open.
pub record IsNew (amm : AmmInfo) : Type 0 where
  pub configured : IsConfigured amm
  pub fees_valid : IsValid amm.fees
  pub uninitialized : amm.status ≡ 0
  pub idle : amm.state ≡ 1
  pub no_coin_pnl : amm.state_data.need_take_pnl_coin ≡ 0
  pub no_pc_pnl : amm.state_data.need_take_pnl_pc ≡ 0
  pub scale_fits : IsWord 64 amm.sys_decimal_value
  pub coin_unit_le : 10 ^ amm.coin_decimals ≤ amm.sys_decimal_value
  pub pc_unit_le : 10 ^ amm.pc_decimals ≤ amm.sys_decimal_value

initial_pool-IsNew :
    (self : AmmInfo) (nonce open_time c p cl sys min_size wave pl epoch : ℕ)
    → IsWord 64 sys
    → 10 ^ c ≤ sys
    → 10 ^ p ≤ sys
    → IsNew (initial_pool self nonce open_time c p cl sys min_size wave pl epoch)
unfolding initial_pool Fees.initialize initialize_data Status.into_u64 MachineState.into_u64
initial_pool-IsNew self nonce open_time c p cl sys min_size wave pl epoch fits coin_le pc_le =
    record {
      configured = omega arith;
      fees_valid = omega arith;
      uninitialized = refl;
      idle = refl;
      no_coin_pnl = refl;
      no_pc_pnl = refl;
      scale_fits = fits;
      coin_unit_le = coin_le;
      pc_unit_le = pc_le;
    }

module _ ⦃uint : Uint⦄ where
  -- The pool that `initialize` sets up, where it succeeds, is configured, has valid fees and no profit
  -- outstanding, is not yet open (`Uninitialized`, in `IdleState`), and its scale is a 64-bit number
  -- of at least one unit of each token.
  pub initialize-IsNew :
      (self : AmmInfo) (nonce open_time c p cl pl : ℕ) (epoch : Outcome ℕ) {amm : AmmInfo}
      → initialize self nonce open_time c p cl pl epoch ≡ ok amm
      → IsNew amm
  unfolding initialize
  initialize-IsNew self nonce open_time c p cl pl epoch =
      ensures_value {P = IsNew} (initialize self nonce open_time c p cl pl epoch) (
        bind-Ensures _ _ (λ sys scaled. bind-Ensures _ _ (λ min_size _. bind-Ensures _ _ (λ wave _.
          bind-Ensures _ _ (λ amount_wave _. bind-Ensures _ _ (λ pc_lot _.
            bind-Ensures _ _ (λ recent _.
              let (fits, coin_le, pc_le) = sys_decimal_value_bounds c p cl pl scaled in
              of_ok (
                initial_pool-IsNew self nonce open_time c p cl sys min_size amount_wave pc_lot
                  recent fits coin_le pc_le))))))))

-- A new client order id is a 64-bit number, never 0, differs from the one before, and is the one that
-- the account keeps.
pub incr_client_order_id_fresh :
    (amm : AmmInfo)
    → IsWord 64 amm.client_order_id
    → let (amm', id) = incr_client_order_id amm in
      IsWord 64 id × (0 < id) × (id ≢ amm.client_order_id) × (amm'.client_order_id ≡ id)
unfolding incr_client_order_id
incr_client_order_id_fresh amm h = ground arith
