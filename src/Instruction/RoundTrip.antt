-- ===== src/Instruction/RoundTrip.antt =====
-- `unpack` reads back what `pack` writes.
mod Liquidity
mod Settings
mod Others
use raydium_amm.Instruction.RoundTrip.Liquidity.{deposit_trip, withdraw_trip}
use raydium_amm.Instruction.RoundTrip.Settings.{params_trip, set_params_trip}
use raydium_amm.Instruction.RoundTrip.Others.{
  base_in_read, base_out_read, SimulateForm-trip, simulate_trip, owner_trip, fee_trip,
}
use raydium_amm.Instruction.Canonical.{
  OptionFits, BothFit, ParamsForm, BaseInFits, BaseOutFits, SimulateForm, IsCanonical, RoundTrips,
}
use raydium_amm.Prelude.{
  ℕ, ◌<◌, ◌≡◌, refl, sym, ap, List, Option, none, some, to_le_bytes, from-to_le_bytes,
  from_le_bytes, subst, Outcome, ◌>>=◌, ok, ◌⊎◌, ◌∷◌, [], ◌==◌, ◌||◌, true, arith, inl, inr, false,
}
use raydium_amm.Prelude.Word.{IsWord}
use raydium_amm.State.Fees.{Fees, pack_into_slice}
use raydium_amm.State.Fees.Laws.{IsTyped, length-pack, fees_unpack-pack_all}
use raydium_amm.State.Orders.{LastOrderDistance}
use raydium_amm.State.Params.{AmmParams}
use raydium_amm.State.Simulate.{SimulateParams}
use raydium_amm.Instruction.Types.{
  AmmInstruction, SetParamsInstruction, SimulateInstruction, SwapInstructionBaseIn,
  SwapInstructionBaseOut,
}
use raydium_amm.Instruction.Unpack.{
  no_params, unpack, unpack_u64, unpack_pubkey, unpack_deposit, unpack_withdraw, unpack_set_params,
  unpack_tag, unpack_simulate, unpack_u8, unpack_swap_base_in, unpack_swap_base_out, unpack_u16,
  unpack_initialize, unpack_config, unpack_initialize2, unpack_monitor_step,
}
use raydium_amm.Instruction.Pack.{
  pack, pack_deposit, pack_withdraw, pack_set_params, pack_simulate, pack_swap_base_in,
  pack_swap_base_out, pack_config,
}

-- An instruction whose numbers fit their types, and which has the optional arguments that its parameter
-- asks for and no others (`IsCanonical`), is written, and is read back from what was written.
pub unpack-pack :
    (i : AmmInstruction)
    → IsCanonical i
    → (bytes : List ℕ) × (pack i ≡ ok bytes) × (unpack bytes ≡ ok i)
unfolding pack unpack unpack_tag unpack_u8 unpack_u16 unpack_u64 unpack_initialize
    unpack_initialize2 unpack_monitor_step ◌>>=◌
unpack-pack (AmmInstruction.initialize i) h = (
  _,
  refl,
  λ j. ok (AmmInstruction.initialize (record i { open_time = from-to_le_bytes 8 i.open_time h j })),
)
unpack-pack (AmmInstruction.initialize2 i) (ho, hp, hc) = (
  _,
  refl,
  λ j. ok (
      AmmInstruction.initialize2 (record i {
        open_time = from-to_le_bytes 8 i.open_time ho j;
        init_pc_amount = from-to_le_bytes 8 i.init_pc_amount hp j;
        init_coin_amount = from-to_le_bytes 8 i.init_coin_amount hc j;
      })),
)
unpack-pack (AmmInstruction.monitor_step m) (hp, hq, hc) = (
  _,
  refl,
  λ j. ok (
      AmmInstruction.monitor_step (record {
        plan_order_limit = from-to_le_bytes 2 m.plan_order_limit hp j;
        place_order_limit = from-to_le_bytes 2 m.place_order_limit hq j;
        cancel_order_limit = from-to_le_bytes 2 m.cancel_order_limit hc j;
      })),
)
unpack-pack (AmmInstruction.deposit d) (ha, hb, hc, ho) =
    deposit_trip d.max_coin_amount d.max_pc_amount d.base_side d.other_amount_min ha hb hc ho
unpack-pack (AmmInstruction.withdraw w) (ha, h) =
    withdraw_trip w.amount w.min_coin_amount w.min_pc_amount ha h
unpack-pack AmmInstruction.migrate_to_open_book h = (_, refl, refl)
unpack-pack (AmmInstruction.set_params p) (k, hk, form) =
    set_params_trip p k hk (params_trip k p form)
unpack-pack AmmInstruction.withdraw_pnl h = (_, refl, refl)
unpack-pack (AmmInstruction.withdraw_srm w) h = (
  _,
  refl,
  λ j. ok (AmmInstruction.withdraw_srm (record { amount = from-to_le_bytes 8 w.amount h j })),
)
unpack-pack (AmmInstruction.swap_base_in s) h =
    (9 ∷ pack_swap_base_in s, refl, rw (base_in_read s h) refl)
unpack-pack (AmmInstruction.pre_initialize p) h = (_, refl, refl)
unpack-pack (AmmInstruction.swap_base_out s) h =
    (11 ∷ pack_swap_base_out s, refl, rw (base_out_read s h) refl)
unpack-pack (AmmInstruction.simulate_info s) (k, hk, form) =
    simulate_trip s k hk (SimulateForm-trip k s form)
unpack-pack (AmmInstruction.admin_cancel_orders a) h = (
  _,
  refl,
  λ j. ok (AmmInstruction.admin_cancel_orders (record { limit = from-to_le_bytes 2 a.limit h j })),
)
unpack-pack AmmInstruction.create_config_account h = (_, refl, refl)
unpack-pack (AmmInstruction.update_config_account c) (inl (key, hp, hk, pos, e₁, e₂)) =
    subst RoundTrips
      (λ i.
        AmmInstruction.update_config_account
          (record c { owner = sym e₁ i; create_pool_fee = sym e₂ i }))
      (owner_trip c.param key hp hk pos)
unpack-pack (AmmInstruction.update_config_account c) (inr (fee, ep, hf, e₁, e₂)) =
    subst RoundTrips
      (λ i.
        AmmInstruction.update_config_account
          (record { param = sym ep i; owner = sym e₁ i; create_pool_fee = sym e₂ i }))
      (fee_trip fee hf)
