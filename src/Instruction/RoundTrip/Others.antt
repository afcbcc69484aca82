-- ===== src/Instruction/RoundTrip/Others.antt =====
-- The swaps, `simulate_info` and `update_config_account` are read back.
use raydium_amm.Instruction.Canonical.{BaseInFits, BaseOutFits, SimulateForm, RoundTrips}
use raydium_amm.Prelude.{
  ℕ, ◌<◌, ◌≡◌, refl, sym, List, none, some, to_le_bytes, from-to_le_bytes, ◌>>=◌, ok, ◌∷◌, [], ◌==◌,
  ◌||◌, true, arith, false,
}
use raydium_amm.Prelude.Word.{IsWord}
use raydium_amm.State.Simulate
use raydium_amm.State.Simulate.{SimulateParams}
use raydium_amm.Instruction.Types.{
  AmmInstruction, SimulateInstruction, SwapInstructionBaseIn, SwapInstructionBaseOut,
}
use raydium_amm.Instruction.Unpack.{
  unpack, unpack_u64, unpack_pubkey, unpack_tag, unpack_simulate, unpack_u8, unpack_swap_base_in,
  unpack_swap_base_out, unpack_config,
}
use raydium_amm.Instruction.Pack.{
  pack, pack_simulate, pack_swap_base_in, pack_swap_base_out, pack_config,
}

pub base_in_read :
    (v : SwapInstructionBaseIn) → BaseInFits v → unpack_swap_base_in (pack_swap_base_in v) ≡ ok v
unfolding pack_swap_base_in unpack_swap_base_in unpack_u64 ◌>>=◌
base_in_read v (ha, hb) = λ i. ok (record {
  amount_in = from-to_le_bytes 8 v.amount_in ha i;
  minimum_amount_out = from-to_le_bytes 8 v.minimum_amount_out hb i;
})

pub base_out_read :
    (v : SwapInstructionBaseOut)
    → BaseOutFits v
    → unpack_swap_base_out (pack_swap_base_out v) ≡ ok v
unfolding pack_swap_base_out unpack_swap_base_out unpack_u64 ◌>>=◌
base_out_read v (ha, hb) = λ i. ok (record {
  max_amount_in = from-to_le_bytes 8 v.max_amount_in ha i;
  amount_out = from-to_le_bytes 8 v.amount_out hb i;
})

abbrev SimulateTrip : SimulateParams → SimulateInstruction → Type 0
SimulateTrip k s =
    (bytes : List ℕ) × (pack_simulate k s ≡ ok bytes)
    × (unpack_simulate k s.param bytes ≡ ok (AmmInstruction.simulate_info s))

pub SimulateForm-trip :
    (k : SimulateParams) (s : SimulateInstruction) → SimulateForm k s → SimulateTrip k s
unfolding pack_simulate unpack_simulate ◌>>=◌
SimulateForm-trip SimulateParams.pool_info s (e₁, e₂) = (
  [],
  refl,
  λ i. ok (
      AmmInstruction.simulate_info
        (record s { swap_base_in_value = sym e₁ i; swap_base_out_value = sym e₂ i })),
)
SimulateForm-trip SimulateParams.run_crank_info s (e₁, e₂) = (
  [],
  refl,
  λ i. ok (
      AmmInstruction.simulate_info
        (record s { swap_base_in_value = sym e₁ i; swap_base_out_value = sym e₂ i })),
)
SimulateForm-trip SimulateParams.swap_base_in_info s (v, fits, e₁, e₂) = (
  pack_swap_base_in v,
  rw e₁ refl,
  rw (base_in_read v fits) (λ i. ok (
      AmmInstruction.simulate_info
        (record s { swap_base_in_value = sym e₁ i; swap_base_out_value = sym e₂ i }))),
)
SimulateForm-trip SimulateParams.swap_base_out_info s (v, fits, e₁, e₂) = (
  pack_swap_base_out v,
  rw e₂ refl,
  rw (base_out_read v fits) (λ i. ok (
      AmmInstruction.simulate_info
        (record s { swap_base_in_value = sym e₁ i; swap_base_out_value = sym e₂ i }))),
)

pub simulate_trip :
    (s : SimulateInstruction) (k : SimulateParams)
    → Simulate.from_u64 s.param ≡ ok k
    → SimulateTrip k s
    → RoundTrips (AmmInstruction.simulate_info s)
unfolding pack unpack unpack_tag unpack_u8 ◌>>=◌
simulate_trip s k hk (bytes, packed, read) =
    (12 ∷ s.param ∷ bytes, rw hk (rw packed refl), rw hk read)

below_two : (n : ℕ) → n < 2 → (n == 0 || n == 1) ≡ true
below_two n h = ground arith

not_zero : (n : ℕ) → 0 < n → (n == 0) ≡ false
not_zero n h = ground arith

pub owner_trip :
    (param key : ℕ)
    → param < 2
    → IsWord 256 key
    → 0 < key
    → RoundTrips (
        AmmInstruction.update_config_account
          (record { param = param; owner = some key; create_pool_fee = none }))
unfolding pack unpack unpack_tag unpack_u8 pack_config unpack_config unpack_pubkey ◌>>=◌
owner_trip param key hp hk pos = (
  15 ∷ param ∷ to_le_bytes 32 key,
  rw (below_two param hp) (rw (not_zero key pos) refl),
  rw (below_two param hp) (λ i. ok (
      AmmInstruction.update_config_account (record {
        param = param;
        owner = some (from-to_le_bytes 32 key hk i);
        create_pool_fee = none;
      }))),
)

pub fee_trip :
    (fee : ℕ)
    → IsWord 64 fee
    → RoundTrips (
        AmmInstruction.update_config_account
          (record { param = 2; owner = none; create_pool_fee = some fee }))
unfolding pack unpack unpack_tag unpack_u8 pack_config unpack_config unpack_u64 ◌>>=◌
fee_trip fee h = (
  _,
  refl,
  λ i. ok (
      AmmInstruction.update_config_account
        (record { param = 2; owner = none; create_pool_fee = some (from-to_le_bytes 8 fee h i) })),
)
