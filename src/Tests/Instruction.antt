-- ===== src/Tests/Instruction.antt =====
-- An instruction with a parameter at a concrete input.
use raydium_amm.Prelude.{ℕ, ◌≡◌, refl, List, none, some, ok, arith}
use raydium_amm.State.Params.{AmmParams}
use raydium_amm.Instruction.Types.{AmmInstruction, SetParamsInstruction}
use raydium_amm.Instruction.Unpack.{unpack}
use raydium_amm.Instruction.Pack.{pack}
use raydium_amm.Instruction.RoundTrip.{unpack-pack}

abbrev new_depth : SetParamsInstruction
new_depth = record {
  param = 3;
  value = some 5;
  new_pubkey = none;
  fees = none;
  last_order_distance = none;
}

unpack-pack_example :
    (bytes : List ℕ) × (pack (AmmInstruction.set_params new_depth) ≡ ok bytes)
    × (unpack bytes ≡ ok (AmmInstruction.set_params new_depth))
unfolding raydium_amm.State.Params.from_u64
unpack-pack_example =
    unpack-pack (AmmInstruction.set_params new_depth)
      (AmmParams.depth, refl, (5, omega arith, refl))
