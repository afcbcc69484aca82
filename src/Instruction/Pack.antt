-- ===== src/Instruction/Pack.antt =====
-- `AmmInstruction::pack`, arm by arm.
use raydium_amm.Prelude.{
  ℕ, List, [], ◌∷◌, ◌++◌, Option, none, some, ◌==◌, ◌||◌, if◌then◌else◌, to_le_bytes, Outcome,
  ◌>>=◌, ok, err,
}
use raydium_amm.Errors.{invalid_instruction_data}
use raydium_amm.State.Fees.{pack_into_slice}
use raydium_amm.State.Params
use raydium_amm.State.Params.{AmmParams}
use raydium_amm.State.Simulate
use raydium_amm.State.Simulate.{SimulateParams}
use raydium_amm.Instruction.Types.{
  AmmInstruction, DepositInstruction, WithdrawInstruction, SetParamsInstruction,
  SimulateInstruction, SwapInstructionBaseIn, SwapInstructionBaseOut, ConfigArgs,
}

-- `match o { Some(a) => a, None => return Err(InvalidInstructionData) }`
abbrev pub required {ℓ} : {A : Type ℓ} → Option A → Outcome A
required none = err invalid_instruction_data
required (some a) = ok a

-- The bytes behind the two optional bounds; they are written only if all are there.
abbrev pub pack_option : Option ℕ → List ℕ
pack_option none = []
pack_option (some v) = to_le_bytes 8 v

abbrev pub pack_both : Option ℕ → Option ℕ → List ℕ
pack_both (some v) (some w) = to_le_bytes 8 v ++ to_le_bytes 8 w
pack_both (some v) none = []
pack_both none w = []

unfoldable pub pack_deposit : DepositInstruction → List ℕ
pack_deposit d =
    to_le_bytes 8 d.max_coin_amount
    ++ (to_le_bytes 8 d.max_pc_amount
        ++ (to_le_bytes 8 d.base_side ++ pack_option d.other_amount_min))

unfoldable pub pack_withdraw : WithdrawInstruction → List ℕ
pack_withdraw w = to_le_bytes 8 w.amount ++ pack_both w.min_coin_amount w.min_pc_amount

unfoldable pub pack_set_params : AmmParams → SetParamsInstruction → Outcome (List ℕ)
pack_set_params AmmParams.amm_owner p = do
  new_pubkey ← required p.new_pubkey
  ok (to_le_bytes 32 new_pubkey)
pack_set_params AmmParams.fees p = do fees ← required p.fees; ok (pack_into_slice fees)
pack_set_params AmmParams.last_order_distance p = do
  distance ← required p.last_order_distance
  ok (to_le_bytes 8 distance.last_order_numerator ++ to_le_bytes 8 distance.last_order_denominator)
pack_set_params _ p = do value ← required p.value; ok (to_le_bytes 8 value)

unfoldable pub pack_swap_base_in : SwapInstructionBaseIn → List ℕ
pack_swap_base_in s = to_le_bytes 8 s.amount_in ++ to_le_bytes 8 s.minimum_amount_out

unfoldable pub pack_swap_base_out : SwapInstructionBaseOut → List ℕ
pack_swap_base_out s = to_le_bytes 8 s.max_amount_in ++ to_le_bytes 8 s.amount_out

unfoldable pub pack_simulate : SimulateParams → SimulateInstruction → Outcome (List ℕ)
pack_simulate SimulateParams.swap_base_in_info s = do
  swap_base_in ← required s.swap_base_in_value
  ok (pack_swap_base_in swap_base_in)
pack_simulate SimulateParams.swap_base_out_info s = do
  swap_base_out ← required s.swap_base_out_value
  ok (pack_swap_base_out swap_base_out)
pack_simulate _ s = ok []

-- An owner that is the default key, 0, is refused.
unfoldable pub pack_config : ConfigArgs → Outcome (List ℕ)
pack_config c =
    if c.param == 0 || c.param == 1
    then (do
      owner ← required c.owner
      if owner == 0 then err invalid_instruction_data else ok (to_le_bytes 32 owner))
    else if c.param == 2
    then (do create_pool_fee ← required c.create_pool_fee; ok (to_le_bytes 8 create_pool_fee))
    else err invalid_instruction_data

unfoldable pub pack : AmmInstruction → Outcome (List ℕ)
pack (AmmInstruction.initialize i) = ok (0 ∷ i.nonce ∷ to_le_bytes 8 i.open_time)
pack (AmmInstruction.initialize2 i) = ok (
    1
    ∷ i.nonce
    ∷ (to_le_bytes 8 i.open_time
        ++ (to_le_bytes 8 i.init_pc_amount ++ to_le_bytes 8 i.init_coin_amount)))
pack (AmmInstruction.monitor_step m) = ok (
    2
    ∷ (to_le_bytes 2 m.plan_order_limit
        ++ (to_le_bytes 2 m.place_order_limit ++ to_le_bytes 2 m.cancel_order_limit)))
pack (AmmInstruction.deposit d) = ok (3 ∷ pack_deposit d)
pack (AmmInstruction.withdraw w) = ok (4 ∷ pack_withdraw w)
pack AmmInstruction.migrate_to_open_book = ok (5 ∷ [])
pack (AmmInstruction.set_params p) = do
  kind ← Params.from_u64 p.param
  bytes ← pack_set_params kind p
  ok (6 ∷ p.param ∷ bytes)
pack AmmInstruction.withdraw_pnl = ok (7 ∷ [])
pack (AmmInstruction.withdraw_srm w) = ok (8 ∷ to_le_bytes 8 w.amount)
pack (AmmInstruction.swap_base_in s) = ok (9 ∷ pack_swap_base_in s)
pack (AmmInstruction.pre_initialize p) = ok (10 ∷ p.nonce ∷ [])
pack (AmmInstruction.swap_base_out s) = ok (11 ∷ pack_swap_base_out s)
pack (AmmInstruction.simulate_info s) = do
  kind ← Simulate.from_u64 s.param
  bytes ← pack_simulate kind s
  ok (12 ∷ s.param ∷ bytes)
pack (AmmInstruction.admin_cancel_orders a) = ok (13 ∷ to_le_bytes 2 a.limit)
pack AmmInstruction.create_config_account = ok (14 ∷ [])
pack (AmmInstruction.update_config_account c) = do bytes ← pack_config c; ok (15 ∷ c.param ∷ bytes)
