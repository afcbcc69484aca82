-- ===== src/Instruction/Unpack.antt =====
-- `AmmInstruction::unpack`, arm by arm. Bytes behind an instruction are ignored.
use raydium_amm.Prelude.{
  ℕ, List, [], ◌∷◌, Option, none, some, leb, ◌==◌, ◌||◌, if◌then◌else◌, length, split_at,
  from_le_bytes, Outcome, ◌>>=◌, ok, err, unwrap,
}
use raydium_amm.Errors.{invalid_instruction_data}
use raydium_amm.State.Fees.{unpack_from_slice}
use raydium_amm.State.Params
use raydium_amm.State.Params.{AmmParams}
use raydium_amm.State.Simulate
use raydium_amm.State.Simulate.{SimulateParams}
use raydium_amm.Instruction.Types.{
  AmmInstruction, SetParamsInstruction, SwapInstructionBaseIn, SwapInstructionBaseOut,
}

-- An integer of `n` bytes from the front of the input.
take_int : ℕ → List ℕ → Outcome (ℕ × List ℕ)
take_int n input = elim (split_at n input) [
  | none ↦ err invalid_instruction_data
  | some (amount, rest) ↦ ok (from_le_bytes amount, rest)
]

unfoldable pub unpack_u8 : List ℕ → Outcome (ℕ × List ℕ)
unpack_u8 [] = err invalid_instruction_data
unpack_u8 (amount ∷ rest) = ok (amount, rest)

unfoldable pub unpack_u16 : List ℕ → Outcome (ℕ × List ℕ)
unfolding take_int
unpack_u16 = take_int 2

unfoldable pub unpack_u64 : List ℕ → Outcome (ℕ × List ℕ)
unfolding take_int
unpack_u64 = take_int 8

-- `Pubkey::new_from_array(*array_ref![rest, 0, 32])`: it panics on a shorter slice.
unfoldable pub unpack_pubkey : List ℕ → Outcome ℕ
unpack_pubkey rest = do (bytes, _) ← unwrap (split_at 32 rest); ok (from_le_bytes bytes)

unfoldable pub unpack_initialize : List ℕ → Outcome AmmInstruction
unpack_initialize rest = do
  (nonce, rest) ← unpack_u8 rest
  (open_time, _) ← unpack_u64 rest
  ok (AmmInstruction.initialize (record { nonce = nonce; open_time = open_time }))

unfoldable pub unpack_initialize2 : List ℕ → Outcome AmmInstruction
unpack_initialize2 rest = do
  (nonce, rest) ← unpack_u8 rest
  (open_time, rest) ← unpack_u64 rest
  (init_pc_amount, rest) ← unpack_u64 rest
  (init_coin_amount, _) ← unpack_u64 rest
  ok (
      AmmInstruction.initialize2 (record {
        nonce = nonce;
        open_time = open_time;
        init_pc_amount = init_pc_amount;
        init_coin_amount = init_coin_amount;
      }))

unfoldable pub unpack_monitor_step : List ℕ → Outcome AmmInstruction
unpack_monitor_step rest = do
  (plan_order_limit, rest) ← unpack_u16 rest
  (place_order_limit, rest) ← unpack_u16 rest
  (cancel_order_limit, _) ← unpack_u16 rest
  ok (
      AmmInstruction.monitor_step (record {
        plan_order_limit = plan_order_limit;
        place_order_limit = place_order_limit;
        cancel_order_limit = cancel_order_limit;
      }))

unpack_other_amount_min : List ℕ → Outcome (Option ℕ)
unpack_other_amount_min rest =
    if leb 8 (length rest)
    then (do (other_amount_min, _) ← unpack_u64 rest; ok (some other_amount_min))
    else ok none

unfoldable pub unpack_deposit : List ℕ → Outcome AmmInstruction
unfolding unpack_other_amount_min
unpack_deposit rest = do
  (max_coin_amount, rest) ← unpack_u64 rest
  (max_pc_amount, rest) ← unpack_u64 rest
  (base_side, rest) ← unpack_u64 rest
  other_amount_min ← unpack_other_amount_min rest
  ok (
      AmmInstruction.deposit (record {
        max_coin_amount = max_coin_amount;
        max_pc_amount = max_pc_amount;
        base_side = base_side;
        other_amount_min = other_amount_min;
      }))

unpack_minimums : List ℕ → Outcome (Option ℕ × Option ℕ)
unpack_minimums rest =
    if leb 16 (length rest)
    then (do
      (min_coin_amount, rest) ← unpack_u64 rest
      (min_pc_amount, _) ← unpack_u64 rest
      ok (some min_coin_amount, some min_pc_amount))
    else ok (none, none)

unfoldable pub unpack_withdraw : List ℕ → Outcome AmmInstruction
unfolding unpack_minimums
unpack_withdraw rest = do
  (amount, rest) ← unpack_u64 rest
  (min_coin_amount, min_pc_amount) ← unpack_minimums rest
  ok (
      AmmInstruction.withdraw (record {
        amount = amount;
        min_coin_amount = min_coin_amount;
        min_pc_amount = min_pc_amount;
      }))

abbrev pub no_params : ℕ → SetParamsInstruction
no_params param = record {
  param = param;
  value = none;
  new_pubkey = none;
  fees = none;
  last_order_distance = none;
}

-- The arm for one parameter; `rest.len()` is tested first in each.
unfoldable pub unpack_set_params : AmmParams → ℕ → List ℕ → Outcome AmmInstruction
unpack_set_params AmmParams.amm_owner param rest =
    if leb 32 (length rest)
    then (do
      new_pubkey ← unpack_pubkey rest
      ok (AmmInstruction.set_params (record (no_params param) { new_pubkey = some new_pubkey })))
    else err invalid_instruction_data
unpack_set_params AmmParams.fees param rest =
    if leb 64 (length rest)
    then (do
      fees ← unpack_from_slice rest
      ok (AmmInstruction.set_params (record (no_params param) { fees = some fees })))
    else err invalid_instruction_data
unpack_set_params AmmParams.last_order_distance param rest =
    if leb 16 (length rest)
    then (do
      (last_order_numerator, rest) ← unpack_u64 rest
      (last_order_denominator, _) ← unpack_u64 rest
      ok (
          AmmInstruction.set_params (record (no_params param) {
            last_order_distance = some (record {
              last_order_numerator = last_order_numerator;
              last_order_denominator = last_order_denominator;
            });
          })))
    else err invalid_instruction_data
unpack_set_params _ param rest =
    if leb 8 (length rest)
    then (do
      (value, _) ← unpack_u64 rest
      ok (AmmInstruction.set_params (record (no_params param) { value = some value })))
    else err invalid_instruction_data

unfoldable pub unpack_swap_base_in : List ℕ → Outcome SwapInstructionBaseIn
unpack_swap_base_in rest = do
  (amount_in, rest) ← unpack_u64 rest
  (minimum_amount_out, _) ← unpack_u64 rest
  ok (record { amount_in = amount_in; minimum_amount_out = minimum_amount_out })

unfoldable pub unpack_swap_base_out : List ℕ → Outcome SwapInstructionBaseOut
unpack_swap_base_out rest = do
  (max_amount_in, rest) ← unpack_u64 rest
  (amount_out, _) ← unpack_u64 rest
  ok (record { max_amount_in = max_amount_in; amount_out = amount_out })

unfoldable pub unpack_simulate : SimulateParams → ℕ → List ℕ → Outcome AmmInstruction
unpack_simulate SimulateParams.swap_base_in_info param rest = do
  swap_base_in ← unpack_swap_base_in rest
  ok (
      AmmInstruction.simulate_info (record {
        param = param;
        swap_base_in_value = some swap_base_in;
        swap_base_out_value = none;
      }))
unpack_simulate SimulateParams.swap_base_out_info param rest = do
  swap_base_out ← unpack_swap_base_out rest
  ok (
      AmmInstruction.simulate_info (record {
        param = param;
        swap_base_in_value = none;
        swap_base_out_value = some swap_base_out;
      }))
unpack_simulate _ param rest = ok (
    AmmInstruction.simulate_info
      (record { param = param; swap_base_in_value = none; swap_base_out_value = none }))

-- For the parameters 0 and 1 the length of the rest is not tested before it is sliced.
unfoldable pub unpack_config : ℕ → List ℕ → Outcome AmmInstruction
unpack_config param rest =
    if param == 0 || param == 1
    then (do
      owner ← unpack_pubkey rest
      ok (
          AmmInstruction.update_config_account
            (record { param = param; owner = some owner; create_pool_fee = none })))
    else if param == 2
    then (do
      (create_pool_fee, _) ← unpack_u64 rest
      ok (
          AmmInstruction.update_config_account
            (record { param = param; owner = none; create_pool_fee = some create_pool_fee })))
    else err invalid_instruction_data

-- The arm for one tag.
unfoldable pub unpack_tag : ℕ → List ℕ → Outcome AmmInstruction
unpack_tag tag rest =
    if tag == 0
    then unpack_initialize rest
    else if tag == 1
    then unpack_initialize2 rest
    else if tag == 2
    then unpack_monitor_step rest
    else if tag == 3
    then unpack_deposit rest
    else if tag == 4
    then unpack_withdraw rest
    else if tag == 5
    then ok AmmInstruction.migrate_to_open_book
    else if tag == 6
    then (do
      (param, rest) ← unpack_u8 rest
      kind ← Params.from_u64 param
      unpack_set_params kind param rest)
    else if tag == 7
    then ok AmmInstruction.withdraw_pnl
    else if tag == 8
    then (do
      (amount, _) ← unpack_u64 rest
      ok (AmmInstruction.withdraw_srm (record { amount = amount })))
    else if tag == 9
    then (do swap ← unpack_swap_base_in rest; ok (AmmInstruction.swap_base_in swap))
    else if tag == 10
    then (do
      (nonce, _) ← unpack_u8 rest
      ok (AmmInstruction.pre_initialize (record { nonce = nonce })))
    else if tag == 11
    then (do swap ← unpack_swap_base_out rest; ok (AmmInstruction.swap_base_out swap))
    else if tag == 12
    then (do
      (param, rest) ← unpack_u8 rest
      kind ← Simulate.from_u64 param
      unpack_simulate kind param rest)
    else if tag == 13
    then (do
      (limit, _) ← unpack_u16 rest
      ok (AmmInstruction.admin_cancel_orders (record { limit = limit })))
    else if tag == 14
    then ok AmmInstruction.create_config_account
    else if tag == 15
    then (do (param, rest) ← unpack_u8 rest; unpack_config param rest)
    else err invalid_instruction_data

-- `AmmInstruction::unpack`
unfoldable pub unpack : List ℕ → Outcome AmmInstruction
unfolding unpack_tag
unpack [] = err invalid_instruction_data
unpack (tag ∷ rest) = unpack_tag tag rest
