-- ===== src/Simulation/Quote.antt =====
-- `simulate_swap_base_in` and `simulate_swap_base_out`: what a swap would pay.
use raydium_amm.Swap.Prepare.{calc_total_without_take_pnl}
use raydium_amm.State.Status.{swap_permission}
use raydium_amm.Prelude.Word
use raydium_amm.Math.CeilDiv.{checked_ceil_div}
use raydium_amm.State.Loading.{load_amm}
use raydium_amm.Instruction.Types.{
  SwapInstructionBaseIn, SwapInstructionBaseOut, SimulateInstruction,
}
use raydium_amm.Math.Swap.{SwapDirection, swap_token_amount_base_out, swap_token_amount_base_in}
use raydium_amm.Swap.Accounts.{TokenAccount}
use raydium_amm.Uint.{Uint, mul128, as_u64, sub128}
use raydium_amm.State.Amm.{AmmInfo}
use raydium_amm.Simulation.Data.{
  SimulateAccounts, SimulateRuntime, GetPoolData, GetSwapBaseInData, GetSwapBaseOutData,
  default_pool_data,
}
use raydium_amm.Errors.{AmmError}
use raydium_amm.State.Status
use raydium_amm.Prelude.{
  some, none, ℕ, Outcome, if◌then◌else◌, ◌>>=◌, ◌>>◌, ensure, ◌==◌, unwrap, ◌&&◌, ok, not, fail,
  ◌||◌,
}

-- What both simulations have read when they compute the amounts.
pub record SimulatedPool : Type 0 where
  pub amm : AmmInfo
  pub lp_decimals : ℕ
  pub total_pc_without_take_pnl : ℕ
  pub total_coin_without_take_pnl : ℕ
  pub swap_direction : SwapDirection

unfoldable pub check_swap_keys : SimulateAccounts → AmmInfo → (authority : ℕ) → Outcome (Unit {0})
check_swap_keys accounts amm authority = do
  ensure (accounts.amm_authority == authority) AmmError.invalid_program_address
  ensure (accounts.amm_coin_vault == amm.coin_vault) AmmError.invalid_coin_vault
  ensure (accounts.amm_pc_vault == amm.pc_vault) AmmError.invalid_pc_vault
  ensure (accounts.amm_open_orders == amm.open_orders) AmmError.invalid_open_orders
  ensure (accounts.amm_target_orders == amm.target_orders) AmmError.invalid_target_orders
  ensure (accounts.amm_lp_mint == amm.lp_mint) AmmError.invalid_pool_mint
  ensure (accounts.market_program == amm.market_program) AmmError.invalid_market_program
  ensure (accounts.market == amm.market) AmmError.invalid_market
  ensure (not (accounts.user_source == amm.pc_vault || accounts.user_source == amm.coin_vault))
      AmmError.invalid_input
  ensure
      (not
        (accounts.user_destination == amm.pc_vault || accounts.user_destination == amm.coin_vault))
      AmmError.invalid_input

unfoldable pub simulated_direction :
    (source destination coin_vault pc_vault : TokenAccount) → Outcome SwapDirection
simulated_direction source destination coin_vault pc_vault =
    if source.mint == coin_vault.mint && destination.mint == pc_vault.mint
    then ok SwapDirection.coin_to_pc
    else if source.mint == pc_vault.mint && destination.mint == coin_vault.mint
    then ok SwapDirection.pc_to_coin
    else fail AmmError.invalid_input

unfoldable pub prepare_simulation : SimulateRuntime → SimulateAccounts → Outcome SimulatedPool
prepare_simulation runtime accounts = do
  ensure accounts.user_source_owner_is_signer AmmError.invalid_sign_account
  amm ← load_amm accounts.amm
  status ← Status.from_u64 amm.status
  ensure (swap_permission status) AmmError.invalid_status
  authority ← runtime.authority_id amm.nonce
  check_swap_keys accounts amm authority
  market ← runtime.load_market
  coin_vault ← runtime.unpack_token_account accounts.amm_coin_vault
  pc_vault ← runtime.unpack_token_account accounts.amm_pc_vault
  lp_decimals ← runtime.unpack_mint accounts.amm_lp_mint
  source ← runtime.unpack_token_account accounts.user_source
  destination ← runtime.unpack_token_account accounts.user_destination
  direction ← simulated_direction source destination coin_vault pc_vault
  (pc, coin) ←
      calc_total_without_take_pnl pc_vault.amount coin_vault.amount market.book
        accounts.amm_open_orders amm
  ok (record {
    amm = amm;
    lp_decimals = lp_decimals;
    total_pc_without_take_pnl = pc;
    total_coin_without_take_pnl = coin;
    swap_direction = direction;
  })

unfoldable pub pool_data_of : SimulatedPool → (amm_key : ℕ) → GetPoolData
pool_data_of s amm_key = record {
  status = s.amm.status;
  coin_decimals = s.amm.coin_decimals;
  pc_decimals = s.amm.pc_decimals;
  lp_decimals = s.lp_decimals;
  pool_pc_amount = s.total_pc_without_take_pnl;
  pool_coin_amount = s.total_coin_without_take_pnl;
  pnl_pc_amount = 0;
  pnl_coin_amount = 0;
  pool_lp_supply = s.amm.lp_amount;
  pool_open_time = s.amm.state_data.pool_open_time;
  amm_id = some amm_key;
}

-- The prices before and after are quotients of whole numbers; `change` is the larger less the smaller, by
-- the direction.
unfoldable pub relative_change : (before change_from change_to : ℕ) → Outcome ℕ
relative_change before change_from change_to = do
  change ← unwrap (Word.checked_sub change_from change_to)
  scaled ← unwrap (Word.checked_mul 64 change 1000000)
  unwrap (Word.checked_div scaled before)

unfoldable pub calc_price_impact : SwapDirection → (pc coin paid out : ℕ) → Outcome ℕ
calc_price_impact SwapDirection.coin_to_pc pc coin paid out = do
  pc_after ← unwrap (Word.checked_sub pc out)
  coin_after ← unwrap (Word.checked_add 64 coin paid)
  before ← unwrap (Word.checked_div pc coin)
  after ← unwrap (Word.checked_div pc_after coin_after)
  relative_change before before after
calc_price_impact SwapDirection.pc_to_coin pc coin paid out = do
  pc_after ← unwrap (Word.checked_add 64 pc paid)
  coin_after ← unwrap (Word.checked_sub coin out)
  before ← unwrap (Word.checked_div pc coin)
  after ← unwrap (Word.checked_div pc_after coin_after)
  relative_change before after before

module _ ⦃uint : Uint⦄ where
  unfoldable pub simulate_base_in :
      SimulatedPool → (amm_key : ℕ) → SwapInstructionBaseIn → Outcome GetSwapBaseInData
  simulate_base_in s amm_key swap = do
    fee_numerator ← mul128 swap.amount_in s.amm.fees.swap_fee_numerator
    (swap_fee, _) ← unwrap (checked_ceil_div fee_numerator s.amm.fees.swap_fee_denominator)
    swap_in_after_deduct_fee ← sub128 swap.amount_in swap_fee
    out ←
        swap_token_amount_base_in swap_in_after_deduct_fee s.total_pc_without_take_pnl
          s.total_coin_without_take_pnl s.swap_direction
    swap_amount_out ← as_u64 out
    impact ←
        calc_price_impact s.swap_direction s.total_pc_without_take_pnl s.total_coin_without_take_pnl
          swap.amount_in swap_amount_out
    ok (record {
      pool_data = pool_data_of s amm_key;
      amount_in = swap.amount_in;
      minimum_amount_out = swap_amount_out;
      price_impact = impact;
    })

  unfoldable pub simulate_base_out :
      SimulatedPool → (amm_key : ℕ) → SwapInstructionBaseOut → Outcome GetSwapBaseOutData
  simulate_base_out s amm_key swap = do
    before ←
        swap_token_amount_base_out swap.amount_out s.total_pc_without_take_pnl
          s.total_coin_without_take_pnl s.swap_direction
    numerator ← mul128 before s.amm.fees.swap_fee_denominator
    denominator ←
        unwrap (Word.checked_sub s.amm.fees.swap_fee_denominator s.amm.fees.swap_fee_numerator)
    (after, _) ← unwrap (checked_ceil_div numerator denominator)
    swap_in_after_add_fee ← as_u64 after
    impact ←
        calc_price_impact s.swap_direction s.total_pc_without_take_pnl s.total_coin_without_take_pnl
          swap_in_after_add_fee swap.amount_out
    ok (record {
      pool_data = pool_data_of s amm_key;
      max_amount_in = swap_in_after_add_fee;
      amount_out = swap.amount_out;
      price_impact = impact;
    })

  unfoldable pub simulate_swap_base_in :
      SimulateRuntime → SimulateAccounts → SimulateInstruction → Outcome GetSwapBaseInData
  simulate_swap_base_in runtime accounts simulate = do
    ensure accounts.are_readonly AmmError.account_need_read_only
    elim (simulate.swap_base_in_value) [
      | some swap ↦ do
        s ← prepare_simulation runtime accounts
        simulate_base_in s accounts.amm_key swap
      | none ↦ ok (record {
        pool_data = default_pool_data;
        amount_in = 0;
        minimum_amount_out = 0;
        price_impact = 0;
      })
    ]

  unfoldable pub simulate_swap_base_out :
      SimulateRuntime → SimulateAccounts → SimulateInstruction → Outcome GetSwapBaseOutData
  simulate_swap_base_out runtime accounts simulate = do
    ensure accounts.are_readonly AmmError.account_need_read_only
    elim (simulate.swap_base_out_value) [
      | some swap ↦ do
        s ← prepare_simulation runtime accounts
        simulate_base_out s accounts.amm_key swap
      | none ↦ ok (record {
        pool_data = default_pool_data;
        max_amount_in = 0;
        amount_out = 0;
        price_impact = 0;
      })
    ]
