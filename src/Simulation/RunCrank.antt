-- ===== src/Simulation/RunCrank.antt =====
-- `simulate_run_crank`: whether a step of the order plan is due.
use raydium_amm.State.ResetFlag.{AmmResetFlag}
use raydium_amm.Prelude.Word
use raydium_amm.Math.Decimal.{normalize_decimal_v2}
use raydium_amm.Swap.Prepare.{calc_total_without_take_pnl}
use raydium_amm.State.MachineState.{AmmState}
use raydium_amm.State.Loading.{load_target_orders, load_amm}
use raydium_amm.State.Status.{AmmStatus}
use raydium_amm.State.Amm.{AmmInfo}
use raydium_amm.Simulation.Check.{CrankRuntime, CrankAccounts, check_accounts}
use raydium_amm.Prelude.{
  ℕ, Bool, ltb, Outcome, ◌||◌, ◌>>=◌, ok, ◌>>◌, ◌==◌, ensure, not, ◌&&◌, false, true, length,
  unwrap, if◌then◌else◌,
}
use raydium_amm.Uint.{Uint, mul128, div128, as_u128}
use raydium_amm.State.Orders.{TargetOrders}
use raydium_amm.Errors.{AmmError}
use raydium_amm.State.Status
use raydium_amm.State.MachineState
use raydium_amm.State.ResetFlag

-- `struct RunCrankData`
pub record RunCrankData : Type 0 where
  pub status : ℕ
  pub state : ℕ
  pub run_crank : Bool

-- The pool and its orders, as both states that look at them see them.
pub record CrankPool : Type 0 where
  pub target : TargetOrders
  pub bids : ℕ
  pub asks : ℕ
  pub slots : ℕ
  pub x : ℕ
  pub y : ℕ

-- The orders of the plan are not the ones that are placed, or none is.
unfoldable pub orders_differ : CrankPool → Bool
orders_differ p =
    ltb p.bids p.target.valid_buy_order_num
    || ltb p.asks p.target.valid_sell_order_num
    || (p.bids == 0 && p.asks == 0)
    || not (p.x == p.target.placed_x)
    || not (p.y == p.target.placed_y)

module _ ⦃uint : Uint⦄ where
  unfoldable pub load_crank_pool : CrankRuntime → CrankAccounts → AmmInfo → Outcome CrankPool
  load_crank_pool runtime accounts amm = do
    coin_vault ← runtime.unpack_token_account accounts.amm_coin_vault accounts.token_program
    pc_vault ← runtime.unpack_token_account accounts.amm_pc_vault accounts.token_program
    target ← load_target_orders accounts.target_orders accounts.amm_key
    (book, slots) ← runtime.load_orders
    (pc, coin) ←
        calc_total_without_take_pnl pc_vault.amount coin_vault.amount book accounts.amm_open_orders
          amm
    x ← normalize_decimal_v2 pc amm.pc_decimals amm.sys_decimal_value
    y ← normalize_decimal_v2 coin amm.coin_decimals amm.sys_decimal_value
    ok (record {
      target = target;
      bids = length book.bids;
      asks = length book.asks;
      slots = slots;
      x = x;
      y = y;
    })

  -- The product of the pool has fallen below that of the last profit, and there is no order.
  unfoldable pub has_lost : CrankPool → Outcome Bool
  has_lost p = do
    product ← mul128 p.x p.y
    last ← mul128 p.target.calc_pnl_x p.target.calc_pnl_y
    ok (ltb product last && (p.bids == 0 && p.asks == 0))

  -- The price is outside of the range that the order book accepts. It is computed for every pool.
  unfoldable pub price_out_of_range : AmmInfo → CrankPool → Outcome Bool
  price_out_of_range amm p = do
    scaled ← mul128 p.x amm.sys_decimal_value
    quotient ← div128 scaled p.y
    quotient' ← as_u128 quotient
    cur_price ← unwrap (Word.fit 64 quotient')
    mux_cur_price ← unwrap (Word.checked_mul 128 amm.pc_lot_size amm.max_price_multiplier)
    min_cur_price ← unwrap (Word.checked_mul 128 amm.pc_lot_size amm.min_price_multiplier)
    ok (ltb cur_price min_cur_price || ltb mux_cur_price cur_price)

  unfoldable pub crank_idle : AmmInfo → CrankPool → Outcome Bool
  crank_idle amm p = do
    lost ← has_lost p
    out_of_range ← price_out_of_range amm p
    ok (orders_differ p && not lost && not out_of_range)

  unfoldable pub crank_cancel_all : CrankPool → Outcome Bool
  crank_cancel_all p = do
    lost ← has_lost p
    ok (not (ltb 100 p.slots && (p.bids == 0 && p.asks == 0)) && not lost)

  -- The states of the machine, for a pool whose status lets it trade with the order book.
  unfoldable pub crank_state : CrankRuntime → CrankAccounts → AmmInfo → AmmState → Outcome Bool
  crank_state runtime accounts amm AmmState.invlid_state = ok false
  crank_state runtime accounts amm AmmState.idle_state = do
    p ← load_crank_pool runtime accounts amm
    crank_idle amm p
  crank_state runtime accounts amm AmmState.cancel_all_orders_state = do
    p ← load_crank_pool runtime accounts amm
    crank_cancel_all p
  crank_state runtime accounts amm AmmState.plan_orders_state = ok true
  crank_state runtime accounts amm AmmState.cancel_order_state = ok true
  crank_state runtime accounts amm AmmState.place_orders_state = ok true
  crank_state runtime accounts amm AmmState.purge_order_state = ok true

  unfoldable pub crank_status :
      CrankRuntime → CrankAccounts → AmmInfo → AmmStatus → AmmState → Outcome Bool
  crank_status runtime accounts amm AmmStatus.initialized state =
      crank_state runtime accounts amm state
  crank_status runtime accounts amm AmmStatus.order_book_only state =
      crank_state runtime accounts amm state
  crank_status runtime accounts amm AmmStatus.uninitialized state = ok false
  crank_status runtime accounts amm AmmStatus.disabled state = ok false
  crank_status runtime accounts amm AmmStatus.withdraw_only state = ok false
  crank_status runtime accounts amm AmmStatus.liquidity_only state = ok false
  crank_status runtime accounts amm AmmStatus.swap_only state = ok false
  crank_status runtime accounts amm AmmStatus.waiting_trade state = ok false

  unfoldable pub simulate_run_crank : CrankRuntime → CrankAccounts → Outcome RunCrankData
  simulate_run_crank runtime accounts = do
    ensure accounts.are_readonly AmmError.account_need_read_only
    amm ← load_amm accounts.amm
    check_accounts runtime accounts amm
    status ← Status.from_u64 amm.status
    state ← MachineState.from_u64 amm.state
    run_crank ←
        if amm.reset_flag == ResetFlag.into_u64 AmmResetFlag.reset_yes
        then ok true
        else if amm.order_num == 0
        then ok false
        else crank_status runtime accounts amm status state
    ok (record { status = amm.status; state = amm.state; run_crank = run_crank })
