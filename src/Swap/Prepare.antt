-- ===== src/Swap/Prepare.antt =====
-- What both swaps do before they compute an amount: the checks of the accounts, the status, the
-- totals and the direction.
use raydium_amm.Prelude.{
  ℕ, Bool, List, [], ◌∷◌, Outcome, not, ltb, leb, ◌==◌, ◌&&◌, ◌||◌, if◌then◌else◌, ◌>>=◌, ◌>>◌, ok,
  fail, ensure, unwrap, ok_or,
}
use raydium_amm.Prelude.Word
use raydium_amm.Errors.{AmmError}
use raydium_amm.State.Status
use raydium_amm.State.Status.{AmmStatus, orderbook_permission, swap_permission}
use raydium_amm.State.Amm.{AmmInfo}
use raydium_amm.State.Loading.{load_amm}
use raydium_amm.Math.Swap.{SwapDirection}
use raydium_amm.Swap.Accounts.{Side, Event, OrderBook, Runtime, SwapAccounts, TokenAccount}

-- The body of the loop over the event queue in `calc_exact_vault_in_serum`, on the totals of pc and
-- coin; `-=` and `+=` panic on overflow. `owner` is the pool's open orders account.
unfoldable pub apply_event : ℕ → ℕ × ℕ → Event → Outcome (ℕ × ℕ)
apply_event owner (pc, coin) (Event.fill event_owner Side.bid maker paid received) =
    if event_owner == owner && maker
    then (do
      pc' ← unwrap (Word.checked_sub pc paid)
      coin' ← unwrap (Word.checked_add 64 coin received)
      ok (pc', coin'))
    else ok (pc, coin)
apply_event owner (pc, coin) (Event.fill event_owner Side.ask maker paid received) =
    if event_owner == owner && maker
    then (do
      coin' ← unwrap (Word.checked_sub coin paid)
      pc' ← unwrap (Word.checked_add 64 pc received)
      ok (pc', coin'))
    else ok (pc, coin)
apply_event owner totals Event.other = ok totals

unfoldable pub apply_events : ℕ → ℕ × ℕ → List Event → Outcome (ℕ × ℕ)
apply_events owner totals [] = ok totals
apply_events owner totals (event ∷ events) = do
  totals' ← apply_event owner totals event
  apply_events owner totals' events

unfoldable pub calc_exact_vault_in_serum : OrderBook → ℕ → Outcome (ℕ × ℕ)
unfolding apply_events
calc_exact_vault_in_serum book owner =
    apply_events owner (book.native_pc_total, book.native_coin_total) book.events

unfoldable pub calc_total_without_take_pnl : ℕ → ℕ → OrderBook → ℕ → AmmInfo → Outcome (ℕ × ℕ)
calc_total_without_take_pnl pc_amount coin_amount book owner amm = do
  (pc_in_serum, coin_in_serum) ← calc_exact_vault_in_serum book owner
  pc_sum ← ok_or (Word.checked_add 64 pc_amount pc_in_serum) AmmError.checked_add_overflow
  pc ← ok_or (Word.checked_sub pc_sum amm.state_data.need_take_pnl_pc) AmmError.checked_sub_overflow
  coin_sum ← ok_or (Word.checked_add 64 coin_amount coin_in_serum) AmmError.checked_add_overflow
  coin ←
      ok_or (Word.checked_sub coin_sum amm.state_data.need_take_pnl_coin)
        AmmError.checked_sub_overflow
  ok (pc, coin)

unfoldable pub calc_total_without_take_pnl_no_orderbook : ℕ → ℕ → AmmInfo → Outcome (ℕ × ℕ)
calc_total_without_take_pnl_no_orderbook pc_amount coin_amount amm = do
  pc ←
      ok_or (Word.checked_sub pc_amount amm.state_data.need_take_pnl_pc)
        AmmError.checked_sub_overflow
  coin ←
      ok_or (Word.checked_sub coin_amount amm.state_data.need_take_pnl_coin)
        AmmError.checked_sub_overflow
  ok (pc, coin)

-- The status of a pool that trades: `OrderBookOnly` and `WaitingTrade` end at their times.
unfoldable pub open_for_swap : Outcome ℕ → AmmInfo → Outcome AmmInfo
open_for_swap unix_timestamp amm = do
  status ← Status.from_u64 amm.status
  (if not (swap_permission status)
      then (do
        now ← unix_timestamp
        (if amm.status == Status.into_u64 AmmStatus.order_book_only
              && leb amm.state_data.orderbook_to_init_time now
            then ok (record amm { status = Status.into_u64 AmmStatus.initialized })
            else fail AmmError.invalid_status))
      else if amm.status == Status.into_u64 AmmStatus.waiting_trade
      then (do
        now ← unix_timestamp
        (if ltb now amm.state_data.pool_open_time
            then fail AmmError.invalid_status
            else ok (record amm { status = Status.into_u64 AmmStatus.swap_only })))
      else ok amm)

-- The checks of the keys of the token program, the authority, the vaults and the user's accounts.
unfoldable pub check_keys : Runtime → SwapAccounts → AmmInfo → Outcome (Unit {0})
check_keys runtime accounts amm = do
  ensure accounts.user_is_signer AmmError.invalid_sign_account
  ensure (accounts.token_program == runtime.spl_token_id) AmmError.invalid_spl_token_program
  authority ← runtime.authority_id amm.nonce
  ensure (accounts.amm_authority == authority) AmmError.invalid_program_address
  ensure (accounts.amm_coin_vault == amm.coin_vault) AmmError.invalid_coin_vault
  ensure (accounts.amm_pc_vault == amm.pc_vault) AmmError.invalid_pc_vault
  ensure (not (accounts.user_source == amm.pc_vault || accounts.user_source == amm.coin_vault))
      AmmError.invalid_user_token
  ensure
      (not
        (accounts.user_destination == amm.pc_vault || accounts.user_destination == amm.coin_vault))
      AmmError.invalid_user_token

-- The totals, and the client ids of the pool's bids and asks.
unfoldable pub load_totals :
    Runtime → SwapAccounts → Bool → ℕ → ℕ → AmmInfo → Outcome ((ℕ × ℕ) × List ℕ × List ℕ)
load_totals runtime accounts enable_orderbook pc_amount coin_amount amm =
    if enable_orderbook
    then (do
      ensure (accounts.amm_open_orders == amm.open_orders) AmmError.invalid_open_orders
      ensure (accounts.market_program == amm.market_program) AmmError.invalid_market_program
      ensure (accounts.market == amm.market) AmmError.invalid_market
      book ← runtime.load_order_book
      totals ← calc_total_without_take_pnl pc_amount coin_amount book accounts.amm_open_orders amm
      ok (totals, book.bids, book.asks))
    else (do
      totals ← calc_total_without_take_pnl_no_orderbook pc_amount coin_amount amm
      ok (totals, [], []))

unfoldable pub find_direction :
    (source destination coin_vault pc_vault : TokenAccount) → Outcome SwapDirection
find_direction source destination coin_vault pc_vault =
    if source.mint == coin_vault.mint && destination.mint == pc_vault.mint
    then ok SwapDirection.coin_to_pc
    else if source.mint == pc_vault.mint && destination.mint == coin_vault.mint
    then ok SwapDirection.pc_to_coin
    else fail AmmError.invalid_user_token

pub record Prepared : Type 0 where
  pub amm : AmmInfo
  pub enable_orderbook : Bool
  pub coin_vault_amount : ℕ
  pub pc_vault_amount : ℕ
  pub user_source_amount : ℕ
  pub total_pc_without_take_pnl : ℕ
  pub total_coin_without_take_pnl : ℕ
  pub bids : List ℕ
  pub asks : List ℕ
  pub swap_direction : SwapDirection

-- The order book is used as the status says that the pool had when it was loaded.
unfoldable pub prepare_swap : Runtime → SwapAccounts → Outcome Prepared
prepare_swap runtime accounts = do
  ensure (accounts.account_len == 17 || accounts.account_len == 18) AmmError.wrong_accounts_number
  amm ← load_amm accounts.amm
  status ← Status.from_u64 amm.status
  check_keys runtime accounts amm
  coin_vault ← runtime.unpack_token_account accounts.amm_coin_vault
  pc_vault ← runtime.unpack_token_account accounts.amm_pc_vault
  user_source ← runtime.unpack_token_account accounts.user_source
  user_destination ← runtime.unpack_token_account accounts.user_destination
  opened ← open_for_swap runtime.unix_timestamp amm
  ((pc, coin), bids, asks) ←
      load_totals runtime accounts (orderbook_permission status) pc_vault.amount coin_vault.amount
        opened
  swap_direction ← find_direction user_source user_destination coin_vault pc_vault
  ok (record {
    amm = opened;
    enable_orderbook = orderbook_permission status;
    coin_vault_amount = coin_vault.amount;
    pc_vault_amount = pc_vault.amount;
    user_source_amount = user_source.amount;
    total_pc_without_take_pnl = pc;
    total_coin_without_take_pnl = coin;
    bids = bids;
    asks = asks;
    swap_direction = swap_direction;
  })
