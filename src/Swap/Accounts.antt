-- ===== src/Swap/Accounts.antt =====
-- What a swap reads, and what it and the other instructions call. The SPL token program, the order book's
-- program and the Solana runtime are not part of the repository: their answers are the fields of `Runtime`,
-- and the calls of them that a swap makes are listed in its result, in their order. A call that fails aborts
-- the transaction, and then none of its changes are kept.
use raydium_amm.Prelude.{ℕ, Bool, List, Outcome}
use raydium_amm.State.Amm.{AmmInfo}
use raydium_amm.State.Loading.{AccountData}

-- The two sides of `serum_dex::matching::Side`, and the events of the queue that are read.
pub data Side : Type 0 where
  bid ask : Side

pub data Event : Type 0 where
  fill : (owner : ℕ) (side : Side) (maker : Bool) (native_qty_paid native_qty_received : ℕ) → Event
  other : Event

-- What is loaded from the order book: the totals of the pool's open orders, the event queue, and the
-- client ids of the pool's bids and asks that `get_amm_orders` finds.
pub record OrderBook : Type 0 where
  pub native_pc_total : ℕ
  pub native_coin_total : ℕ
  pub events : List Event
  pub bids : List ℕ
  pub asks : List ℕ

pub record TokenAccount : Type 0 where
  pub mint : ℕ
  pub owner : ℕ
  pub amount : ℕ

-- The answers of the runtime and of the other programs.
pub record Runtime : Type 0 where
  pub spl_token_id : ℕ
  pub authority_id : ℕ → Outcome ℕ
  pub unpack_token_account : ℕ → Outcome TokenAccount
  pub unix_timestamp : Outcome ℕ
  pub epoch : Outcome ℕ
  pub load_order_book : Outcome OrderBook

-- The accounts that are passed to a swap, by their keys.
pub record SwapAccounts : Type 0 where
  pub account_len : ℕ
  pub amm : AccountData AmmInfo
  pub token_program : ℕ
  pub amm_authority : ℕ
  pub amm_open_orders : ℕ
  pub amm_coin_vault : ℕ
  pub amm_pc_vault : ℕ
  pub market_program : ℕ
  pub market : ℕ
  pub user_source : ℕ
  pub user_destination : ℕ
  pub user_is_signer : Bool

pub data Vault : Type 0 where
  coin_vault pc_vault : Vault

pub data MarketAccount : Type 0 where
  market_coin_vault market_pc_vault market_asks : MarketAccount

-- The calls of `Invokers` that an instruction makes. `settle_funds` has the accounts that are passed as the
-- market's vaults of the two tokens.
pub data Call : Type 0 where
  cancel_orders : List ℕ → Call
  settle_funds : (coin pc : MarketAccount) → Call
  deposit_to : Vault → ℕ → Call
  withdraw_from : Vault → ℕ → Call
  mint_lp burn_lp : ℕ → Call

pub record SwapResult : Type 0 where
  pub amm : AmmInfo
  pub calls : List Call
