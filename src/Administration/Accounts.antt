-- ===== src/Administration/Accounts.antt =====
-- What the instructions of the administrators read, and the calls that they make.
use raydium_amm.Swap.Accounts.{TokenAccount, OrderBook}
use raydium_amm.Prelude.{ℕ, Outcome}

-- The keys that the build chooses (`config_feature`, the SRM mints) or that belong to other programs, and
-- the answers of the runtime and of the other programs. `load_book` is the order book before orders are
-- cancelled, `load_free` what the open orders account then has free, of coin and pc;
-- `minimum_balance` is the rent of the account of the configuration.
pub record AdminRuntime : Type 0 where
  pub spl_token_id : ℕ
  pub system_program_id : ℕ
  pub srm_mint : ℕ
  pub msrm_mint : ℕ
  pub amm_owner_id : ℕ
  pub referrer_id : ℕ
  pub config_address : ℕ
  pub authority_id : ℕ → Outcome ℕ
  pub unpack_token_account : (account token_program : ℕ) → Outcome TokenAccount
  pub load_book : Outcome OrderBook
  pub load_free : Outcome (ℕ × ℕ)
  pub minimum_balance : Outcome ℕ

-- The calls of the system program, and the transfer of SRM tokens.
pub data AdminCall : Type 0 where
  transfer_lamports : ℕ → AdminCall
  allocate_config assign_config : AdminCall
  transfer_srm : (source destination amount : ℕ) → AdminCall
