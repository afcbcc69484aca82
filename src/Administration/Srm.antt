-- ===== src/Administration/Srm.antt =====
-- `process_withdraw_srm`: the owner takes SRM tokens that the program holds for discounts.
use raydium_amm.State.Status.{AmmStatus}
use raydium_amm.State.Amm.{AmmInfo}
use raydium_amm.State.Loading.{AccountData, load_amm}
use raydium_amm.Instruction.Types.{WithdrawSrmInstruction}
use raydium_amm.Prelude.{
  ℕ, Outcome, Bool, List, ◌>>=◌, ◌>>◌, ensure, not, ◌==◌, ◌&&◌, ◌||◌, leb, ok, ◌∷◌, [],
}
use raydium_amm.Administration.Accounts.{AdminRuntime, AdminCall}
use raydium_amm.Errors.{AmmError}
use raydium_amm.State.Status

pub record SrmAccounts : Type 0 where
  pub token_program : ℕ
  pub amm : AccountData AmmInfo
  pub amm_owner : ℕ
  pub amm_owner_is_signer : Bool
  pub amm_authority : ℕ
  pub srm_token : ℕ
  pub dest_srm_token : ℕ

unfoldable pub process_withdraw_srm :
    AdminRuntime → SrmAccounts → WithdrawSrmInstruction → Outcome (List AdminCall)
process_withdraw_srm runtime accounts withdrawsrm = do
  amm ← load_amm accounts.amm
  ensure (not (amm.status == Status.into_u64 AmmStatus.uninitialized)) AmmError.invalid_status
  ensure (accounts.amm_owner_is_signer && accounts.amm_owner == runtime.amm_owner_id)
      AmmError.invalid_sign_account
  ensure (accounts.token_program == runtime.spl_token_id) AmmError.invalid_spl_token_program
  authority ← runtime.authority_id amm.nonce
  ensure (accounts.amm_authority == authority) AmmError.invalid_program_address
  srm ← runtime.unpack_token_account accounts.srm_token accounts.token_program
  ensure (srm.owner == accounts.amm_authority) AmmError.invalid_owner
  ensure (srm.mint == runtime.srm_mint || srm.mint == runtime.msrm_mint) AmmError.invalid_srm_mint
  destination ← runtime.unpack_token_account accounts.dest_srm_token accounts.token_program
  ensure (srm.mint == destination.mint) AmmError.invalid_input
  ensure (leb withdrawsrm.amount srm.amount) AmmError.insufficient_funds
  ok (AdminCall.transfer_srm accounts.srm_token accounts.dest_srm_token withdrawsrm.amount ∷ [])
