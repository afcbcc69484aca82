-- ===== src/Swap/BaseIn.antt =====
-- `process_swap_base_in`: a swap of a given amount.
pub mod Laws
use raydium_amm.Prelude.{
  ℕ, ◌++◌, ◌^◌, Bool, List, [], ◌∷◌, Outcome, not, ltb, leb, ◌==◌, ◌&&◌, ◌||◌, if◌then◌else◌, ◌>>=◌,
  ◌>>◌, ok, fail, ensure, unwrap, ok_or,
}
use raydium_amm.Prelude.Word
use raydium_amm.Errors.{AmmError}
use raydium_amm.Uint.{Uint, add128, sub128, mul128, as_u64}
use raydium_amm.Math.CeilDiv.{checked_ceil_div}
use raydium_amm.Math.Swap.{SwapDirection, swap_token_amount_base_in}
use raydium_amm.State.Amm.{AmmInfo}
use raydium_amm.Instruction.Types.{SwapInstructionBaseIn}
use raydium_amm.Swap.Accounts.{Runtime, SwapAccounts, Vault, MarketAccount, Call, SwapResult}
use raydium_amm.Swap.Prepare.{Prepared, prepare_swap}
use raydium_amm.Swap.Cancel.{cancel_all}

-- The cancellations, and the settlement where the vault of the output holds too little.
unfoldable pub base_in_book_calls : Prepared → ℕ → List Call
base_in_book_calls p swap_amount_out =
    if p.enable_orderbook
    then elim (p.swap_direction) [
      | SwapDirection.coin_to_pc ↦
          cancel_all p.bids
          ++ (if ltb p.pc_vault_amount swap_amount_out
              then Call.settle_funds MarketAccount.market_coin_vault MarketAccount.market_pc_vault
                ∷ []
              else [])
      | SwapDirection.pc_to_coin ↦
          cancel_all p.asks
          ++ (if ltb p.coin_vault_amount swap_amount_out
              then Call.settle_funds MarketAccount.market_coin_vault MarketAccount.market_pc_vault
                ∷ []
              else [])
    ]
    else []

-- The counters of the swapped amounts and of the fee.
unfoldable pub base_in_state : AmmInfo → SwapDirection → ℕ → ℕ → Outcome ℕ → Outcome AmmInfo
base_in_state amm SwapDirection.coin_to_pc amount_in amount_out fee = do
  swap_coin_in_amount ← unwrap (Word.checked_add 128 amm.state_data.swap_coin_in_amount amount_in)
  swap_pc_out_amount ← unwrap (Word.checked_add 128 amm.state_data.swap_pc_out_amount amount_out)
  swap_fee ← fee
  swap_acc_coin_fee ← unwrap (Word.checked_add 64 amm.state_data.swap_acc_coin_fee swap_fee)
  ok (record amm {
    state_data = record (amm.state_data) {
      swap_coin_in_amount = swap_coin_in_amount;
      swap_pc_out_amount = swap_pc_out_amount;
      swap_acc_coin_fee = swap_acc_coin_fee;
    };
  })
base_in_state amm SwapDirection.pc_to_coin amount_in amount_out fee = do
  swap_pc_in_amount ← unwrap (Word.checked_add 128 amm.state_data.swap_pc_in_amount amount_in)
  swap_coin_out_amount ←
      unwrap (Word.checked_add 128 amm.state_data.swap_coin_out_amount amount_out)
  swap_fee ← fee
  swap_acc_pc_fee ← unwrap (Word.checked_add 64 amm.state_data.swap_acc_pc_fee swap_fee)
  ok (record amm {
    state_data = record (amm.state_data) {
      swap_pc_in_amount = swap_pc_in_amount;
      swap_coin_out_amount = swap_coin_out_amount;
      swap_acc_pc_fee = swap_acc_pc_fee;
    };
  })

unfoldable pub transfer_calls : SwapDirection → ℕ → ℕ → List Call
transfer_calls SwapDirection.coin_to_pc amount_in amount_out =
    Call.deposit_to Vault.coin_vault amount_in ∷ Call.withdraw_from Vault.pc_vault amount_out ∷ []
transfer_calls SwapDirection.pc_to_coin amount_in amount_out =
    Call.deposit_to Vault.pc_vault amount_in ∷ Call.withdraw_from Vault.coin_vault amount_out ∷ []

-- The total of the token that leaves the pool.
unfoldable pub total_out : Prepared → ℕ
total_out p = elim (p.swap_direction) [
  | SwapDirection.coin_to_pc ↦ p.total_pc_without_take_pnl
  | SwapDirection.pc_to_coin ↦ p.total_coin_without_take_pnl
]

module _ ⦃uint : Uint⦄ where
  -- The fee and the amount that leaves the pool.
  unfoldable pub quote_base_in : Prepared → ℕ → Outcome (ℕ × ℕ)
  quote_base_in p amount_in = do
    fee_numerator ← mul128 amount_in p.amm.fees.swap_fee_numerator
    (swap_fee, _) ← unwrap (checked_ceil_div fee_numerator p.amm.fees.swap_fee_denominator)
    swap_in_after_deduct_fee ← sub128 amount_in swap_fee
    out ←
        swap_token_amount_base_in swap_in_after_deduct_fee p.total_pc_without_take_pnl
          p.total_coin_without_take_pnl p.swap_direction
    swap_amount_out ← as_u64 out
    ok (swap_fee, swap_amount_out)

  unfoldable pub finish_base_in : Runtime → Prepared → SwapInstructionBaseIn → Outcome SwapResult
  finish_base_in runtime p swap = do
    ensure (leb swap.amount_in p.user_source_amount) AmmError.insufficient_funds
    (swap_fee, swap_amount_out) ← quote_base_in p swap.amount_in
    ensure (leb swap.minimum_amount_out swap_amount_out) AmmError.exceeded_slippage
    ensure (not (swap_amount_out == 0 || swap.amount_in == 0)) AmmError.invalid_input
    ensure (ltb swap_amount_out (total_out p)) AmmError.insufficient_funds
    amm ← base_in_state p.amm p.swap_direction swap.amount_in swap_amount_out (as_u64 swap_fee)
    recent_epoch ← runtime.epoch
    ok (record {
      amm = record amm { recent_epoch = recent_epoch };
      calls =
          base_in_book_calls p swap_amount_out
          ++ transfer_calls p.swap_direction swap.amount_in swap_amount_out;
    })

  unfoldable pub process_swap_base_in :
      Runtime → SwapAccounts → SwapInstructionBaseIn → Outcome SwapResult
  process_swap_base_in runtime accounts swap = do
    p ← prepare_swap runtime accounts
    finish_base_in runtime p swap
