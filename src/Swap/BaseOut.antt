-- ===== src/Swap/BaseOut.antt =====
-- `process_swap_base_out`: a swap for a given amount.
pub mod Laws
use raydium_amm.Prelude.{
  ℕ, ◌++◌, ◌^◌, Bool, List, [], ◌∷◌, Outcome, not, ltb, leb, ◌==◌, ◌&&◌, ◌||◌, if◌then◌else◌, ◌>>=◌,
  ◌>>◌, ok, fail, ensure, unwrap, ok_or,
}
use raydium_amm.Prelude.Word
use raydium_amm.Errors.{AmmError}
use raydium_amm.Uint.{Uint, add128, sub128, mul128, as_u64}
use raydium_amm.Math.CeilDiv.{checked_ceil_div}
use raydium_amm.Math.Swap.{SwapDirection, swap_token_amount_base_out}
use raydium_amm.State.Amm.{AmmInfo}
use raydium_amm.Instruction.Types.{SwapInstructionBaseOut}
use raydium_amm.Swap.Accounts.{Runtime, SwapAccounts, Vault, MarketAccount, Call, SwapResult}
use raydium_amm.Swap.Prepare.{Prepared, prepare_swap}
use raydium_amm.Swap.Cancel.{cancel_all}
use raydium_amm.Swap.BaseIn.{transfer_calls, total_out}
use raydium_amm.Math.Decimal.{to_u128}

-- The cancellations, and the settlement where the vault of the output holds too little. In the
-- direction from pc to coin the asks account stands in the place of the market's coin vault.
unfoldable pub base_out_book_calls : Prepared → ℕ → List Call
base_out_book_calls p amount_out =
    if p.enable_orderbook
    then elim (p.swap_direction) [
      | SwapDirection.coin_to_pc ↦
          cancel_all p.bids
          ++ (if ltb p.pc_vault_amount amount_out
              then Call.settle_funds MarketAccount.market_coin_vault MarketAccount.market_pc_vault
                ∷ []
              else [])
      | SwapDirection.pc_to_coin ↦
          cancel_all p.asks
          ++ (if ltb p.coin_vault_amount amount_out
              then Call.settle_funds MarketAccount.market_asks MarketAccount.market_pc_vault ∷ []
              else [])
    ]
    else []

-- The counters of the swapped amounts and of the fee.
unfoldable pub base_out_state : AmmInfo → SwapDirection → ℕ → ℕ → ℕ → Outcome AmmInfo
base_out_state amm SwapDirection.coin_to_pc amount_in amount_out swap_fee = do
  swap_coin_in_amount ← unwrap (Word.checked_add 128 amm.state_data.swap_coin_in_amount amount_in)
  out ← to_u128 amount_out
  swap_pc_out_amount ← unwrap (Word.checked_add 128 amm.state_data.swap_pc_out_amount out)
  swap_acc_coin_fee ← unwrap (Word.checked_add 64 amm.state_data.swap_acc_coin_fee swap_fee)
  ok (record amm {
    state_data = record (amm.state_data) {
      swap_coin_in_amount = swap_coin_in_amount;
      swap_pc_out_amount = swap_pc_out_amount;
      swap_acc_coin_fee = swap_acc_coin_fee;
    };
  })
base_out_state amm SwapDirection.pc_to_coin amount_in amount_out swap_fee = do
  swap_pc_in_amount ← unwrap (Word.checked_add 128 amm.state_data.swap_pc_in_amount amount_in)
  swap_coin_out_amount ←
      unwrap (Word.checked_add 128 amm.state_data.swap_coin_out_amount amount_out)
  swap_acc_pc_fee ← unwrap (Word.checked_add 64 amm.state_data.swap_acc_pc_fee swap_fee)
  ok (record amm {
    state_data = record (amm.state_data) {
      swap_pc_in_amount = swap_pc_in_amount;
      swap_coin_out_amount = swap_coin_out_amount;
      swap_acc_pc_fee = swap_acc_pc_fee;
    };
  })

module _ ⦃uint : Uint⦄ where
  -- The amount that the user pays, and the fee in it.
  unfoldable pub quote_base_out : Prepared → ℕ → Outcome (ℕ × ℕ)
  quote_base_out p amount_out = do
    before ←
        swap_token_amount_base_out amount_out p.total_pc_without_take_pnl
          p.total_coin_without_take_pnl p.swap_direction
    numerator ← mul128 before p.amm.fees.swap_fee_denominator
    denominator ←
        unwrap (Word.checked_sub p.amm.fees.swap_fee_denominator p.amm.fees.swap_fee_numerator)
    (after, _) ← unwrap (checked_ceil_div numerator denominator)
    swap_in_after_add_fee ← as_u64 after
    swap_in_before_add_fee ← as_u64 before
    swap_fee ← unwrap (Word.checked_sub swap_in_after_add_fee swap_in_before_add_fee)
    ok (swap_in_after_add_fee, swap_fee)

  unfoldable pub finish_base_out : Runtime → Prepared → SwapInstructionBaseOut → Outcome SwapResult
  finish_base_out runtime p swap = do
    (swap_in_after_add_fee, swap_fee) ← quote_base_out p swap.amount_out
    ensure (leb swap_in_after_add_fee p.user_source_amount) AmmError.insufficient_funds
    ensure (leb swap_in_after_add_fee swap.max_amount_in) AmmError.exceeded_slippage
    ensure (not (swap_in_after_add_fee == 0 || swap.amount_out == 0)) AmmError.invalid_input
    ensure (ltb swap.amount_out (total_out p)) AmmError.insufficient_funds
    amm ← base_out_state p.amm p.swap_direction swap_in_after_add_fee swap.amount_out swap_fee
    recent_epoch ← runtime.epoch
    ok (record {
      amm = record amm { recent_epoch = recent_epoch };
      calls =
          base_out_book_calls p swap.amount_out
          ++ transfer_calls p.swap_direction swap_in_after_add_fee swap.amount_out;
    })

  unfoldable pub process_swap_base_out :
      Runtime → SwapAccounts → SwapInstructionBaseOut → Outcome SwapResult
  process_swap_base_out runtime accounts swap = do
    p ← prepare_swap runtime accounts
    finish_base_out runtime p swap
