-- ===== src/Simulation/Laws.antt =====
-- A simulation quotes what the swap pays, and it panics on every pool whose price is below 1.
use raydium_amm.Simulation.Data.{GetSwapBaseInData, GetSwapBaseOutData}
use raydium_amm.Math.CeilDiv.{checked_ceil_div}
use raydium_amm.Instruction.Types.{SwapInstructionBaseOut, SwapInstructionBaseIn}
use raydium_amm.Swap.BaseIn.{quote_base_in}
use raydium_amm.Swap.BaseOut.{quote_base_out}
use raydium_amm.Uint.{Uint, mul128, sub128, as_u64}
use raydium_amm.Prelude.Word
use raydium_amm.Swap.Prepare.{Prepared}
use raydium_amm.Math.Swap.{SwapDirection, swap_token_amount_base_out, swap_token_amount_base_in}
use raydium_amm.Simulation.Quote.{
  SimulatedPool, relative_change, calc_price_impact, simulate_base_in, simulate_base_out,
  pool_data_of,
}
use native.Mathlib.Nat.{div-eq_of_lt}
use raydium_amm.Prelude.{
  some, none, ◌>>=◌, ℕ, Option, ◌≡◌, ◌<◌, panic, Outcome, unwrap, ◌/◌, refl, ok, arith, >>=-eq-ok,
  ◌≤◌, ap, Bool-cases, sym, leb, ok-injective, inl, inr, ensures_value, ◌∙◌, bind-Ensures, of_ok,
}

-- The pool of a swap has the fees, the totals and the direction of the simulated one.
pub record IsSamePool (s : SimulatedPool) (p : Prepared) : Type 0 where
  pub same_fees : p.amm.fees ≡ s.amm.fees
  pub same_pc : p.total_pc_without_take_pnl ≡ s.total_pc_without_take_pnl
  pub same_coin : p.total_coin_without_take_pnl ≡ s.total_coin_without_take_pnl
  pub same_direction : p.swap_direction ≡ s.swap_direction

pub panics_after {ℓ} :
    {A : Type ℓ} {B : Type ℓ} (o : Option A) (f : A → Outcome B)
    → ((a : A) → o ≡ some a → f a ≡ panic)
    → (unwrap o >>= f) ≡ panic
unfolding ◌>>=◌
panics_after (some a) f h = h a refl
panics_after none f h = refl

-- A division by a price of 0.
relative_change-panic : (before a b : ℕ) → before ≡ 0 → relative_change before a b ≡ panic
unfolding relative_change
relative_change-panic before a b none_left =
    rw none_left (panics_after _ _ (λ change _. panics_after _ _ (λ scaled _. refl)))

zero_price :
    (pc coin : ℕ) {before : ℕ} → pc < coin → Word.checked_div pc coin ≡ some before → before ≡ 0
zero_price pc coin lt h = let zero_quotient : pc / coin ≡ 0 = div-eq_of_lt lt in ground arith

-- Where a pool holds less pc than coin, in native units, the price impact is never computed: it panics
-- in both directions, whatever is paid.
pub calc_price_impact_panics :
    (d : SwapDirection) (pc coin paid out : ℕ)
    → pc < coin
    → calc_price_impact d pc coin paid out ≡ panic
unfolding calc_price_impact
calc_price_impact_panics SwapDirection.coin_to_pc pc coin paid out lt = panics_after _ _ (λ pc' _.
    panics_after _ _ (λ coin' _. panics_after _ _ (λ before e.
      panics_after _ _
        (λ after _. relative_change-panic before before after (zero_price pc coin lt e)))))
calc_price_impact_panics SwapDirection.pc_to_coin pc coin paid out lt = panics_after _ _ (λ pc' _.
    panics_after _ _ (λ coin' _. panics_after _ _ (λ before e.
      panics_after _ _
        (λ after _. relative_change-panic before after before (zero_price pc coin lt e)))))

price_not_below :
    (d : SwapDirection) (pc coin paid out : ℕ) {n : ℕ}
    → calc_price_impact d pc coin paid out ≡ ok n
    → coin ≤ pc
price_not_below d pc coin paid out h = elim (Bool-cases (leb coin pc)) [
  | inl le ↦ ground arith
  | inr lt ↦
      let panics = calc_price_impact_panics d pc coin paid out (ground arith) in
      absurd (no_value (sym h ∙ panics))
]
  where
    no_value : {a : ℕ} → ok a ≡ panic → ⊥
    no_value e = cc

-- The amount that is paid stands first in the quote.
abbrev with_fee : ℕ → Outcome ℕ → Outcome (ℕ × ℕ)
with_fee paid before = do
  before' ← before
  fee ← unwrap (Word.checked_sub paid before')
  ok (paid, fee)

same_paid :
    (paid' paid fee : ℕ) (before : Outcome ℕ)
    → with_fee paid' before ≡ ok (paid, fee)
    → paid ≡ paid'
same_paid paid' paid fee before h =
    let (before', _, rest) = >>=-eq-ok before _ h in
    let (fee', _, last) = >>=-eq-ok (unwrap (Word.checked_sub paid' before')) _ rest in
    ap (λ (q : ℕ × ℕ). q.0) (sym (ok-injective _ _ last))

module _ ⦃uint : Uint⦄ where
  -- The steps of both, one after another.
  base_in-steps :
      (s : SimulatedPool) (p : Prepared) (paid : ℕ) {numerator fee rest net out out' : ℕ}
      → IsSamePool s p
      → mul128 paid s.amm.fees.swap_fee_numerator ≡ ok numerator
      → unwrap (checked_ceil_div numerator s.amm.fees.swap_fee_denominator) ≡ ok (fee, rest)
      → sub128 paid fee ≡ ok net
      → swap_token_amount_base_in net s.total_pc_without_take_pnl s.total_coin_without_take_pnl
          s.swap_direction
        ≡ ok out
      → as_u64 out ≡ ok out'
      → quote_base_in p paid ≡ ok (fee, out')
  unfolding quote_base_in ◌>>=◌
  base_in-steps s p paid same e_numerator e_fee e_net e_out e_out' = rw same.same_fees (
      rw same.same_pc (
        rw same.same_coin (
          rw same.same_direction
            (rw e_numerator (rw e_fee (rw e_net (rw e_out (rw e_out' refl))))))))

  base_out-steps :
      (s : SimulatedPool) (p : Prepared) (amount : ℕ)
      {before numerator denominator after rest paid : ℕ}
      → IsSamePool s p
      → swap_token_amount_base_out amount s.total_pc_without_take_pnl s.total_coin_without_take_pnl
          s.swap_direction
        ≡ ok before
      → mul128 before s.amm.fees.swap_fee_denominator ≡ ok numerator
      → unwrap (Word.checked_sub s.amm.fees.swap_fee_denominator s.amm.fees.swap_fee_numerator)
        ≡ ok denominator
      → unwrap (checked_ceil_div numerator denominator) ≡ ok (after, rest)
      → as_u64 after ≡ ok paid
      → quote_base_out p amount ≡ with_fee paid (as_u64 before)
  unfolding quote_base_out ◌>>=◌
  base_out-steps s p amount same e_before e_numerator e_denominator e_after e_paid =
      rw same.same_fees (
        rw same.same_pc (
          rw same.same_coin (
            rw same.same_direction
              (rw e_before (rw e_numerator (rw e_denominator (rw e_after (rw e_paid refl))))))))

  -- The quote of a swap of a given amount that is simulated: `process_swap_base_in` computes the same
  -- amount for a pool with the same fees, totals and direction; and the pool has at least as much pc as
  -- coin.
  pub simulate_base_in-quote :
      (s : SimulatedPool) (p : Prepared) (amm_key : ℕ) (swap : SwapInstructionBaseIn)
      {r : GetSwapBaseInData}
      → IsSamePool s p
      → simulate_base_in s amm_key swap ≡ ok r
      → (fee : ℕ) × (quote_base_in p swap.amount_in ≡ ok (fee, r.minimum_amount_out))
        × (r.pool_data.pool_coin_amount ≤ r.pool_data.pool_pc_amount)
  unfolding simulate_base_in quote_base_in pool_data_of
  simulate_base_in-quote s p amm_key swap same =
      ensures_value
        {P = λ r.
          (fee : ℕ) × (quote_base_in p swap.amount_in ≡ ok (fee, r.minimum_amount_out))
          × (r.pool_data.pool_coin_amount ≤ r.pool_data.pool_pc_amount)}
        (simulate_base_in s amm_key swap)
        (bind-Ensures _ _ (λ numerator e_numerator. bind-Ensures _ _ (λ (fee, rest) e_fee.
          bind-Ensures _ _ (λ net e_net. bind-Ensures _ _ (λ out e_out.
            bind-Ensures _ _ (λ out' e_out'. bind-Ensures _ _ (λ impact e_impact. of_ok (
              fee,
              base_in-steps s p swap.amount_in same e_numerator e_fee e_net e_out e_out',
              price_not_below s.swap_direction s.total_pc_without_take_pnl
                  s.total_coin_without_take_pnl swap.amount_in out' e_impact,
            ))))))))

  -- The quote of a swap for a given amount that is simulated: where `process_swap_base_out` computes an
  -- amount for a pool with the same fees, totals and direction, it is the same amount; and the pool has at
  -- least as much pc as coin.
  pub simulate_base_out-quote :
      (s : SimulatedPool) (p : Prepared) (amm_key : ℕ) (swap : SwapInstructionBaseOut)
      {r : GetSwapBaseOutData} {paid fee : ℕ}
      → IsSamePool s p
      → simulate_base_out s amm_key swap ≡ ok r
      → quote_base_out p swap.amount_out ≡ ok (paid, fee)
      → (paid ≡ r.max_amount_in) × (r.pool_data.pool_coin_amount ≤ r.pool_data.pool_pc_amount)
  unfolding simulate_base_out pool_data_of
  simulate_base_out-quote s p amm_key swap {r} {paid} {fee} same run quoted =
      ensures_value
        {P = λ r.
          (paid ≡ r.max_amount_in) × (r.pool_data.pool_coin_amount ≤ r.pool_data.pool_pc_amount)}
        (simulate_base_out s amm_key swap)
        (bind-Ensures _ _ (λ before e_before. bind-Ensures _ _ (λ numerator e_numerator.
          bind-Ensures _ _ (λ denominator e_denominator. bind-Ensures _ _ (λ (after, rest) e_after.
            bind-Ensures _ _ (λ paid' e_paid. bind-Ensures _ _ (λ impact e_impact. of_ok (
              same_paid paid' paid fee _ (
                  sym (
                    base_out-steps s p swap.amount_out same e_before e_numerator e_denominator
                      e_after e_paid)
                  ∙ quoted),
              price_not_below s.swap_direction s.total_pc_without_take_pnl
                  s.total_coin_without_take_pnl paid' swap.amount_out e_impact,
            ))))))))
        run
