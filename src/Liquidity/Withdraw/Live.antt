-- ===== src/Liquidity/Withdraw/Live.antt =====
-- A pool that can only be withdrawn from pays.
use raydium_amm.Instruction.Types.{WithdrawInstruction}
use raydium_amm.Swap.Accounts.{Call}
use raydium_amm.Math.Exchange.Laws.{pool_to_token_greatest}
use raydium_amm.Pnl.{TakenPnl}
use raydium_amm.Math.Exchange.{exchange_pool_to_token, RoundDirection}
use raydium_amm.Swap.Totals.{Fit}
use raydium_amm.State.Amm.{AmmInfo}
use raydium_amm.State.Orders.{TargetOrders}
use raydium_amm.Liquidity.Withdraw.{
  settle_withdraw, take_unless_withdraw_only, finish_withdraw, withdraw_state, below_minimums,
  withdraw_calls,
}
use raydium_amm.Liquidity.Pool.{shrunk_pnl, Settled, LiquidityRuntime, LiquidityResult}
use raydium_amm.State.Status
use native.Mathlib.Nat.{
  one-le-pow, div-mul-le_self, le-div_iff_mul-le, div-le_self, mul-le-mul_right,
}
use native.Mathlib.Nat.{mul-pos}
use raydium_amm.Prelude.Word
use raydium_amm.Prelude.Word.{IsWord}
use raydium_amm.Liquidity.Withdraw.Laws.{IsShare}
use raydium_amm.Math.Decimal.{normalize_decimal_v2}
use raydium_amm.Uint.{Uint, sub128, as_u128}
use raydium_amm.Prelude.{
  ℕ, ◌<◌, ◌>>=◌, ◌*◌, ◌≤◌, arith, ◌-◌, suc, ◌^◌, ◌≡◌, zero, ok, ◌/◌, refl, not, ltb, ◌&&◌, ◌==◌,
  ◌||◌, true, List, none, ◌++◌,
}

positive_part : (a b : ℕ) → 0 < a * b → 0 < a
positive_part zero b h = omega arith
positive_part (suc a) b h = omega arith

-- Some of the total stays.
some_stays :
    (total out left lp : ℕ) → 0 < total * left → total * left ≤ (total - out) * lp → out < total
some_stays total out left lp pos kept =
    let rest = positive_part (total - out) lp (omega arith) in omega arith

-- A share that is worth a unit is positive, and not everything.
share_positive :
    (amount lp total out : ℕ)
    → amount < lp
    → 0 < amount
    → lp ≤ total * amount
    → IsShare amount lp total out
    → (0 < out) × (out < total)
share_positive amount lp total out less pos enough (le, best) =
    let total_pos = positive_part total amount (omega arith) in
    let split = Word.mul_split total lp amount (omega arith) in
    let by_one = Word.mul_split lp total 1 (omega arith) in
    let one : 1 ≤ out = (best 1 (omega arith)).0 (omega arith) in
    let kept = (best out le).1 (omega arith) in
    (one, some_stays total out (lp - amount) lp (mul-pos total_pos (omega arith)) kept)

quotient_le : (a b k : ℕ) → 0 < k → a ≤ b → a / k ≤ b / k
quotient_le a b k pos le =
    let held = div-mul-le_self a k in (le-div_iff_mul-le {x = a / k} {y = b} pos).1 (omega arith)

all_positive : (a b c : ℕ) → 0 < a → 0 < b → 0 < c → not (a == 0 || b == 0 || c == 0) ≡ true
all_positive a b c ha hb hc = ground arith

both_below : (a b c d : ℕ) → a < b → c < d → (ltb a b && ltb c d) ≡ true
both_below a b c d h k = ground arith

-- A pool of which nothing has been taken.
abbrev pub untaken : AmmInfo → (pc coin : ℕ) → TakenPnl
untaken amm pc coin = record {
  amm = amm;
  total_pc_without_take_pnl = pc;
  total_coin_without_take_pnl = coin;
  delta_x = 0;
  delta_y = 0;
}

-- The scales of the pool fit their types.
abbrev pub HasScales : AmmInfo → Type 0
HasScales amm =
    IsWord 64 amm.sys_decimal_value
    × IsWord 128 (10 ^ amm.pc_decimals)
    × IsWord 128 (10 ^ amm.coin_decimals)

-- What the withdrawal has read from such a pool.
abbrev pub settled_untaken : AmmInfo → (pc coin : ℕ) → Settled
settled_untaken amm pc coin = record {
  x1 = pc * amm.sys_decimal_value / 10 ^ amm.pc_decimals;
  y1 = coin * amm.sys_decimal_value / 10 ^ amm.coin_decimals;
  taken = untaken amm pc coin;
}

module _ ⦃uint : Uint⦄ where
  -- The normalised value, where the scales fit.
  normalize-ok :
      (val decimals scale : ℕ)
      → IsWord 64 val
      → IsWord 64 scale
      → IsWord 128 (10 ^ decimals)
      → normalize_decimal_v2 val decimals scale ≡ ok (val * scale / 10 ^ decimals)
  unfolding normalize_decimal_v2 ◌>>=◌
  normalize-ok val decimals scale hv hs hd =
      let room = Word.mul-lt val scale hv hs in
      rw (uint.mul_law 128 val scale) (
        rw (Word.fit-some 128 (val * scale) (omega arith)) (
          rw (uint.pow_law 128 10 decimals) (
            rw (Word.fit-some 128 (10 ^ decimals) hd) (
              rw (uint.div_law 128 (val * scale) (10 ^ decimals)) (
                rw
                  (Word.checked_div-some (val * scale) (10 ^ decimals)
                    (one-le-pow decimals 10 (omega arith)))
                  refl)))))

  sub128-ok : (a b : ℕ) → b ≤ a → sub128 a b ≡ ok (a - b)
  sub128-ok a b le = rw (uint.sub_law 128 a b) (rw (Word.checked_sub-some a b le) refl)

  as_u128-ok : (a : ℕ) → IsWord 128 a → as_u128 a ≡ ok a
  as_u128-ok a fits = rw (uint.narrow_law 128 a) (rw (Word.fit-some 128 a fits) refl)

  -- A part of the total can be taken from its normalised value.
  shrunk_pnl-ok :
      (total part decimals scale : ℕ)
      → IsWord 64 total
      → part ≤ total
      → IsWord 64 scale
      → IsWord 128 (10 ^ decimals)
      → (n : ℕ) × (shrunk_pnl (total * scale / 10 ^ decimals) part decimals scale 0 ≡ ok n)
  unfolding shrunk_pnl ◌>>=◌
  shrunk_pnl-ok total part decimals scale ht le hs hd =
      let value = total * scale / 10 ^ decimals in
      let part_value = part * scale / 10 ^ decimals in
      let room = Word.mul-lt total scale ht hs in
      let pos = one-le-pow decimals 10 (omega arith) in
      let value_le : value ≤ total * scale = div-le_self (total * scale) (10 ^ decimals) in
      let part_le =
        quotient_le (part * scale) (total * scale) (10 ^ decimals) pos
          (mul-le-mul_right scale le) in
      (
        value - part_value - 0,
        rw (normalize-ok part decimals scale (omega arith) hs hd) (
            rw (sub128-ok value part_value part_le) (
              rw (sub128-ok (value - part_value) 0 (omega arith))
                (as_u128-ok (value - part_value - 0) (omega arith)))),
      )

  exchange-IsShare :
      (amount lp total : ℕ)
      → IsWord 64 amount
      → IsWord 64 total
      → amount < lp
      → (out : ℕ) × (exchange_pool_to_token
            (record { token_input = amount; token_total = lp })
            total
            RoundDirection.floor
          ≡ ok out)
        × IsShare amount lp total out
  exchange-IsShare amount lp total ha ht less =
      let (out, runs, le, best) =
        pool_to_token_greatest amount lp total ha ht (omega arith) (omega arith) in
      (out, runs, (le, best))

  -- Nothing is taken from the totals.
  settle_withdraw-ok :
      (target : TargetOrders) (amm : AmmInfo) (pc coin : ℕ)
      → amm.status ≡ 3
      → Fit (pc, coin)
      → HasScales amm
      → settle_withdraw target amm (pc, coin) ≡ ok (settled_untaken amm pc coin)
  unfolding settle_withdraw take_unless_withdraw_only Status.into_u64 ◌>>=◌
  settle_withdraw-ok target amm pc coin only (pc_fits, coin_fits) (scale, pc_scale, coin_scale) =
      rw (normalize-ok pc amm.pc_decimals amm.sys_decimal_value pc_fits scale pc_scale) (
        rw (normalize-ok coin amm.coin_decimals amm.sys_decimal_value coin_fits scale coin_scale)
          (rw only refl))

  withdraw_state-ok :
      (runtime : LiquidityRuntime) (target : TargetOrders) (amm : AmmInfo)
      (total_pc total_coin coin pc lp epoch : ℕ)
      → Fit (total_pc, total_coin)
      → HasScales amm
      → coin ≤ total_coin
      → pc ≤ total_pc
      → lp ≤ amm.lp_amount
      → runtime.epoch ≡ ok epoch
      → (after : AmmInfo × TargetOrders) × (withdraw_state runtime
            (settled_untaken amm total_pc total_coin)
            target
            coin
            pc
            lp
          ≡ ok after)
  unfolding withdraw_state ◌>>=◌
  withdraw_state-ok runtime target amm total_pc total_coin coin pc lp epoch (pc_fits, coin_fits)
        (scale, pc_scale, coin_scale) coin_le pc_le lp_le e_epoch =
      let (x, e_x) =
        shrunk_pnl-ok total_pc pc amm.pc_decimals amm.sys_decimal_value pc_fits pc_le scale
          pc_scale in
      let (y, e_y) =
        shrunk_pnl-ok total_coin coin amm.coin_decimals amm.sys_decimal_value coin_fits coin_le
          scale coin_scale in
      (
        (
          record amm { lp_amount = amm.lp_amount - lp; recent_epoch = epoch },
          record target { calc_pnl_x = x; calc_pnl_y = y },
        ),
        rw (Word.checked_sub-some amm.lp_amount lp lp_le) (rw e_x (rw e_y (rw e_epoch refl))),
      )

  -- Where the pool can only be withdrawn from (status 3), its totals are 64-bit numbers that its vaults
  -- hold, its scales fit, and the runtime knows the epoch: whoever burns fewer pool tokens than there are,
  -- but enough for a unit of both tokens, and asks for no minimum, is paid. Neither the settlement nor the
  -- payment fails or panics.
  pub withdraw_only_pays :
      (runtime : LiquidityRuntime) (target : TargetOrders) (amm : AmmInfo)
      (pc coin coin_vault pc_vault epoch : ℕ) (book_calls : List Call)
      (withdraw : WithdrawInstruction)
      → amm.status ≡ 3
      → Fit (pc, coin)
      → HasScales amm
      → pc ≤ pc_vault
      → coin ≤ coin_vault
      → IsWord 64 withdraw.amount
      → 0 < withdraw.amount
      → withdraw.amount < amm.lp_amount
      → amm.lp_amount ≤ pc * withdraw.amount
      → amm.lp_amount ≤ coin * withdraw.amount
      → withdraw.min_coin_amount ≡ none
      → runtime.epoch ≡ ok epoch
      → (settled : Settled) × (r : LiquidityResult) × (settle_withdraw target amm (pc, coin)
          ≡ ok settled)
        × (finish_withdraw runtime
              (record {
                settled = settled;
                target_orders = target;
                coin_vault_amount = coin_vault;
                pc_vault_amount = pc_vault;
                book_calls = book_calls;
              })
              withdraw
            ≡ ok r)
  unfolding finish_withdraw below_minimums ◌>>=◌
  withdraw_only_pays runtime target amm pc coin coin_vault pc_vault epoch book_calls withdraw only
        (pc_fits, coin_fits) scales pc_held coin_held word pos less pc_enough coin_enough no_min
        e_epoch =
      let amount = withdraw.amount in
      let lp = amm.lp_amount in
      let (out_coin, coin_runs, coin_share) = exchange-IsShare amount lp coin word coin_fits less in
      let (out_pc, pc_runs, pc_share) = exchange-IsShare amount lp pc word pc_fits less in
      let (coin_pos, coin_lt) =
        share_positive amount lp coin out_coin less pos coin_enough coin_share in
      let (pc_pos, pc_lt) = share_positive amount lp pc out_pc less pos pc_enough pc_share in
      let ((amm', target'), e_state) =
        withdraw_state-ok runtime target amm pc coin out_coin out_pc amount epoch
          (pc_fits, coin_fits) scales (omega arith) (omega arith) (omega arith) e_epoch in
      (
        settled_untaken amm pc coin,
        record {
          amm = amm';
          target_orders = target';
          calls = book_calls ++ withdraw_calls out_coin out_pc amount;
        },
        settle_withdraw-ok target amm pc coin only (pc_fits, coin_fits) scales,
        rw coin_runs (
            rw pc_runs (
              rw (all_positive amount out_coin out_pc pos coin_pos pc_pos) (
                rw (both_below out_coin coin_vault out_pc pc_vault (omega arith) (omega arith))
                  (rw no_min (rw e_state refl))))),
      )
