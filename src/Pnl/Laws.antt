-- ===== src/Pnl/Laws.antt =====
-- What the profit calculation does to the pool.
use native.Mathlib.Nat.{div-mul-le_self, lt-div-mul-add}
use raydium_amm.Swap.Steps.{narrowed, multiplied}
use raydium_amm.Prelude.Word.{IsWord}
use raydium_amm.Errors.{AmmError}
use raydium_amm.Prelude.{
  sym, ◌==◌, not, ◌&&◌, arith, refl, if_Ensures, ℕ, ◌+◌, ◌≤◌, ◌<◌, Ensures, ◌⊎◌, ◌≡◌, bind-Ensures,
  of_ok, arith, ◌^◌, Ensures-map, inr, inl, true, ◌*◌, ensures_value, unwrap-eq-ok, of_err, subst,
  ap, fail, skip, of_panic, suc, zero,
}
use raydium_amm.Prelude.Word
use raydium_amm.Uint.{Uint}
use raydium_amm.Pnl.{
  TakenPnl, save_pnl, take_pnl, calc_take_pnl, AmmInfo, unwrap, ok, not, settle_pnl, TargetOrders,
  restore_decimal, leb, mul128, pnl_share,
}

-- No profit is taken: nothing changes, and the normalised amounts taken are 0.
pub record IsUntaken (amm : AmmInfo) (pc coin : ℕ) (r : TakenPnl) : Type 0 where
  pub same_amm : r.amm ≡ amm
  pub same_pc : r.total_pc_without_take_pnl ≡ pc
  pub same_coin : r.total_coin_without_take_pnl ≡ coin
  pub no_delta_x : r.delta_x ≡ 0
  pub no_delta_y : r.delta_y ≡ 0

-- The owner's share of a profit: the fraction that the fees name, rounded down.
abbrev pub IsPnlShare : AmmInfo → (profit share : ℕ) → Type 0
IsPnlShare amm profit share =
    (share * amm.fees.pnl_denominator ≤ profit * amm.fees.pnl_numerator)
    × (profit * amm.fees.pnl_numerator < (share + 1) * amm.fees.pnl_denominator)

-- What is recorded of a profit: the whole of it in the one field, the owner's share in the other.
abbrev pub Records : AmmInfo → (total total' debt debt' : ℕ) → Type 0
Records amm total total' debt debt' =
    (profit : ℕ) × (share : ℕ) × (total' ≡ total + profit)
    × (debt' ≡ debt + share)
    × IsPnlShare amm profit share

-- Profit is taken: what the pool owes its owner grows by what leaves the totals, in both tokens and
-- by more than 0, and is the owner's share of the profit that is recorded; the records of the profit do
-- not fall, and they stay 64-bit numbers.
pub record IsTaken (amm : AmmInfo) (pc coin : ℕ) (r : TakenPnl) : Type 0 where
  pub pc_kept :
      r.total_pc_without_take_pnl + r.amm.state_data.need_take_pnl_pc
      ≡ pc + amm.state_data.need_take_pnl_pc
  pub coin_kept :
      r.total_coin_without_take_pnl + r.amm.state_data.need_take_pnl_coin
      ≡ coin + amm.state_data.need_take_pnl_coin
  pub pc_left : r.total_pc_without_take_pnl < pc
  pub coin_left : r.total_coin_without_take_pnl < coin
  pub pc_fits : IsWord 64 (r.amm.state_data.need_take_pnl_pc)
  pub coin_fits : IsWord 64 (r.amm.state_data.need_take_pnl_coin)
  pub total_pc_le : amm.state_data.total_pnl_pc ≤ r.amm.state_data.total_pnl_pc
  pub total_coin_le : amm.state_data.total_pnl_coin ≤ r.amm.state_data.total_pnl_coin
  pub pc_share :
      Records amm amm.state_data.total_pnl_pc r.amm.state_data.total_pnl_pc
        amm.state_data.need_take_pnl_pc r.amm.state_data.need_take_pnl_pc
  pub coin_share :
      Records amm amm.state_data.total_pnl_coin r.amm.state_data.total_pnl_coin
        amm.state_data.need_take_pnl_coin r.amm.state_data.need_take_pnl_coin
  pub same_lp : r.amm.lp_amount ≡ amm.lp_amount
  pub same_fees : r.amm.fees ≡ amm.fees
  pub same_status : r.amm.status ≡ amm.status

abbrev pub PnlStep : AmmInfo → ℕ → ℕ → TakenPnl → Type 0
PnlStep amm pc coin r = IsUntaken amm pc coin r ⊎ IsTaken amm pc coin r

-- The pool tokens stay what they were.
pub PnlStep-lp :
    (amm : AmmInfo) (pc coin : ℕ) (r : TakenPnl)
    → PnlStep amm pc coin r
    → r.amm.lp_amount ≡ amm.lp_amount
PnlStep-lp amm pc coin r (inl untaken) = ap (λ (a : AmmInfo). a.lp_amount) untaken.same_amm
PnlStep-lp amm pc coin r (inr taken) = taken.same_lp

added : (a b : ℕ) {n : ℕ} → unwrap (Word.checked_add 64 a b) ≡ ok n → (n < 2 ^ 64) × (n ≡ a + b)
added a b h = ground arith

subtracted : (a b : ℕ) {n : ℕ} → unwrap (Word.checked_sub a b) ≡ ok n → n + b ≡ a
subtracted a b h = ground arith

save_pnl-IsTaken :
    (amm : AmmInfo) (pc coin diff_pc diff_coin p c dx dy : ℕ)
    → 0 < p
    → 0 < c
    → IsPnlShare amm diff_pc p
    → IsPnlShare amm diff_coin c
    → Ensures (IsTaken amm pc coin) (save_pnl amm pc coin diff_pc diff_coin p c dx dy)
unfolding save_pnl
save_pnl-IsTaken amm pc coin diff_pc diff_coin p c dx dy hp hc pc_is coin_is =
    bind-Ensures _ _ (λ tp ep. bind-Ensures _ _ (λ tc ec. bind-Ensures _ _ (λ np enp.
      bind-Ensures _ _ (λ nc enc. bind-Ensures _ _ (λ pc' epc. bind-Ensures _ _ (λ coin' ecoin.
        let (fp, np_eq) = added _ _ enp in
        let (fc, nc_eq) = added _ _ enc in
        let (_, tp_eq) = added _ _ ep in
        let (_, tc_eq) = added _ _ ec in
        let pc_eq = subtracted _ _ epc in
        let coin_eq = subtracted _ _ ecoin in
        of_ok (record {
          pc_kept = omega arith;
          coin_kept = omega arith;
          pc_left = omega arith;
          coin_left = omega arith;
          pc_fits = fp;
          coin_fits = fc;
          total_pc_le = omega arith;
          total_coin_le = omega arith;
          pc_share = (diff_pc, p, tp_eq, np_eq, pc_is);
          coin_share = (diff_coin, c, tc_eq, nc_eq, coin_is);
          same_lp = refl;
          same_fees = refl;
          same_status = refl;
        })))))))

quotient :
    (a d : ℕ) → Ensures (λ n. (n * d ≤ a) × (a < (n + 1) * d)) (unwrap (Word.checked_div a d))
quotient a zero = of_panic
quotient a (suc d) = rw (Word.checked_div-some a (suc d) (omega arith)) (
    of_ok (
      div-mul-le_self a (suc d),
      let less = lt-div-mul-add {a = a} {b = suc d} (omega arith) in omega arith,
    ))

both_positive : (p c : ℕ) → (not (p == 0) && not (c == 0)) ≡ true → (0 < p) × (0 < c)
both_positive p c h = ground arith

module _ ⦃uint : Uint⦄ where
  settle_pnl-PnlStep :
      (amm : AmmInfo) (pc coin diff_pc diff_coin p c dx dy : ℕ)
      → IsPnlShare amm diff_pc p
      → IsPnlShare amm diff_coin c
      → Ensures (PnlStep amm pc coin) (settle_pnl amm pc coin diff_pc diff_coin p c dx dy)
  unfolding settle_pnl
  settle_pnl-PnlStep amm pc coin diff_pc diff_coin p c dx dy pc_is coin_is =
      if_Ensures _ _ _
        (λ positive.
          let (hp, hc) = both_positive p c positive in
          bind-Ensures _ _ (λ a e_a. bind-Ensures _ _ (λ b e_b.
            Ensures-map (λ _. inr)
              (save_pnl-IsTaken amm pc coin a b p c dx dy hp hc (rw (narrowed 64 diff_pc e_a) pc_is)
                (rw (narrowed 64 diff_coin e_b) coin_is)))))
        (λ _. of_ok (
          inl (record {
            same_amm = refl;
            same_pc = refl;
            same_coin = refl;
            no_delta_x = refl;
            no_delta_y = refl;
          })))

  pub product-value : (a b : ℕ) {n : ℕ} → mul128 a b ≡ ok n → n ≡ a * b
  product-value a b {n} h =
      (Word.fit-eq-some 128 (a * b) n
        (unwrap-eq-ok _ (subst (λ o. unwrap o ≡ ok n) (uint.mul_law 128 a b) h))).1

  product_bound :
      (last_pc last_coin a b pc coin pool last : ℕ)
      → a ≡ last_pc
      → b ≡ last_coin
      → mul128 pc coin ≡ ok pool
      → mul128 a b ≡ ok last
      → leb last pool ≡ true
      → last_pc * last_coin ≤ pc * coin
  product_bound last_pc last_coin a b pc coin pool last ea eb e_pool e_last le = rw (sym ea) (
      rw (sym eb) (
        rw (sym (product-value a b e_last))
          (rw (sym (product-value pc coin e_pool)) (ground arith))))

  pnl_share-IsPnlShare :
      (amm : AmmInfo) (profit : ℕ) {n : ℕ} → pnl_share amm profit ≡ ok n → IsPnlShare amm profit n
  unfolding pnl_share
  pnl_share-IsPnlShare amm profit = ensures_value {P = IsPnlShare amm profit} _ (
      bind-Ensures _ _ (λ product e_product.
        let same = multiplied profit amm.fees.pnl_numerator e_product in
        rw (uint.div_law 128 product amm.fees.pnl_denominator)
          (rw same (quotient (profit * amm.fees.pnl_numerator) amm.fees.pnl_denominator))))

  take_pnl-PnlStep :
      (target : TargetOrders) (amm : AmmInfo) (pc coin x1 y1 : ℕ)
      → Ensures (PnlStep amm pc coin) (take_pnl target amm pc coin x1 y1)
  unfolding take_pnl
  take_pnl-PnlStep target amm pc coin x1 y1 = skip _ _ (λ x2_power. skip _ _ (λ x2y1.
      skip _ _ (λ y2. skip _ _ (λ x_diff. skip _ _ (λ diff_x. skip _ _ (λ y_diff.
        skip _ _ (λ diff_y. skip _ _ (λ x_share. skip _ _ (λ delta_x. skip _ _ (λ y_share.
          skip _ _ (λ delta_y. skip _ _ (λ diff_pc. skip _ _ (λ diff_coin.
            bind-Ensures _ _ (λ pc_share e_pc. bind-Ensures _ _ (λ p e_p.
              bind-Ensures _ _ (λ coin_share e_coin. bind-Ensures _ _ (λ c e_c.
                settle_pnl-PnlStep amm pc coin diff_pc diff_coin p c delta_x delta_y
                  (rw (narrowed 64 pc_share e_p) (pnl_share-IsPnlShare amm diff_pc e_pc))
                  (rw (narrowed 64 coin_share e_c)
                    (pnl_share-IsPnlShare amm diff_coin e_coin)))))))))))))))))))

  pub calc_take_pnl-Step :
      (target : TargetOrders) (amm : AmmInfo) (pc coin x1 y1 : ℕ)
      → Ensures (PnlStep amm pc coin) (calc_take_pnl target amm pc coin x1 y1)
  unfolding calc_take_pnl
  calc_take_pnl-Step target amm pc coin x1 y1 = skip _ _ (λ a. skip _ _ (λ b. skip _ _ (λ pool.
      skip _ _ (λ last.
        if_Ensures (leb last pool) _ (fail AmmError.calc_pnl_error)
          (λ _. take_pnl-PnlStep target amm pc coin x1 y1) (λ _. of_err)))))

  -- Where the amounts of the last calculation can be restored: a calculation that succeeds takes
  -- nothing and changes nothing, or, for both tokens, moves an amount greater than 0 from the total
  -- to what the owner can withdraw, which is the fraction of the recorded profit that the fees name, rounded
  -- down (`PnlStep`); and the product of the totals is at least that of the
  -- restored amounts.
  pub calc_take_pnl-PnlStep :
      (target : TargetOrders) (amm : AmmInfo) (pc coin x1 y1 last_pc last_coin : ℕ) {r : TakenPnl}
      → restore_decimal target.calc_pnl_x amm.pc_decimals amm.sys_decimal_value ≡ ok last_pc
      → restore_decimal target.calc_pnl_y amm.coin_decimals amm.sys_decimal_value ≡ ok last_coin
      → calc_take_pnl target amm pc coin x1 y1 ≡ ok r
      → PnlStep amm pc coin r × (last_pc * last_coin ≤ pc * coin)
  unfolding calc_take_pnl
  calc_take_pnl-PnlStep target amm pc coin x1 y1 last_pc last_coin hp hc =
      ensures_value {P = λ r. PnlStep amm pc coin r × (last_pc * last_coin ≤ pc * coin)}
        (calc_take_pnl target amm pc coin x1 y1)
        (bind-Ensures _ _ (λ a ea. bind-Ensures _ _ (λ b eb. bind-Ensures _ _ (λ pool e_pool.
          bind-Ensures _ _ (λ last e_last.
            if_Ensures _ _ _
              (λ le.
                let bound =
                  product_bound last_pc last_coin a b pc coin pool last (cc) (cc) e_pool e_last
                    le in
                Ensures-map (λ _ step. (step, bound)) (take_pnl-PnlStep target amm pc coin x1 y1))
              (λ _. of_err))))))
