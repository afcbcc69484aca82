-- ===== src/Pnl/Errors.antt =====
-- When the profit calculation returns an error.
use raydium_amm.State.Orders.{TargetOrders}
use raydium_amm.State.Amm.{AmmInfo}
use raydium_amm.Math.Decimal.{restore_decimal, calc_x_power}
use raydium_amm.Uint.{Uint, mul128, as_u64}
use raydium_amm.Prelude.Word
use raydium_amm.Errors.{AmmError, ProgramError, custom}
use raydium_amm.Prelude.{
  ℕ, leb, ◌<◌, ◌*◌, ◌^◌, IsErrFree, ok-IsErrFree, unwrap-IsErrFree, bind-IsErrFree, if-IsErrFree,
  bind-eq-err, Outcome, Option, unwrap, ◌>>=◌, ok, err, fail, not, ◌==◌, ◌&&◌, ◌≡◌, ◌↔◌, ◌∙◌, ap,
  sym, refl, false, arith, unwrap-eq-ok, subst, if◌then◌else◌, Bool-cases, inl, inr,
}
use raydium_amm.Pnl.{save_pnl, take_pnl, calc_take_pnl, pnl_share, settle_pnl}
use raydium_amm.Pnl.Laws.{product-value}

save_pnl-IsErrFree :
    (amm : AmmInfo) (pc coin diff_pc diff_coin p c dx dy : ℕ)
    → IsErrFree (save_pnl amm pc coin diff_pc diff_coin p c dx dy)
unfolding save_pnl
save_pnl-IsErrFree amm pc coin diff_pc diff_coin p c dx dy = unwrapped _ (λ _. unwrapped _ (λ _.
    unwrapped _ (λ _. unwrapped _ (λ _. unwrapped _ (λ _. unwrapped _ (λ _. ok-IsErrFree _))))))
  where
    unwrapped :
        {B : Type 0} (o : Option ℕ) {f : ℕ → Outcome B}
        → ((a : ℕ) → IsErrFree (f a))
        → IsErrFree (unwrap o >>= f)
    unwrapped o k = bind-IsErrFree (unwrap o) _ (unwrap-IsErrFree o) k

below : (a b : ℕ) → a < b → leb b a ≡ false
below a b h = ground arith

above : (a b : ℕ) → leb b a ≡ false → a < b
above a b h = ground arith

module _ ⦃uint : Uint⦄ where
  -- What the totals were at the last calculation, and that their product was larger.
  abbrev pub HasLost : TargetOrders → AmmInfo → (pc coin : ℕ) → Type 0
  HasLost target amm pc coin =
      (last_pc : ℕ) × (last_coin : ℕ) × (restore_decimal target.calc_pnl_x amm.pc_decimals
          amm.sys_decimal_value
        ≡ ok last_pc)
      × (restore_decimal target.calc_pnl_y amm.coin_decimals amm.sys_decimal_value ≡ ok last_coin)
      × (pc * coin < last_pc * last_coin)
      × (last_pc * last_coin < 2 ^ 128)

  narrowed-IsErrFree : (w a : ℕ) → IsErrFree (uint.narrow w a)
  narrowed-IsErrFree w a = rw (uint.narrow_law w a) (unwrap-IsErrFree _)

  restore_decimal-IsErrFree : (v d s : ℕ) → IsErrFree (restore_decimal v d s)
  unfolding restore_decimal
  restore_decimal-IsErrFree v d s =
      bind-IsErrFree _ _ (unwrap-IsErrFree _)
        (λ scale. bind-IsErrFree _ _ (unwrap-IsErrFree _) (λ product. unwrap-IsErrFree _))

  pnl_share-IsErrFree : (amm : AmmInfo) (diff : ℕ) → IsErrFree (pnl_share amm diff)
  unfolding pnl_share
  pnl_share-IsErrFree amm diff = bind-IsErrFree _ _ (unwrap-IsErrFree _) (λ _. unwrap-IsErrFree _)

  calc_x_power-IsErrFree : (a b c d : ℕ) → IsErrFree (calc_x_power a b c d)
  unfolding calc_x_power
  calc_x_power-IsErrFree a b c d =
      bind-IsErrFree _ _ (unwrap-IsErrFree _)
        (λ _. bind-IsErrFree _ _ (unwrap-IsErrFree _) (λ _. unwrap-IsErrFree _))

  settle_pnl-IsErrFree :
      (amm : AmmInfo) (pc coin diff_pc diff_coin p c dx dy : ℕ)
      → IsErrFree (settle_pnl amm pc coin diff_pc diff_coin p c dx dy)
  unfolding settle_pnl
  settle_pnl-IsErrFree amm pc coin diff_pc diff_coin p c dx dy =
      if-IsErrFree (not (p == 0) && not (c == 0)) _ _
        (bind-IsErrFree _ _ (narrowed-IsErrFree 64 diff_pc) (λ a.
          bind-IsErrFree _ _ (narrowed-IsErrFree 64 diff_coin)
            (λ b. save_pnl-IsErrFree amm pc coin a b p c dx dy)))
        (ok-IsErrFree _)

  take_pnl-IsErrFree :
      (target : TargetOrders) (amm : AmmInfo) (pc coin x1 y1 : ℕ)
      → IsErrFree (take_pnl target amm pc coin x1 y1)
  unfolding take_pnl
  take_pnl-IsErrFree target amm pc coin x1 y1 =
      bind-IsErrFree _ _ (calc_x_power-IsErrFree _ _ _ _) (λ _.
        bind-IsErrFree _ _ (unwrap-IsErrFree _) (λ _. bind-IsErrFree _ _ (unwrap-IsErrFree _) (λ _.
          bind-IsErrFree _ _ (unwrap-IsErrFree _) (λ x_diff.
            bind-IsErrFree _ _ (narrowed-IsErrFree 128 x_diff) (λ _.
              bind-IsErrFree _ _ (unwrap-IsErrFree _) (λ y_diff.
                bind-IsErrFree _ _ (narrowed-IsErrFree 128 y_diff) (λ _.
                  bind-IsErrFree _ _ (pnl_share-IsErrFree _ _) (λ x_share.
                    bind-IsErrFree _ _ (narrowed-IsErrFree 128 x_share) (λ _.
                      bind-IsErrFree _ _ (pnl_share-IsErrFree _ _) (λ y_share.
                        bind-IsErrFree _ _ (narrowed-IsErrFree 128 y_share)
                          (λ _. amounts _ _ _ _)))))))))))
    where
      amounts :
          (diff_x diff_y dx dy : ℕ)
          → IsErrFree (do
            diff_pc ← restore_decimal diff_x amm.pc_decimals amm.sys_decimal_value
            diff_coin ← restore_decimal diff_y amm.coin_decimals amm.sys_decimal_value
            pc_share ← pnl_share amm diff_pc
            p ← as_u64 pc_share
            coin_share ← pnl_share amm diff_coin
            c ← as_u64 coin_share
            settle_pnl amm pc coin diff_pc diff_coin p c dx dy)
      amounts diff_x diff_y dx dy = bind-IsErrFree _ _ (restore_decimal-IsErrFree _ _ _) (λ _.
          bind-IsErrFree _ _ (restore_decimal-IsErrFree _ _ _) (λ _.
            bind-IsErrFree _ _ (pnl_share-IsErrFree _ _) (λ pc_share.
              bind-IsErrFree _ _ (narrowed-IsErrFree 64 pc_share) (λ _.
                bind-IsErrFree _ _ (pnl_share-IsErrFree _ _) (λ coin_share.
                  bind-IsErrFree _ _ (narrowed-IsErrFree 64 coin_share)
                    (λ _. settle_pnl-IsErrFree amm pc coin _ _ _ _ dx dy))))))

  product-some : (a b : ℕ) → a * b < 2 ^ 128 → mul128 a b ≡ ok (a * b)
  product-some a b h = rw (uint.mul_law 128 a b) (rw (Word.fit-some 128 (a * b) h) refl)

  product-fits : (a b : ℕ) {n : ℕ} → mul128 a b ≡ ok n → a * b < 2 ^ 128
  product-fits a b {n} h =
      (Word.fit-eq-some 128 (a * b) n
        (unwrap-eq-ok _ (subst (λ o. unwrap o ≡ ok n) (uint.mul_law 128 a b) h))).0

  calc_take_pnl_refused :
      (target : TargetOrders) (amm : AmmInfo) (pc coin x1 y1 last_pc last_coin : ℕ)
      → restore_decimal target.calc_pnl_x amm.pc_decimals amm.sys_decimal_value ≡ ok last_pc
      → restore_decimal target.calc_pnl_y amm.coin_decimals amm.sys_decimal_value ≡ ok last_coin
      → pc * coin < last_pc * last_coin
      → last_pc * last_coin < 2 ^ 128
      → calc_take_pnl target amm pc coin x1 y1 ≡ err (custom AmmError.calc_pnl_error)
  unfolding calc_take_pnl ◌>>=◌
  calc_take_pnl_refused target amm pc coin x1 y1 last_pc last_coin hp hc lt fits = rw hp (
      rw hc (
        rw (product-some pc coin (omega arith))
          (rw (product-some last_pc last_coin fits) (rw (below _ _ lt) refl))))

  -- The two branches of the test.
  guarded :
      (target : TargetOrders) (amm : AmmInfo) (pc coin x1 y1 last pool : ℕ) {e : ProgramError}
      → (if leb last pool then take_pnl target amm pc coin x1 y1 else fail AmmError.calc_pnl_error)
        ≡ err e
      → (e ≡ custom AmmError.calc_pnl_error) × (pool < last)
  guarded target amm pc coin x1 y1 last pool h = elim (Bool-cases (leb last pool)) [
    | inl le ↦ absurd (take_pnl-IsErrFree target amm pc coin x1 y1 _ (rw le at h))
    | inr gt ↦ (cc (rw gt at h), above pool last gt)
  ]

  calc_take_pnl-lost :
      (target : TargetOrders) (amm : AmmInfo) (pc coin x1 y1 : ℕ) {e : ProgramError}
      → calc_take_pnl target amm pc coin x1 y1 ≡ err e
      → (e ≡ custom AmmError.calc_pnl_error) × HasLost target amm pc coin
  unfolding calc_take_pnl
  calc_take_pnl-lost target amm pc coin x1 y1 h =
      let (last_pc, e_pc, h1) = bind-eq-err _ _ (restore_decimal-IsErrFree _ _ _) h in
      let (last_coin, e_coin, h2) = bind-eq-err _ _ (restore_decimal-IsErrFree _ _ _) h1 in
      let (pool, e_pool, h3) = bind-eq-err _ _ (unwrap-IsErrFree _) h2 in
      let (last, e_last, h4) = bind-eq-err _ _ (unwrap-IsErrFree _) h3 in
      let (same, less) = guarded target amm pc coin x1 y1 last pool h4 in
      let pool_value = product-value pc coin e_pool in
      let last_value = product-value last_pc last_coin e_last in
      let fits = product-fits last_pc last_coin e_last in
      (same, (last_pc, last_coin, e_pc, e_coin, omega arith, omega arith))

  -- The profit calculation returns an error exactly where the amounts of the last calculation can be
  -- restored, their product is a 128-bit number, and the product of the totals is below it; the error is
  -- then `CalcPnlError`, and there is no other (everything else that goes wrong panics).
  pub calc_take_pnl-HasLost :
      (target : TargetOrders) (amm : AmmInfo) (pc coin x1 y1 : ℕ) (e : ProgramError)
      → (calc_take_pnl target amm pc coin x1 y1 ≡ err e)
        ↔ ((e ≡ custom AmmError.calc_pnl_error) × HasLost target amm pc coin)
  calc_take_pnl-HasLost target amm pc coin x1 y1 e = (
    λ h. calc_take_pnl-lost target amm pc coin x1 y1 h,
    λ (same, (last_pc, last_coin, e_pc, e_coin, less, fits)).
        calc_take_pnl_refused target amm pc coin x1 y1 last_pc last_coin e_pc e_coin less fits
        ∙ ap (λ (n : ProgramError). err n) (sym same),
  )
