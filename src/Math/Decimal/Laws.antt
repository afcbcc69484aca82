-- ===== src/Math/Decimal/Laws.antt =====
-- Normalised amounts: where the system's unit is a multiple of the token's, nothing is lost.
use raydium_amm.Prelude.{
  ℕ, zero, suc, ◌*◌, ◌/◌, ◌^◌, ◌≤◌, ◌<◌, ◌≡◌, sym, ◌∙◌, Outcome, ok, ◌>>=◌, unwrap, arith,
}
use raydium_amm.Prelude.Word
use raydium_amm.Prelude.Word.{IsWord}
use raydium_amm.Uint.{Uint}
use raydium_amm.Math.Decimal.{normalize_decimal_v2, restore_decimal}
use native.Mathlib.Nat.{mul_assoc, mul-div_cancel, div-le_of_le-mul, div-mul-le_self}

-- The two conversions over the operations of a primitive type, at any scale.
scale_down : ℕ → ℕ → ℕ → Outcome ℕ
scale_down val scale sys = do
  ret_mut ← unwrap (Word.fit 128 (val * sys))
  scale' ← unwrap (Word.fit 128 scale)
  unwrap (Word.checked_div ret_mut scale')

scale_up : ℕ → ℕ → ℕ → Outcome ℕ
scale_up val scale sys = do
  scale' ← unwrap (Word.fit 128 scale)
  ret_mut ← unwrap (Word.fit 128 (val * scale'))
  unwrap (Word.checked_div ret_mut sys)

scale_down-eq-ok :
    (val scale sys : ℕ) {mid : ℕ}
    → scale_down val scale sys ≡ ok mid
    → (0 < scale) × (mid ≡ val * sys / scale)
unfolding scale_down ◌>>=◌
scale_down-eq-ok val scale sys h = ground arith

scale_up-eq-ok :
    (val scale sys : ℕ) {mid : ℕ}
    → scale_up val scale sys ≡ ok mid
    → (0 < sys) × (mid ≡ val * scale / sys)
unfolding scale_up ◌>>=◌
scale_up-eq-ok val scale sys h = ground arith

-- `(a * b / c) * c / b` is at most `a`.
there_and_back_le : (a b c : ℕ) → 0 < b → a * b / c * c / b ≤ a
there_and_back_le a b c p = div-le_of_le-mul b (let le = div-mul-le_self (a * b) c in omega arith)

factor_bounds : (k scale : ℕ) → 0 < k * scale → (0 < scale) × (scale ≤ k * scale)
factor_bounds zero scale h = absurd (omega arith)
factor_bounds (suc k) zero h = absurd (omega arith)
factor_bounds (suc k) (suc scale) h = (omega arith, omega arith)

-- On 64-bit numbers, with `sys` a multiple of `scale`.
exact :
    (val scale sys k : ℕ)
    → IsWord 64 val
    → IsWord 64 sys
    → 0 < sys
    → sys ≡ k * scale
    → (scale_down val scale sys ≡ ok (val * k)) × (scale_up (val * k) scale sys ≡ ok val)
unfolding scale_down scale_up ◌>>=◌
exact val scale sys k hv hs p e =
    let (pos, small) = factor_bounds k scale (rw e at p) in
    let regroup : val * sys ≡ val * k * scale = rw e (sym (mul_assoc val k scale)) in
    let down : val * sys / scale ≡ val * k = rw regroup (mul-div_cancel (val * k) pos) in
    let room = Word.mul-lt val sys hv hs in
    let room' : val * sys < 2 ^ 128 = omega arith in
    let scale_fits : scale < 2 ^ 128 = omega (arith, e) in
    (
      simp (Word.fit-some 128 (val * sys) room', Word.fit-some 128 scale scale_fits, down)
          (ground arith),
      simp
          (
            Word.fit-some 128 scale scale_fits,
            ← regroup,
            Word.fit-some 128 (val * sys) room',
            mul-div_cancel val p,
          )
          (ground arith),
    )

module _ ⦃uint : Uint⦄ where
  normalize-scale : (val d sys : ℕ) → normalize_decimal_v2 val d sys ≡ scale_down val (10 ^ d) sys
  unfolding normalize_decimal_v2 scale_down ◌>>=◌
  normalize-scale val d sys = simp (uint.mul_law, uint.pow_law, uint.div_law)

  restore-scale : (val d sys : ℕ) → restore_decimal val d sys ≡ scale_up val (10 ^ d) sys
  unfolding restore_decimal scale_up ◌>>=◌
  restore-scale val d sys = simp (uint.mul_law, uint.pow_law, uint.div_law)

  -- If the system's unit is a whole multiple, `k`, of the token's (`AmmInfo::initialize` takes the
  -- larger of the two tokens' units at least), a 64-bit amount is normalised and restored without a
  -- panic and without loss.
  pub restore-normalize :
      (val native_decimal sys k : ℕ)
      → IsWord 64 val
      → IsWord 64 sys
      → 0 < sys
      → sys ≡ k * 10 ^ native_decimal
      → (normalize_decimal_v2 val native_decimal sys ≡ ok (val * k))
        × (restore_decimal (val * k) native_decimal sys ≡ ok val)
  restore-normalize val d sys k hv hs p e =
      let (down, up) = exact val (10 ^ d) sys k hv hs p e in
      (normalize-scale val d sys ∙ down, restore-scale (val * k) d sys ∙ up)

  -- Whatever the units, an amount that is normalised and then restored never grows, and neither does
  -- one that is restored and then normalised.
  normalize_restore_le :
      (val native_decimal sys : ℕ) {mid out : ℕ}
      → (normalize_decimal_v2 val native_decimal sys ≡ ok mid
          → restore_decimal mid native_decimal sys ≡ ok out
          → out ≤ val)
        × (restore_decimal val native_decimal sys ≡ ok mid
            → normalize_decimal_v2 mid native_decimal sys ≡ ok out
            → out ≤ val)
  normalize_restore_le val d sys {mid} = (
    λ down up.
        let (p, e) = scale_down-eq-ok val (10 ^ d) sys (rw (normalize-scale val d sys) at down) in
        let (p', e') = scale_up-eq-ok mid (10 ^ d) sys (rw (restore-scale mid d sys) at up) in
        rw (e', e) (there_and_back_le val sys (10 ^ d) p'),
    λ up down.
        let (p, e) = scale_up-eq-ok val (10 ^ d) sys (rw (restore-scale val d sys) at up) in
        let (p', e') = scale_down-eq-ok mid (10 ^ d) sys (rw (normalize-scale mid d sys) at down) in
        rw (e', e) (there_and_back_le val (10 ^ d) sys p'),
  )
