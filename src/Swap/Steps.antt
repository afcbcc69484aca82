-- ===== src/Swap/Steps.antt =====
-- The values of the steps of a run that succeeds.
use raydium_amm.Prelude.{
  subst, unwrap, ◌*◌, true, false, ◌||◌, not, ◌==◌, ◌<◌, leb, ℕ, ◌-◌, ◌+◌, ◌≤◌, Bool, ltb, some,
  none, ◌^◌, ap, ◌∙◌, sym, arith, refl, if◌then◌else◌, ensure, Ensures, unwrap, ◌≡◌, of_ok, ok,
  true, unwrap-eq-ok, of_panic, of_err, ◌&&◌,
}
use raydium_amm.Prelude.Word
use raydium_amm.Errors.{AmmError}
use raydium_amm.Math.Swap.{SwapDirection}
use raydium_amm.Uint.{Uint, sub128, mul128}
use raydium_amm.Swap.Prepare.{Prepared}
use raydium_amm.Swap.BaseIn.{total_out}
use raydium_amm.Swap.Fair.{Counts}
use raydium_amm.State.Amm.{AmmInfo}
use raydium_amm.Math.Swap.Laws.{reserve_out}

pub added : (w a b : ℕ) {n : ℕ} → unwrap (Word.checked_add w a b) ≡ ok n → n ≡ a + b
added w a b h = ground arith

pub ensured : (test : Bool) (e : AmmError) {u : Unit {0}} → ensure test e ≡ ok u → test ≡ true
ensured true e h = refl
ensured false e h = cc

pub both_tests : (a b : Bool) → (a && b) ≡ true → (a ≡ true) × (b ≡ true)
both_tests true b h = (refl, h)
both_tests false b h = cc

-- A test at the end of a chain.
pub passes :
    {P : Type 0} (test : Bool) (e : AmmError) → (test ≡ true → P) → Ensures (λ _. P) (ensure test e)
passes true e h = of_ok (h refl)
passes false e h = of_err

pub total_out-reserve :
    (p : Prepared)
    → total_out p
      ≡ reserve_out p.total_pc_without_take_pnl p.total_coin_without_take_pnl p.swap_direction
unfolding total_out
total_out-reserve p =
    elim (p.swap_direction)
      as (λ d.
        elim d [
          | SwapDirection.coin_to_pc ↦ p.total_pc_without_take_pnl
          | SwapDirection.pc_to_coin ↦ p.total_coin_without_take_pnl
        ]
        ≡ reserve_out p.total_pc_without_take_pnl p.total_coin_without_take_pnl d) [
          | SwapDirection.coin_to_pc ↦ refl
          | SwapDirection.pc_to_coin ↦ refl
        ]

if_some : (b : Bool) (a : ℕ) → Ensures (λ n. n ≡ a) (unwrap (if b then some a else none))
if_some true a = of_ok refl
if_some false a = of_panic

narrow_unwrap : (w a : ℕ) → Ensures (λ n. n ≡ a) (unwrap (Word.fit w a))
narrow_unwrap w a = if_some (ltb a (2 ^ w)) a

module _ ⦃uint : Uint⦄ where
  pub narrowed : (w a : ℕ) {n : ℕ} → uint.narrow w a ≡ ok n → n ≡ a
  narrowed w a {n} h = (Word.fit-eq-some w a n (unwrap-eq-ok _ (sym (uint.narrow_law w a) ∙ h))).1

  pub deducted : (a b : ℕ) {n : ℕ} → sub128 a b ≡ ok n → (b ≤ a) × (n ≡ a - b)
  deducted a b {n} h =
      let e : unwrap (Word.checked_sub a b) ≡ ok n = ap unwrap (sym (uint.sub_law 128 a b)) ∙ h in
      ground arith

  pub multiplied : (a b : ℕ) {n : ℕ} → mul128 a b ≡ ok n → n ≡ a * b
  multiplied a b {n} h =
      (Word.fit-eq-some 128 (a * b) n
        (unwrap-eq-ok _ (subst (λ o. unwrap o ≡ ok n) (uint.mul_law 128 a b) h))).1

  pub narrow-Ensures : (w a : ℕ) → Ensures (λ n. n ≡ a) (uint.narrow w a)
  narrow-Ensures w a = rw (uint.narrow_law w a) (narrow_unwrap w a)

pub none_zero : (a b : ℕ) → not (a == 0 || b == 0) ≡ true → (0 < a) × (0 < b)
none_zero a b h = ground arith

pub leb-value : (a b : ℕ) → leb a b ≡ true → a ≤ b
leb-value a b h = ground arith

pub ltb-value : (a b : ℕ) → ltb a b ≡ true → a < b
ltb-value a b h = ground arith

-- The epoch is none of the counters.
pub Counts-epoch :
    (before : AmmInfo) (d : SwapDirection) (paid out fee epoch : ℕ) (amm : AmmInfo)
    → Counts before d paid out fee amm
    → Counts before d paid out fee (record amm { recent_epoch = epoch })
Counts-epoch before SwapDirection.coin_to_pc paid out fee epoch amm h = h
Counts-epoch before SwapDirection.pc_to_coin paid out fee epoch amm h = h
