-- ===== src/Uint.antt =====
-- The `uint` crate, from which program/src/math.rs builds `U128` and `U256` (`construct_uint!`).
-- Its code is not part of the repository, so it is an instance argument of the definitions that
-- call it, with the crate's documented behaviour as laws. The first argument of an operation is the
-- width in bits; a value is the number that it stands for.
pub mod Reference
use Prim.Native.Nat.{ℕ, ◌+◌, ◌*◌, ◌^◌, ◌≤◌, ◌<◌, ◌-◌}
use raydium_amm.Prelude.{◌≡◌, Option, Outcome, unwrap}
use raydium_amm.Prelude.Word

pub record Uint : Type 0 where
  pub checked_add : ℕ → ℕ → ℕ → Option ℕ
  pub checked_sub : ℕ → ℕ → ℕ → Option ℕ
  pub checked_mul : ℕ → ℕ → ℕ → Option ℕ
  pub checked_div : ℕ → ℕ → ℕ → Option ℕ
  pub checked_rem : ℕ → ℕ → ℕ → Option ℕ
  pub checked_pow : ℕ → ℕ → ℕ → Option ℕ
  pub saturating_sub : ℕ → ℕ → ℕ → ℕ
  -- `as_u64` and `as_u128` panic where the value does not fit.
  pub narrow : ℕ → ℕ → Outcome ℕ
  pub integer_sqrt : ℕ → ℕ → ℕ
  pub add_law : (w a b : ℕ) → checked_add w a b ≡ Word.checked_add w a b
  pub sub_law : (w a b : ℕ) → checked_sub w a b ≡ Word.checked_sub a b
  pub mul_law : (w a b : ℕ) → checked_mul w a b ≡ Word.checked_mul w a b
  pub div_law : (w a b : ℕ) → checked_div w a b ≡ Word.checked_div a b
  pub rem_law : (w a b : ℕ) → checked_rem w a b ≡ Word.checked_rem a b
  pub pow_law : (w a b : ℕ) → checked_pow w a b ≡ Word.checked_pow w a b
  pub saturating_law : (w a b : ℕ) → saturating_sub w a b ≡ a - b
  pub narrow_law : (w a : ℕ) → narrow w a ≡ unwrap (Word.fit w a)
  pub sqrt_law :
      (w a : ℕ)
      → (integer_sqrt w a * integer_sqrt w a ≤ a)
        × (a < (integer_sqrt w a + 1) * (integer_sqrt w a + 1))

-- `a.checked_op(b).unwrap()` and the conversions, at the widths of the program.
module _ ⦃uint : Uint⦄ where
  abbrev pub add128 : ℕ → ℕ → Outcome ℕ
  add128 a b = unwrap (uint.checked_add 128 a b)

  abbrev pub sub128 : ℕ → ℕ → Outcome ℕ
  sub128 a b = unwrap (uint.checked_sub 128 a b)

  abbrev pub mul128 : ℕ → ℕ → Outcome ℕ
  mul128 a b = unwrap (uint.checked_mul 128 a b)

  abbrev pub div128 : ℕ → ℕ → Outcome ℕ
  div128 a b = unwrap (uint.checked_div 128 a b)

  abbrev pub pow128 : ℕ → ℕ → Outcome ℕ
  pow128 a b = unwrap (uint.checked_pow 128 a b)

  abbrev pub sub256 : ℕ → ℕ → Outcome ℕ
  sub256 a b = unwrap (uint.checked_sub 256 a b)

  abbrev pub mul256 : ℕ → ℕ → Outcome ℕ
  mul256 a b = unwrap (uint.checked_mul 256 a b)

  abbrev pub div256 : ℕ → ℕ → Outcome ℕ
  div256 a b = unwrap (uint.checked_div 256 a b)

  abbrev pub as_u64 : ℕ → Outcome ℕ
  as_u64 a = uint.narrow 64 a

  abbrev pub as_u128 : ℕ → Outcome ℕ
  as_u128 a = uint.narrow 128 a
