-- ===== src/Prelude/Word.antt =====
-- Rust's unsigned integers of `w` bits: the checked operations of the language, on native numbers.
use Prim.Native.Nat.{ℕ, ◌+◌, ◌-◌, ◌*◌, ◌/◌, ◌%◌, ◌^◌, ◌≤◌, ◌<◌}
use mathlib.Core.Path.{◌≡◌, ap}
use native.Mathlib.Nat.{mul-le-mul}
use native.Mathlib.Omega.{arith}
use raydium_amm.Prelude.Tests.{lt→ltb, ltb, leb, ◌==◌, if◌then◌else◌}
use mathlib.Core.Option.{Option, none, some}

abbrev pub IsWord : ℕ → ℕ → Type 0
IsWord w n = n < 2 ^ w

abbrev pub fit : ℕ → ℕ → Option ℕ
fit w n = if ltb n (2 ^ w) then some n else none

abbrev pub checked_add : ℕ → ℕ → ℕ → Option ℕ
checked_add w a b = fit w (a + b)

abbrev pub checked_sub : ℕ → ℕ → Option ℕ
checked_sub a b = if leb b a then some (a - b) else none

abbrev pub checked_mul : ℕ → ℕ → ℕ → Option ℕ
checked_mul w a b = fit w (a * b)

abbrev pub checked_div : ℕ → ℕ → Option ℕ
checked_div a b = if b == 0 then none else some (a / b)

abbrev pub checked_rem : ℕ → ℕ → Option ℕ
checked_rem a b = if b == 0 then none else some (a % b)

abbrev pub checked_pow : ℕ → ℕ → ℕ → Option ℕ
checked_pow w a b = fit w (a ^ b)

pub fit-some : (w n : ℕ) → n < 2 ^ w → fit w n ≡ some n
fit-some w n h = rw (lt→ltb _ _ h)

pub fit-eq-some : (w n m : ℕ) → fit w n ≡ some m → (n < 2 ^ w) × (m ≡ n)
fit-eq-some w n m h = ground arith

pub checked_div-some : (n d : ℕ) → 0 < d → checked_div n d ≡ some (n / d)
checked_div-some n d h = ground arith

pub checked_rem-some : (n d : ℕ) → 0 < d → checked_rem n d ≡ some (n % d)
checked_rem-some n d h = ground arith

pub checked_sub-some : (n d : ℕ) → d ≤ n → checked_sub n d ≡ some (n - d)
checked_sub-some n d h = ground arith

-- The product of two 64-bit numbers leaves room in 128 bits.
pub mul-lt : (a b : ℕ) → IsWord 64 a → IsWord 64 b → a * b + 1 < 2 ^ 128
mul-lt a b ha hb =
    let le : a * b ≤ (2 ^ 64 - 1) * (2 ^ 64 - 1) =
      mul-le-mul {n₂ = 2 ^ 64 - 1} {m₂ = 2 ^ 64 - 1} (omega arith) (omega arith) in
    omega arith

-- A product over a difference, for linear arithmetic.
pub mul_split : (a r o : ℕ) → o ≤ r → a * r ≡ a * o + a * (r - o)
mul_split a r o h = let e : r ≡ o + (r - o) = omega arith in omega (arith, ap (λ (t : ℕ). a * t) e)
