-- ===== src/Uint/Reference.antt =====
-- An implementation of the `uint` operations: it shows that the laws can hold, and the tests run
-- with it.
use Prim.Native.Nat.{ℕ, zero, suc, ◌+◌, ◌*◌, ◌/◌, ◌≤◌, ◌<◌, ◌-◌}
use raydium_amm.Prelude.{
  refl, leb, ◌==◌, if◌then◌else◌, true, false, Bool-cases, leb→le, leb→lt, inl, inr, unwrap, arith,
}
use raydium_amm.Prelude.Word
use raydium_amm.Uint.{Uint}

-- The square root, from that of the number without its two lowest bits.
abbrev add_digit : ℕ → ℕ → ℕ
add_digit n r = if leb ((r + r + 1) * (r + r + 1)) n then r + r + 1 else r + r

isqrt_fuel : ℕ → ℕ → ℕ
isqrt_fuel zero n = 0
isqrt_fuel (suc f) n = elim (n == 0) [ true ↦ 0 | false ↦ add_digit n (isqrt_fuel f (n / 4)) ]

unfoldable pub isqrt : ℕ → ℕ
unfolding isqrt_fuel
isqrt n = isqrt_fuel n n

abbrev pub IsSqrt : ℕ → ℕ → Type 0
IsSqrt n r = (r * r ≤ n) × (n < (r + 1) * (r + 1))

add_digit-IsSqrt : (n r : ℕ) → IsSqrt (n / 4) r → IsSqrt n (add_digit n r)
add_digit-IsSqrt n r h = elim (Bool-cases (leb ((r + r + 1) * (r + r + 1)) n)) [
  | inl fits ↦ let le = leb→le _ n fits in rw fits (omega arith)
  | inr high ↦ let lt = leb→lt _ n high in rw high (omega arith)
]

isqrt_fuel-IsSqrt : (f n : ℕ) → n ≤ f → IsSqrt n (isqrt_fuel f n)
unfolding isqrt_fuel
isqrt_fuel-IsSqrt zero n h = omega arith
isqrt_fuel-IsSqrt (suc f) n h = elim (Bool-cases (n == 0)) [
  | inl z ↦ rw (z, isqrt_fuel) (ground arith)
  | inr p ↦
      rw (p, isqrt_fuel)
        (add_digit-IsSqrt n (isqrt_fuel f (n / 4)) (isqrt_fuel-IsSqrt f (n / 4) (ground arith)))
]

pub isqrt-IsSqrt : (n : ℕ) → IsSqrt n (isqrt n)
unfolding isqrt
isqrt-IsSqrt n = isqrt_fuel-IsSqrt n n (omega arith)

abbrev pub reference : Uint
reference = record {
  checked_add = Word.checked_add;
  checked_sub = λ w. Word.checked_sub;
  checked_mul = Word.checked_mul;
  checked_div = λ w. Word.checked_div;
  checked_rem = λ w. Word.checked_rem;
  checked_pow = Word.checked_pow;
  saturating_sub = λ w a b. a - b;
  narrow = λ w a. unwrap (Word.fit w a);
  integer_sqrt = λ w. isqrt;
  add_law = λ w a b. refl;
  sub_law = λ w a b. refl;
  mul_law = λ w a b. refl;
  div_law = λ w a b. refl;
  rem_law = λ w a b. refl;
  pow_law = λ w a b. refl;
  saturating_law = λ w a b. refl;
  narrow_law = λ w a. refl;
  sqrt_law = λ w. isqrt-IsSqrt;
}
