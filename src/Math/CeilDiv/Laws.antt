-- ===== src/Math/CeilDiv/Laws.antt =====
-- What `checked_ceil_div` returns.
use raydium_amm.Prelude.{
  ℕ, ◌+◌, ◌*◌, ◌/◌, ◌%◌, ◌^◌, ◌≤◌, ◌<◌, ◌≡◌, ◌≢◌, some, Bool-cases, inl, inr, lt→ltb, ltb→lt,
  Bool-cases, inl, inr, ltb, leb, ◌==◌, if◌then◌else◌, arith,
}
use raydium_amm.Prelude.Word
use native.Mathlib.Nat.{div-add-mod', mod-lt, div-eq_of_lt, div-le_self, le-div_iff_mul-le}
use raydium_amm.Uint.{Uint}
use raydium_amm.Math.CeilDiv.{checked_ceil_div, checked_ceil_div_u128}

-- The quotient and the divisor, without overflow checks.
abbrev pub ceil_pair : ℕ → ℕ → ℕ × ℕ
ceil_pair n d =
    if ltb n d
    then (if leb d (n * 2) then (1, 0) else (0, 0))
    else if n % d == 0
    then (n / d, d)
    else (n / d + 1, if n % (n / d + 1) == 0 then n / (n / d + 1) else n / (n / d + 1) + 1)

module _ ⦃uint : Uint⦄ where
  pub eq_u128 : (n d : ℕ) → checked_ceil_div n d ≡ checked_ceil_div_u128 n d
  unfolding checked_ceil_div checked_ceil_div_u128
  eq_u128 n d = simp (uint.div_law, uint.mul_law, uint.rem_law, uint.add_law)

div_pos : (n d : ℕ) → 0 < d → d ≤ n → 0 < n / d
div_pos n d p h = (le-div_iff_mul-le p).1 (omega arith)

u128_small :
    (n d : ℕ)
    → n + 1 < 2 ^ 128
    → d < 2 ^ 127
    → 0 < d
    → n < d
    → checked_ceil_div_u128 n d ≡ some (ceil_pair n d)
unfolding checked_ceil_div_u128
u128_small n d h k p small =
    rw (Word.checked_div-some n d p)
      (simp (div-eq_of_lt small, Word.fit-some 128 (n * 2) (omega arith), lt→ltb n d small))

u128_large :
    (n d : ℕ)
    → n + 1 < 2 ^ 128
    → d < 2 ^ 127
    → 0 < d
    → d ≤ n
    → checked_ceil_div_u128 n d ≡ some (ceil_pair n d)
unfolding checked_ceil_div_u128
u128_large n d h k p large =
    let bound : n / d ≤ n = div-le_self n d in
    let bound' : n / (n / d + 1) ≤ n = div-le_self n (n / d + 1) in
    let pos : 0 < n / d + 1 = omega arith in
    simp
      (
        Word.checked_div-some n d p,
        Word.checked_rem-some n d p,
        Word.checked_div-some n (n / d + 1) pos,
        Word.checked_rem-some n (n / d + 1) pos,
        Word.fit-some 128 (n / d + 1) (omega arith),
        Word.fit-some 128 (n / (n / d + 1) + 1) (omega arith),
      )
      (ground (arith, div_pos n d p large))

pub u128-some :
    (n d : ℕ)
    → n + 1 < 2 ^ 128
    → d < 2 ^ 127
    → 0 < d
    → checked_ceil_div_u128 n d ≡ some (ceil_pair n d)
u128-some n d h k p = elim (Bool-cases (ltb n d)) [
  | inl small ↦ u128_small n d h k p (ltb→lt n d small)
  | inr large ↦ u128_large n d h k p (ground arith)
]

-- `q` is `n / d` rounded up.
abbrev pub IsCeil : ℕ → ℕ → ℕ → Type 0
IsCeil n d q = (n ≤ q * d) × (q * d < n + d)

-- A dividend below the divisor is rounded to the nearest of 0 and 1; any other is rounded up, and the
-- new divisor is the dividend over the quotient, rounded up.
abbrev pub IsCeilPair : ℕ → ℕ → ℕ × ℕ → Type 0
IsCeilPair n d (q, r) =
    (n < d → (r ≡ 0) × (d ≤ n * 2 → q ≡ 1) × (n * 2 < d → q ≡ 0))
    × (d ≤ n → IsCeil n d q × IsCeil n q r)

up_inexact : (n d : ℕ) → 0 < d → n % d ≢ 0 → IsCeil n d (n / d + 1)
up_inexact n d p h = grind (arith, div-add-mod' n d, mod-lt n p)

up_exact : (n d : ℕ) → 0 < d → n % d ≡ 0 → IsCeil n d (n / d)
up_exact n d p h = grind (arith, div-add-mod' n d)

up_back : (n d : ℕ) → 0 < n / d → n % d ≡ 0 → IsCeil n (n / d) d
up_back n d p h = grind (arith, div-add-mod' n d)

pub ceil_pair-IsCeilPair : (n d : ℕ) → 0 < d → IsCeilPair n d (ceil_pair n d)
ceil_pair-IsCeilPair n d p = ground (
  arith,
  up_inexact n d p,
  up_exact n d p,
  up_back n d,
  div_pos n d p,
  up_inexact n (n / d + 1) (omega arith),
  up_exact n (n / d + 1) (omega arith),
)

module _ ⦃uint : Uint⦄ where
  pub checked_ceil_div-some :
      (n d : ℕ)
      → n + 1 < 2 ^ 128
      → d < 2 ^ 127
      → 0 < d
      → checked_ceil_div n d ≡ some (ceil_pair n d)
  checked_ceil_div-some n d h k p = rw (eq_u128 n d) (u128-some n d h k p)

  -- A 128-bit dividend below the largest, over a divisor of at most 127 bits that is not 0: neither
  -- implementation overflows, they agree, a dividend below the divisor is rounded to the nearest of 0
  -- and 1, and any other quotient is rounded up, with the divisor that goes with it.
  pub checked_ceil_div_lem :
      (n d : ℕ)
      → n + 1 < 2 ^ 128
      → d < 2 ^ 127
      → 0 < d
      → (pair : ℕ × ℕ) × (checked_ceil_div n d ≡ some pair)
        × (checked_ceil_div_u128 n d ≡ some pair)
        × IsCeilPair n d pair
  checked_ceil_div_lem n d h k p = (
    ceil_pair n d,
    checked_ceil_div-some n d h k p,
    u128-some n d h k p,
    ceil_pair-IsCeilPair n d p,
  )
