-- ===== src/Math/CeilDiv.antt =====
-- `trait CheckedCeilDiv` for the primitive `u128` and for `U128`.
pub mod Laws
use raydium_amm.Prelude.{ℕ, ◌*◌, Bool, Option, none, some, ltb, leb, ◌==◌, if◌then◌else◌}
use raydium_amm.Prelude.Word
use raydium_amm.Uint.{Uint}

-- `?` on an `Option`.
infixl 5 ◌>>=◌
abbrev pub ◌>>=◌ : {A B : Type 0} → Option A → (A → Option B) → Option B
none >>= f = none
some a >>= f = f a

-- `impl CheckedCeilDiv for u128`
unfoldable pub checked_ceil_div_u128 : ℕ → ℕ → Option (ℕ × ℕ)
checked_ceil_div_u128 self rhs = do
  quotient ← Word.checked_div self rhs
  let small = do
    twice ← Word.checked_mul 128 self 2
    some (if leb rhs twice then (1, 0) else (0, 0))
  let whole = do
    remainder ← Word.checked_rem self rhs
    let inexact = do
      quotient' ← Word.checked_add 128 quotient 1
      rhs' ← Word.checked_div self quotient'
      remainder' ← Word.checked_rem self quotient'
      let bumped = do rhs'' ← Word.checked_add 128 rhs' 1; some (quotient', rhs'')
      if ltb 0 remainder' then bumped else some (quotient', rhs')
    if ltb 0 remainder then inexact else some (quotient, rhs)
  if quotient == 0 then small else whole

-- `impl CheckedCeilDiv for U128`
module _ ⦃uint : Uint⦄ where
  unfoldable pub checked_ceil_div : ℕ → ℕ → Option (ℕ × ℕ)
  checked_ceil_div self rhs = do
    quotient ← uint.checked_div 128 self rhs
    let small = do
      twice ← uint.checked_mul 128 self 2
      some (if leb rhs twice then (1, 0) else (0, 0))
    let whole = do
      remainder ← uint.checked_rem 128 self rhs
      let inexact = do
        quotient' ← uint.checked_add 128 quotient 1
        rhs' ← uint.checked_div 128 self quotient'
        remainder' ← uint.checked_rem 128 self quotient'
        let bumped = do rhs'' ← uint.checked_add 128 rhs' 1; some (quotient', rhs'')
        if ltb 0 remainder' then bumped else some (quotient', rhs')
      if ltb 0 remainder then inexact else some (quotient, rhs)
    if quotient == 0 then small else whole
