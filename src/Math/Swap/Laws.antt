-- ===== src/Math/Swap/Laws.antt =====
-- The curve keeps the product of the reserves, to the last unit.
use raydium_amm.Prelude.{
  ok-injective, sym, leb, ◌≢◌, ℕ, zero, suc, ◌+◌, ◌-◌, ◌*◌, ◌/◌, ◌≤◌, ◌<◌, ◌≡◌, ◌↔◌, Outcome, ok,
  Bool-cases, inl, inr, ltb, ltb→lt, ◌>>=◌, unwrap, ◌∙◌, arith,
}
use raydium_amm.Prelude.Word
use raydium_amm.Prelude.Word.{IsWord}
use native.Mathlib.Nat.{le-div_iff_mul-le, div-le_of_le-mul, mul-le-mul_right}
use raydium_amm.Uint.{Uint}
use raydium_amm.Math.CeilDiv.{checked_ceil_div_u128}
use raydium_amm.Math.CeilDiv.Laws.{IsCeil, ceil_pair, u128-some, eq_u128, ceil_pair-IsCeilPair}
use raydium_amm.Math.Swap.{SwapDirection, swap_token_amount_base_in, swap_token_amount_base_out}

-- The reserve that a swap pays into, and the one that it pays out of.
abbrev pub reserve_in : ℕ → ℕ → SwapDirection → ℕ
reserve_in pc coin SwapDirection.coin_to_pc = coin
reserve_in pc coin SwapDirection.pc_to_coin = pc

abbrev pub reserve_out : ℕ → ℕ → SwapDirection → ℕ
reserve_out pc coin SwapDirection.coin_to_pc = pc
reserve_out pc coin SwapDirection.pc_to_coin = coin

-- After `i` is paid in and `o` is paid out, the product of the reserves is at least what it was.
abbrev pub KeepsProduct : ℕ → ℕ → ℕ → ℕ → Type 0
KeepsProduct r_in r_out i o = r_in * r_out ≤ (r_in + i) * (r_out - o)

-- Both directions are one formula, over the operations of a primitive type.
curve : ℕ → ℕ → ℕ → Outcome ℕ
curve i r_in r_out = do
  denominator ← unwrap (Word.checked_add 128 r_in i)
  product ← unwrap (Word.checked_mul 128 r_out i)
  unwrap (Word.checked_div product denominator)

curve-eq-ok :
    (i r_in r_out : ℕ) {out : ℕ}
    → curve i r_in r_out ≡ ok out
    → (0 < r_in + i) × (out ≡ r_out * i / (r_in + i))
unfolding curve ◌>>=◌
curve-eq-ok i r_in r_out h = ground arith

curve_total :
    (i r_in r_out : ℕ)
    → IsWord 64 i
    → IsWord 64 r_in
    → IsWord 64 r_out
    → 0 < r_in + i
    → curve i r_in r_out ≡ ok (r_out * i / (r_in + i))
unfolding curve ◌>>=◌
curve_total i r_in r_out hi hr ho h = ground (arith, Word.mul-lt r_out i ho hi)

-- Paying `o` keeps the product exactly when `o` is at most the quotient.
quotient_greatest :
    (i r_in r_out o : ℕ)
    → 0 < r_in + i
    → o ≤ r_out
    → KeepsProduct r_in r_out i o ↔ (o ≤ r_out * i / (r_in + i))
quotient_greatest i r_in r_out o h ho =
    let (down, up) = le-div_iff_mul-le {x = o} {y = r_out * i} h in
    let in_split = Word.mul_split r_in r_out o ho in
    let i_split = Word.mul_split i r_out o ho in
    (λ k. up (omega arith), λ k. let le = down k in omega arith)

quotient-le : (i r_in r_out : ℕ) → 0 < r_in + i → r_out * i / (r_in + i) ≤ r_out
quotient-le i r_in r_out h = div-le_of_le-mul (r_in + i) (omega arith)

reserve_in-IsWord :
    (pc coin : ℕ) (d : SwapDirection)
    → IsWord 64 pc
    → IsWord 64 coin
    → IsWord 64 (reserve_in pc coin d)
reserve_in-IsWord pc coin SwapDirection.coin_to_pc hp hc = hc
reserve_in-IsWord pc coin SwapDirection.pc_to_coin hp hc = hp

reserve_out-IsWord :
    (pc coin : ℕ) (d : SwapDirection)
    → IsWord 64 pc
    → IsWord 64 coin
    → IsWord 64 (reserve_out pc coin d)
reserve_out-IsWord pc coin SwapDirection.coin_to_pc hp hc = hp
reserve_out-IsWord pc coin SwapDirection.pc_to_coin hp hc = hc

-- The inverse formula: what has to be paid in for `o`.
inverse_curve : ℕ → ℕ → ℕ → Outcome ℕ
inverse_curve o r_in r_out = do
  denominator ← unwrap (Word.checked_sub r_out o)
  product ← unwrap (Word.checked_mul 128 r_in o)
  pair ← unwrap (checked_ceil_div_u128 product denominator)
  ok (pair.0)

inverse_curve_total :
    (o r_in r_out : ℕ)
    → IsWord 64 r_in
    → IsWord 64 r_out
    → o < r_out
    → inverse_curve o r_in r_out ≡ ok ((ceil_pair (r_in * o) (r_out - o)).0)
unfolding inverse_curve ◌>>=◌
inverse_curve_total o r_in r_out hi ho h =
    let room = Word.mul-lt r_in o hi (omega arith) in
    simp (
      Word.checked_sub-some r_out o (omega arith),
      Word.fit-some 128 (r_in * o) (omega arith),
      u128-some (r_in * o) (r_out - o) room (omega arith) (omega arith),
    )

-- A payment `i` keeps the product exactly when it covers `r_in * o / (r_out - o)`.
covers :
    (i o r_in r_out : ℕ) → o ≤ r_out → KeepsProduct r_in r_out i o ↔ (r_in * o ≤ i * (r_out - o))
covers i o r_in r_out h =
    let in_split = Word.mul_split r_in r_out o h in (λ k. omega arith, λ k. omega arith)

le_of_product : (q i n d : ℕ) → q * d < n + d → n ≤ i * d → q ≤ i
le_of_product q i n d h k = elim (Bool-cases (ltb i q)) [
  | inl below ↦
      let lt = ltb→lt i q below in
      let le : (i + 1) * d ≤ q * d = mul-le-mul_right d (omega arith) in absurd (omega arith)
  | inr above ↦ ground arith
]

ceil_least : (n d q i : ℕ) → IsCeil n d q → (n ≤ i * d) ↔ (q ≤ i)
ceil_least n d q i h = (λ k. le_of_product q i n d h.1 k, λ k. grind arith)

one_covers : (n d i : ℕ) → 0 < n → n < d → (n ≤ i * d) ↔ (1 ≤ i)
one_covers n d zero p h = (λ k. absurd (omega arith), λ k. absurd (omega arith))
one_covers n d (suc i) p h = (λ k. omega arith, λ k. grind arith)

pair_least : (n d i : ℕ) → 0 < d → d ≤ n * 2 → (n ≤ i * d) ↔ ((ceil_pair n d).0 ≤ i)
pair_least n d i p half =
    let law = ceil_pair-IsCeilPair n d p in
    elim (Bool-cases (ltb n d)) [
      | inl small ↦
          let lt = ltb→lt n d small in
          let e : (ceil_pair n d).0 ≡ 1 = (law.0 lt).1 half in
          rw e (one_covers n d i (omega arith) lt)
      | inr large ↦ ceil_least n d (ceil_pair n d).0 i ((law.1 (ground arith)).0)
    ]

positive-not_zero : (a b : ℕ) → a ≡ b → 0 < b → a ≢ 0
positive-not_zero a b e h z = omega arith

module _ ⦃uint : Uint⦄ where
  base_in-curve :
      (amount_in pc coin : ℕ) (d : SwapDirection)
      → swap_token_amount_base_in amount_in pc coin d
        ≡ curve amount_in (reserve_in pc coin d) (reserve_out pc coin d)
  unfolding swap_token_amount_base_in curve ◌>>=◌
  base_in-curve i pc coin SwapDirection.coin_to_pc = simp (uint.add_law, uint.mul_law, uint.div_law)
  base_in-curve i pc coin SwapDirection.pc_to_coin = simp (uint.add_law, uint.mul_law, uint.div_law)

  base_out-inverse :
      (amount_out pc coin : ℕ) (d : SwapDirection)
      → swap_token_amount_base_out amount_out pc coin d
        ≡ inverse_curve amount_out (reserve_in pc coin d) (reserve_out pc coin d)
  unfolding swap_token_amount_base_out inverse_curve ◌>>=◌
  base_out-inverse o pc coin SwapDirection.coin_to_pc = simp (uint.sub_law, uint.mul_law, eq_u128)
  base_out-inverse o pc coin SwapDirection.pc_to_coin = simp (uint.sub_law, uint.mul_law, eq_u128)

  -- With reserves of 64 bits and less taken out than the reserve, the inverse formula never panics.
  -- If the exact price, `r_in * o / (r_out - o)`, is at least one half, the result is the least
  -- payment that keeps the product of the reserves; below one half the result is 0.
  pub base_out_least :
      (o pc coin : ℕ) (d : SwapDirection)
      → IsWord 64 pc
      → IsWord 64 coin
      → o < reserve_out pc coin d
      → (paid : ℕ) × (swap_token_amount_base_out o pc coin d ≡ ok paid)
        × (reserve_out pc coin d - o ≤ reserve_in pc coin d * o * 2
            → (i : ℕ)
            → KeepsProduct (reserve_in pc coin d) (reserve_out pc coin d) i o ↔ (paid ≤ i))
        × (reserve_in pc coin d * o * 2 < reserve_out pc coin d - o → paid ≡ 0)
  base_out_least o pc coin d hp hc h =
      let r_in = reserve_in pc coin d in
      let r_out = reserve_out pc coin d in
      let law = ceil_pair-IsCeilPair (r_in * o) (r_out - o) (omega arith) in
      (
        (ceil_pair (r_in * o) (r_out - o)).0,
        base_out-inverse o pc coin d
            ∙ inverse_curve_total o r_in r_out (reserve_in-IsWord pc coin d hp hc)
                (reserve_out-IsWord pc coin d hp hc) h,
        λ half i.
            let (to, from) = covers i o r_in r_out (omega arith) in
            let (to', from') = pair_least (r_in * o) (r_out - o) i (omega arith) half in
            (λ k. to' (to k), λ k. from (from' k)),
        λ low. (law.0 (omega arith)).2 low,
      )

  -- With reserves and an amount of 64 bits, and a side paid into that does not stay empty, the
  -- curve never panics; what it pays out, no more than the reserve, is the largest amount that
  -- keeps the product of the reserves.
  pub base_in_greatest :
      (amount_in pc coin : ℕ) (d : SwapDirection)
      → IsWord 64 amount_in
      → IsWord 64 pc
      → IsWord 64 coin
      → 0 < reserve_in pc coin d + amount_in
      → (out : ℕ) × (swap_token_amount_base_in amount_in pc coin d ≡ ok out)
        × ((o : ℕ)
            → o ≤ reserve_out pc coin d
            → KeepsProduct (reserve_in pc coin d) (reserve_out pc coin d) amount_in o ↔ (o ≤ out))
        × (out ≤ reserve_out pc coin d)
  base_in_greatest i pc coin d hi hp hc h =
      let r_in = reserve_in pc coin d in
      let r_out = reserve_out pc coin d in
      (
        r_out * i / (r_in + i),
        base_in-curve i pc coin d
            ∙ curve_total i r_in r_out hi (reserve_in-IsWord pc coin d hp hc)
                (reserve_out-IsWord pc coin d hp hc) h,
        λ o ho. quotient_greatest i r_in r_out o h ho,
        quotient-le i r_in r_out h,
      )

  pub base_in_keeps :
      (amount_in pc coin : ℕ) (d : SwapDirection) {out : ℕ}
      → swap_token_amount_base_in amount_in pc coin d ≡ ok out
      → KeepsProduct (reserve_in pc coin d) (reserve_out pc coin d) amount_in out
  base_in_keeps i pc coin d {out} h =
      let r_in = reserve_in pc coin d in
      let r_out = reserve_out pc coin d in
      let (pos, e) = curve-eq-ok i r_in r_out (sym (base_in-curve i pc coin d) ∙ h) in
      let le = quotient-le i r_in r_out pos in
      (quotient_greatest i r_in r_out out pos (omega arith)).1 (omega arith)

  pub base_out_keeps :
      (o pc coin : ℕ) (d : SwapDirection) {paid : ℕ}
      → IsWord 64 pc
      → IsWord 64 coin
      → o < reserve_out pc coin d
      → 0 < paid
      → swap_token_amount_base_out o pc coin d ≡ ok paid
      → KeepsProduct (reserve_in pc coin d) (reserve_out pc coin d) paid o
  base_out_keeps o pc coin d {paid} hp hc lt pos h =
      let r_in = reserve_in pc coin d in
      let r_out = reserve_out pc coin d in
      let (paid', e, least, none_paid) = base_out_least o pc coin d hp hc lt in
      let same : paid' ≡ paid = ok-injective paid' paid (sym e ∙ h) in
      elim (Bool-cases (leb (r_out - o) (r_in * o * 2))) [
        | inl half ↦ (least (ground arith) paid).1 (omega arith)
        | inr low ↦ absurd (positive-not_zero paid' paid same pos (none_paid (ground arith)))
      ]
