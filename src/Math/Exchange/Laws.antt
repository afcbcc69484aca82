-- ===== src/Math/Exchange/Laws.antt =====
-- The exchanges lose at most one unit, and lose it on the side that asks.
use raydium_amm.Prelude.{
  ℕ, ◌+◌, ◌-◌, ◌*◌, ◌/◌, ◌≤◌, ◌<◌, ◌≡◌, ◌↔◌, ◌∙◌, Outcome, ok, ◌>>=◌, unwrap, unwrap-eq-ok, arith,
  suc, Bool-cases, leb, inl, inr, zero,
}
use raydium_amm.Prelude.Word
use raydium_amm.Prelude.Word.{IsWord}
use raydium_amm.Uint.{Uint}
use raydium_amm.Math.CeilDiv.{checked_ceil_div_u128}
use raydium_amm.Math.CeilDiv.Laws.{IsCeil, ceil_pair, eq_u128, u128-some, ceil_pair-IsCeilPair}
use raydium_amm.Math.Exchange.{
  RoundDirection, InvariantToken, InvariantPool, exchange_coin_to_pc, exchange_pc_to_coin,
  exchange_pool_to_token, exchange_token_to_pool,
}
use native.Mathlib.Nat.{div-add-mod', mod-lt, le-div_iff_mul-le, div-le_of_le-mul}

-- `a * b / c`, rounded down or up, over the operations of a primitive type.
share : RoundDirection → ℕ → ℕ → ℕ → Outcome ℕ
share RoundDirection.floor a b c = do
  product ← unwrap (Word.checked_mul 128 a b)
  quotient ← unwrap (Word.checked_div product c)
  unwrap (Word.fit 64 quotient)
share RoundDirection.ceiling a b c = do
  product ← unwrap (Word.checked_mul 128 a b)
  pair ← unwrap (checked_ceil_div_u128 product c)
  unwrap (Word.fit 64 (pair.0))

share_floor :
    (a b c : ℕ) {out : ℕ}
    → share RoundDirection.floor a b c ≡ ok out
    → (0 < c) × (out ≡ a * b / c) × IsWord 64 out
unfolding share ◌>>=◌
share_floor a b c h = ground arith

share_floor_total :
    (a b c : ℕ)
    → IsWord 64 a
    → IsWord 64 b
    → 0 < c
    → b ≤ c
    → (share RoundDirection.floor a b c ≡ ok (a * b / c)) × (a * b / c ≤ a)
unfolding share ◌>>=◌
share_floor_total a b c ha hb hc h =
    let room = Word.mul-lt a b ha hb in
    let le : a * b / c ≤ a = div-le_of_le-mul c (grind arith) in (ground arith, le)

-- The largest `o` for which the remainder, shared by `c - b`, is no worse than before.
share_greatest :
    (a b c o : ℕ) → 0 < c → b ≤ c → o ≤ a → (a * (c - b) ≤ (a - o) * c) ↔ (o ≤ a * b / c)
share_greatest a b c o p h ho =
    let (down, up) = le-div_iff_mul-le {x = o} {y = a * b} p in
    let left = Word.mul_split a c b h in
    let right = Word.mul_split c a o ho in
    (λ k. up (omega arith), λ k. let le = down k in omega arith)

share_ceiling :
    (a b c : ℕ) {out : ℕ}
    → IsWord 64 a
    → IsWord 64 b
    → IsWord 64 c
    → 0 < c
    → share RoundDirection.ceiling a b c ≡ ok out
    → out ≡ (ceil_pair (a * b) c).0
unfolding share ◌>>=◌
share_ceiling a b c ha hb hc p h =
    let room = Word.mul-lt a b ha hb in
    let run =
      simp (Word.fit-some 128 (a * b) (omega arith), u128-some (a * b) c room (omega arith) p) at
        h in
    (Word.fit-eq-some 64 ((ceil_pair (a * b) c).0) _ (unwrap-eq-ok _ run)).1

-- What `out` is for a rounding up of `a * b / c`: exact from 1 on, the nearest of 0 and 1 below.
abbrev pub IsCharge : ℕ → ℕ → ℕ → Type 0
IsCharge n c out =
    (c ≤ n → IsCeil n c out) × (n < c → (c ≤ n * 2 → out ≡ 1) × (n * 2 < c → out ≡ 0))

ceil_pair-IsCharge : (n c : ℕ) → 0 < c → IsCharge n c ((ceil_pair n c).0)
ceil_pair-IsCharge n c p =
    let law = ceil_pair-IsCeilPair n c p in (λ h. (law.1 h).0, λ h. ((law.0 h).1, (law.0 h).2))

-- A charge that is not 0 is at least the exact amount.
pub charge_covers : (n c out : ℕ) → 0 < out → IsCharge n c out → n ≤ out * c
charge_covers n c zero p h = let none_left : ⊥ = omega arith in absurd none_left
charge_covers n c (suc out) p (whole, small) = elim (Bool-cases (leb c n)) [
  | inl le ↦ (whole (ground arith)).0
  | inr lt ↦ let e = Word.mul_split c (suc out) 1 (omega arith) in ground arith
]

module _ ⦃uint : Uint⦄ where
  pool_to_token-share :
      (p : InvariantPool) (amount : ℕ) (r : RoundDirection)
      → exchange_pool_to_token p amount r ≡ share r amount p.token_input p.token_total
  unfolding exchange_pool_to_token share ◌>>=◌
  pool_to_token-share p amount RoundDirection.floor =
      simp (uint.mul_law, uint.div_law, uint.narrow_law)
  pool_to_token-share p amount RoundDirection.ceiling =
      simp (uint.mul_law, eq_u128, uint.narrow_law)

  token_to_pool-share :
      (p : InvariantPool) (amount : ℕ) (r : RoundDirection)
      → exchange_token_to_pool p amount r ≡ share r amount p.token_input p.token_total
  unfolding exchange_token_to_pool share ◌>>=◌
  token_to_pool-share p amount RoundDirection.floor =
      simp (uint.mul_law, uint.div_law, uint.narrow_law)
  token_to_pool-share p amount RoundDirection.ceiling =
      simp (uint.mul_law, eq_u128, uint.narrow_law)

  coin_to_pc-share :
      (t : InvariantToken) (amount : ℕ) (r : RoundDirection)
      → exchange_coin_to_pc t amount r ≡ share r amount t.token_pc t.token_coin
  unfolding exchange_coin_to_pc share ◌>>=◌
  coin_to_pc-share t amount RoundDirection.floor =
      simp (uint.mul_law, uint.div_law, uint.narrow_law)
  coin_to_pc-share t amount RoundDirection.ceiling = simp (uint.mul_law, eq_u128, uint.narrow_law)

  pc_to_coin-share :
      (t : InvariantToken) (amount : ℕ) (r : RoundDirection)
      → exchange_pc_to_coin t amount r ≡ share r amount t.token_coin t.token_pc
  unfolding exchange_pc_to_coin share ◌>>=◌
  pc_to_coin-share t amount RoundDirection.floor =
      simp (uint.mul_law, uint.div_law, uint.narrow_law)
  pc_to_coin-share t amount RoundDirection.ceiling = simp (uint.mul_law, eq_u128, uint.narrow_law)

  -- Burning `amount` of `lp` pool tokens never panics on 64-bit numbers; it pays, out of a vault that
  -- holds `total`, no more than `total`, and the largest sum that leaves the remaining pool tokens at
  -- least their part of the vault: `total / lp ≤ (total - out) / (lp - amount)`, multiplied out.
  pub pool_to_token_greatest :
      (amount lp total : ℕ)
      → IsWord 64 amount
      → IsWord 64 total
      → 0 < lp
      → amount ≤ lp
      → (out : ℕ) × (exchange_pool_to_token
            (record { token_input = amount; token_total = lp })
            total
            RoundDirection.floor
          ≡ ok out)
        × (out ≤ total)
        × ((o : ℕ) → o ≤ total → (total * (lp - amount) ≤ (total - o) * lp) ↔ (o ≤ out))
  pool_to_token_greatest amount lp total ha ht p h =
      let (runs, le) = share_floor_total total amount lp ht ha p h in
      (
        total * amount / lp,
        pool_to_token-share (record { token_input = amount; token_total = lp }) total
              RoundDirection.floor
            ∙ runs,
        le,
        λ o. share_greatest total amount lp o p h,
      )

  -- Pool tokens minted for a deposit of `input` into a vault that holds `total` do not dilute the
  -- others: `(lp + out) / (total + input) ≤ lp / total`, multiplied out, and one more token would.
  pub token_to_pool_fair :
      (input total lp : ℕ) {out : ℕ}
      → exchange_token_to_pool
          (record { token_input = input; token_total = total })
          lp
          RoundDirection.floor
        ≡ ok out
      → ((lp + out) * total ≤ lp * (total + input))
        × (lp * (total + input) < (lp + out + 1) * total)
  token_to_pool_fair input total lp {out} h =
      let (p, e, fits) = share_floor lp input total (
        rw
          (token_to_pool-share (record { token_input = input; token_total = total }) lp
            RoundDirection.floor)
          at h) in
      let eq = div-add-mod' (lp * input) total in
      let lt = mod-lt (lp * input) p in rw e (omega arith)

  pub coin_to_pc-IsCharge :
      (t : InvariantToken) (amount : ℕ) {out : ℕ}
      → IsWord 64 amount
      → IsWord 64 t.token_coin
      → IsWord 64 t.token_pc
      → 0 < t.token_coin
      → exchange_coin_to_pc t amount RoundDirection.ceiling ≡ ok out
      → IsCharge (amount * t.token_pc) t.token_coin out
  coin_to_pc-IsCharge t amount ha hc hp pc h =
      rw
        (share_ceiling amount t.token_pc t.token_coin ha hp hc pc
          (rw (coin_to_pc-share t amount RoundDirection.ceiling) at h))
        (ceil_pair-IsCharge (amount * t.token_pc) t.token_coin pc)

  pub pc_to_coin-IsCharge :
      (t : InvariantToken) (amount : ℕ) {out : ℕ}
      → IsWord 64 amount
      → IsWord 64 t.token_coin
      → IsWord 64 t.token_pc
      → 0 < t.token_pc
      → exchange_pc_to_coin t amount RoundDirection.ceiling ≡ ok out
      → IsCharge (amount * t.token_coin) t.token_pc out
  pc_to_coin-IsCharge t amount ha hc hp pp h =
      rw
        (share_ceiling amount t.token_coin t.token_pc ha hc hp pp
          (rw (pc_to_coin-share t amount RoundDirection.ceiling) at h))
        (ceil_pair-IsCharge (amount * t.token_coin) t.token_pc pp)

  -- On 64-bit amounts and reserves that are not empty, the counterpart that a deposit charges for
  -- `amount`, where the exchange succeeds, is the proportional amount rounded up, in both
  -- directions; only where that is below 1 is it rounded to the nearest of 0 and 1.
  pub deposit-IsCharge :
      (t : InvariantToken) (amount : ℕ) {out : ℕ}
      → IsWord 64 amount
      → IsWord 64 t.token_coin
      → IsWord 64 t.token_pc
      → 0 < t.token_coin
      → 0 < t.token_pc
      → (exchange_coin_to_pc t amount RoundDirection.ceiling ≡ ok out
          → IsCharge (amount * t.token_pc) t.token_coin out)
        × (exchange_pc_to_coin t amount RoundDirection.ceiling ≡ ok out
            → IsCharge (amount * t.token_coin) t.token_pc out)
  deposit-IsCharge t amount ha hc hp pc pp =
      (coin_to_pc-IsCharge t amount ha hc hp pc, pc_to_coin-IsCharge t amount ha hc hp pp)
