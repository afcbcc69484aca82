-- ===== src/Math/Lots/Laws.antt =====
-- Rounding to lots.
use raydium_amm.Prelude.{ℕ, ◌+◌, ◌*◌, ◌/◌, ◌≤◌, ◌<◌, ◌≡◌, ap, ok, ◌>>=◌, unwrap, arith}
use raydium_amm.Prelude.Word
use raydium_amm.Prelude.Word.{IsWord}
use raydium_amm.Math.CeilDiv.Laws.{ceil_pair, u128-some, ceil_pair-IsCeilPair}
use raydium_amm.Math.Decimal.{to_u64, unwrap_u64}
use raydium_amm.Math.Lots.{floor_lot, ceil_lot}
use native.Mathlib.Nat.{div-add-mod', mod-lt}

-- Rounding down to a lot that is not empty never panics on a 64-bit value: the result is a whole
-- number of lots, at most the value, and less than one lot below it.
pub floor_lot_total :
    (val lot_size : ℕ)
    → IsWord 64 val
    → 0 < lot_size
    → (unit : ℕ) × (floor_lot val lot_size ≡ ok (unit * lot_size))
      × (unit * lot_size ≤ val)
      × (val < unit * lot_size + lot_size)
unfolding floor_lot ◌>>=◌
floor_lot_total val lot h p =
    let eq = div-add-mod' val lot in
    let lt = mod-lt val p in
    (
      val / lot,
      rw (Word.checked_div-some val lot p) (rw (Word.fit-some 64 (val / lot * lot) (omega arith))),
      omega arith,
      omega arith,
    )

scale_back :
    (q lot : ℕ) {ret : ℕ}
    → (unwrap_u64 q >>= λ unit. unwrap (Word.checked_mul 64 unit lot)) ≡ ok ret
    → ret ≡ q * lot
unfolding unwrap_u64 to_u64 ◌>>=◌
scale_back q lot h = ground arith

-- Rounding up, where it succeeds, gives a whole number of lots; for a value of at least one lot it is
-- at least the value, and less than one lot above it; a value below half a lot becomes 0.
ceil_lot_rounds :
    (val lot_size : ℕ) {ret : ℕ}
    → IsWord 64 val
    → IsWord 64 lot_size
    → 0 < lot_size
    → ceil_lot val lot_size ≡ ok ret
    → (unit : ℕ) × (ret ≡ unit * lot_size)
      × (lot_size ≤ val → (val ≤ ret) × (ret < val + lot_size))
      × (val * 2 < lot_size → ret ≡ 0)
unfolding ceil_lot unwrap_u64 to_u64 ◌>>=◌
ceil_lot_rounds val lot {ret} hv hl p h =
    let law = ceil_pair-IsCeilPair val lot p in
    let run = rw (u128-some val lot (omega arith) (omega arith) p) at h in
    let e : ret ≡ (ceil_pair val lot).0 * lot = scale_back _ lot run in
    (
      (ceil_pair val lot).0,
      e,
      λ k. rw e (law.1 k).0,
      λ k.
          let zero_units = (law.0 (omega arith)).2 k in
          omega (arith, e, ap (λ (t : ℕ). t * lot) zero_units),
    )
