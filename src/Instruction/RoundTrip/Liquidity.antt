-- ===== src/Instruction/RoundTrip/Liquidity.antt =====
-- `deposit` and `withdraw`, with their optional bounds, are read back.
use raydium_amm.Instruction.Canonical.{OptionFits, BothFit, RoundTrips}
use raydium_amm.Prelude.{ℕ, refl, Option, none, some, from-to_le_bytes, ◌>>=◌, ok}
use raydium_amm.Prelude.Word.{IsWord}
use raydium_amm.Instruction.Types.{AmmInstruction}
use raydium_amm.Instruction.Unpack.{unpack, unpack_u64, unpack_deposit, unpack_withdraw}
use raydium_amm.Instruction.Pack.{pack, pack_deposit, pack_withdraw}

pub deposit_trip :
    (a b c : ℕ) (o : Option ℕ)
    → IsWord 64 a
    → IsWord 64 b
    → IsWord 64 c
    → OptionFits o
    → RoundTrips (
        AmmInstruction.deposit
          (record { max_coin_amount = a; max_pc_amount = b; base_side = c; other_amount_min = o }))
unfolding pack unpack unpack_deposit pack_deposit unpack_u64 ◌>>=◌
deposit_trip a b c none ha hb hc ho = (
  _,
  refl,
  λ i. ok (
      AmmInstruction.deposit (record {
        max_coin_amount = from-to_le_bytes 8 a ha i;
        max_pc_amount = from-to_le_bytes 8 b hb i;
        base_side = from-to_le_bytes 8 c hc i;
        other_amount_min = none;
      })),
)
deposit_trip a b c (some v) ha hb hc ho = (
  _,
  refl,
  λ i. ok (
      AmmInstruction.deposit (record {
        max_coin_amount = from-to_le_bytes 8 a ha i;
        max_pc_amount = from-to_le_bytes 8 b hb i;
        base_side = from-to_le_bytes 8 c hc i;
        other_amount_min = some (from-to_le_bytes 8 v ho i);
      })),
)

pub withdraw_trip :
    (a : ℕ) (o p : Option ℕ)
    → IsWord 64 a
    → BothFit o p
    → RoundTrips
        (AmmInstruction.withdraw (record { amount = a; min_coin_amount = o; min_pc_amount = p }))
unfolding pack unpack unpack_withdraw pack_withdraw unpack_u64 ◌>>=◌
withdraw_trip a none none ha h = (
  _,
  refl,
  λ i. ok (
      AmmInstruction.withdraw (record {
        amount = from-to_le_bytes 8 a ha i;
        min_coin_amount = none;
        min_pc_amount = none;
      })),
)
withdraw_trip a (some v) (some w) ha h = (
  _,
  refl,
  λ i. ok (
      AmmInstruction.withdraw (record {
        amount = from-to_le_bytes 8 a ha i;
        min_coin_amount = some (from-to_le_bytes 8 v h.0 i);
        min_pc_amount = some (from-to_le_bytes 8 w h.1 i);
      })),
)
withdraw_trip a none (some w) ha h = absurd h
withdraw_trip a (some v) none ha h = absurd h
