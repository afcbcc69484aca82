-- ===== src/State/Fees.antt =====
-- `struct Fees`: the fee fractions of a pool, their validation and their byte format.
pub mod Laws
use raydium_amm.Prelude.{
  ℕ, ◌++◌, List, leb, ◌==◌, ◌||◌, if◌then◌else◌, Outcome, ◌>>=◌, ◌>>◌, ok, fail, unwrap,
  to_le_bytes, from_le_bytes, split_at,
}
use raydium_amm.Errors.{AmmError}
use raydium_amm.State.Constants.{ten_thousand}

pub record Fees : Type 0 where
  pub min_separate_numerator : ℕ
  pub min_separate_denominator : ℕ
  pub trade_fee_numerator : ℕ
  pub trade_fee_denominator : ℕ
  pub pnl_numerator : ℕ
  pub pnl_denominator : ℕ
  pub swap_fee_numerator : ℕ
  pub swap_fee_denominator : ℕ

unfoldable pub validate_fraction : ℕ → ℕ → Outcome (Unit {0})
validate_fraction numerator denominator =
    if leb denominator numerator || denominator == 0 then fail AmmError.invalid_fee else ok tt

-- `Fees::validate`
unfoldable pub validate : Fees → Outcome (Unit {0})
unfolding validate_fraction
validate self = do
  validate_fraction self.min_separate_numerator self.min_separate_denominator
  validate_fraction self.trade_fee_numerator self.trade_fee_denominator
  validate_fraction self.pnl_numerator self.pnl_denominator
  validate_fraction self.swap_fee_numerator self.swap_fee_denominator

-- `Fees::initialize`
unfoldable pub initialize : Fees → Fees
initialize self = record self {
  min_separate_numerator = 5;
  min_separate_denominator = ten_thousand;
  trade_fee_numerator = 25;
  trade_fee_denominator = ten_thousand;
  pnl_numerator = 12;
  pnl_denominator = 100;
  swap_fee_numerator = 25;
  swap_fee_denominator = ten_thousand;
}

-- `Pack::pack_into_slice`, on the 64 bytes of `Fees::LEN`.
unfoldable pub pack_into_slice : Fees → List ℕ
pack_into_slice self =
    to_le_bytes 8 self.min_separate_numerator
    ++ (to_le_bytes 8 self.min_separate_denominator
        ++ (to_le_bytes 8 self.trade_fee_numerator
            ++ (to_le_bytes 8 self.trade_fee_denominator
                ++ (to_le_bytes 8 self.pnl_numerator
                    ++ (to_le_bytes 8 self.pnl_denominator
                        ++ (to_le_bytes 8 self.swap_fee_numerator
                            ++ to_le_bytes 8 self.swap_fee_denominator))))))

-- `Pack::unpack_from_slice`; `array_ref!` panics on fewer than 64 bytes, and what follows is ignored.
unfoldable pub unpack_from_slice : List ℕ → Outcome Fees
unpack_from_slice input = do
  (a, input) ← unwrap (split_at 8 input)
  (b, input) ← unwrap (split_at 8 input)
  (c, input) ← unwrap (split_at 8 input)
  (d, input) ← unwrap (split_at 8 input)
  (e, input) ← unwrap (split_at 8 input)
  (f, input) ← unwrap (split_at 8 input)
  (g, input) ← unwrap (split_at 8 input)
  (h, input) ← unwrap (split_at 8 input)
  ok (record {
    min_separate_numerator = from_le_bytes a;
    min_separate_denominator = from_le_bytes b;
    trade_fee_numerator = from_le_bytes c;
    trade_fee_denominator = from_le_bytes d;
    pnl_numerator = from_le_bytes e;
    pnl_denominator = from_le_bytes f;
    swap_fee_numerator = from_le_bytes g;
    swap_fee_denominator = from_le_bytes h;
  })
