-- ===== src/State/Fees/Laws.antt =====
-- Validation of fees, and their byte format.
use raydium_amm.Prelude.{
  length, [], ◌>>=◌, ℕ, ◌++◌, List, ◌<◌, ◌≡◌, ◌↔◌, refl, >>=-eq-ok, ok, from-to_le_bytes, arith,
}
use raydium_amm.Prelude.Word.{IsWord}
use mathlib.Core.List.{append-nil}
use raydium_amm.State.Fees.{
  Fees, validate_fraction, validate, initialize, pack_into_slice, unpack_from_slice,
}

-- Each fee is a fraction below one, with a denominator that is not zero.
pub record IsValid (f : Fees) : Type 0 where
  pub min_separate_lt : f.min_separate_numerator < f.min_separate_denominator
  pub trade_fee_lt : f.trade_fee_numerator < f.trade_fee_denominator
  pub pnl_lt : f.pnl_numerator < f.pnl_denominator
  pub swap_fee_lt : f.swap_fee_numerator < f.swap_fee_denominator

-- The fields are 64-bit numbers, as in Rust.
pub record IsTyped (f : Fees) : Type 0 where
  pub min_separate_numerator_fits : IsWord 64 f.min_separate_numerator
  pub min_separate_denominator_fits : IsWord 64 f.min_separate_denominator
  pub trade_fee_numerator_fits : IsWord 64 f.trade_fee_numerator
  pub trade_fee_denominator_fits : IsWord 64 f.trade_fee_denominator
  pub pnl_numerator_fits : IsWord 64 f.pnl_numerator
  pub pnl_denominator_fits : IsWord 64 f.pnl_denominator
  pub swap_fee_numerator_fits : IsWord 64 f.swap_fee_numerator
  pub swap_fee_denominator_fits : IsWord 64 f.swap_fee_denominator

fraction_iff : (n d : ℕ) → (validate_fraction n d ≡ ok tt) ↔ (n < d)
unfolding validate_fraction ◌>>=◌
fraction_iff n d = ground arith

-- `validate` accepts exactly the fees of which each is a fraction below one, whether or not the denominators
-- of the trade fee and of the minimal separation are the same; the fees of a new pool are accepted.
pub fees_validate_iff :
    (f : Fees) → ((validate f ≡ ok tt) ↔ IsValid f) × (validate (initialize f) ≡ ok tt)
unfolding validate initialize ◌>>=◌
fees_validate_iff f = (
  (
    λ h.
        let (u, a, h') =
          >>=-eq-ok (validate_fraction f.min_separate_numerator f.min_separate_denominator) _ h in
        let (v, b, h'') =
          >>=-eq-ok (validate_fraction f.trade_fee_numerator f.trade_fee_denominator) _ h' in
        let (w, c, d) = >>=-eq-ok (validate_fraction f.pnl_numerator f.pnl_denominator) _ h'' in
        record {
          min_separate_lt = (fraction_iff _ _).0 a;
          trade_fee_lt = (fraction_iff _ _).0 b;
          pnl_lt = (fraction_iff _ _).0 c;
          swap_fee_lt = (fraction_iff _ _).0 d;
        },
    λ v. simp (
      (fraction_iff _ _).1 v.min_separate_lt,
      (fraction_iff _ _).1 v.trade_fee_lt,
      (fraction_iff _ _).1 v.pnl_lt,
      (fraction_iff _ _).1 v.swap_fee_lt,
    ),
  ),
  refl,
)

-- Fees of 64-bit numbers are read back from their 64 bytes, whatever follows.
pub fees_unpack-pack :
    (f : Fees) (rest : List ℕ) → IsTyped f → unpack_from_slice (pack_into_slice f ++ rest) ≡ ok f
unfolding unpack_from_slice pack_into_slice ◌>>=◌
fees_unpack-pack f rest t = λ i. ok (record {
  min_separate_numerator =
      from-to_le_bytes 8 f.min_separate_numerator t.min_separate_numerator_fits i;
  min_separate_denominator =
      from-to_le_bytes 8 f.min_separate_denominator t.min_separate_denominator_fits i;
  trade_fee_numerator = from-to_le_bytes 8 f.trade_fee_numerator t.trade_fee_numerator_fits i;
  trade_fee_denominator = from-to_le_bytes 8 f.trade_fee_denominator t.trade_fee_denominator_fits i;
  pnl_numerator = from-to_le_bytes 8 f.pnl_numerator t.pnl_numerator_fits i;
  pnl_denominator = from-to_le_bytes 8 f.pnl_denominator t.pnl_denominator_fits i;
  swap_fee_numerator = from-to_le_bytes 8 f.swap_fee_numerator t.swap_fee_numerator_fits i;
  swap_fee_denominator = from-to_le_bytes 8 f.swap_fee_denominator t.swap_fee_denominator_fits i;
})

pub length-pack : (f : Fees) → length (pack_into_slice f) ≡ 64
unfolding pack_into_slice
length-pack f = refl

pub fees_unpack-pack_all : (f : Fees) → IsTyped f → unpack_from_slice (pack_into_slice f) ≡ ok f
fees_unpack-pack_all f t = rw append-nil at (fees_unpack-pack f [] t)
