-- ===== src/State/ResetFlag/Laws.antt =====
-- The numbers and the variants of `AmmResetFlag` correspond.
use raydium_amm.Prelude.{ℕ, ◌≡◌, refl, ok, arith}
use raydium_amm.State.ResetFlag.{AmmResetFlag, from_u64, into_u64}

pub reset_flag_from-into : (s : AmmResetFlag) → from_u64 (into_u64 s) ≡ ok s
unfolding from_u64 into_u64
reset_flag_from-into AmmResetFlag.reset_yes = refl
reset_flag_from-into AmmResetFlag.reset_no = refl

pub reset_flag_into-from : (n : ℕ) {s : AmmResetFlag} → from_u64 n ≡ ok s → into_u64 s ≡ n
unfolding from_u64 into_u64
reset_flag_into-from n h = ground arith
