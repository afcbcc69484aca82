-- ===== src/State/ResetFlag.antt =====
-- `AmmResetFlag`.
pub mod Laws
use raydium_amm.Prelude.{ℕ, Bool, true, false, ◌==◌, ◌||◌, if◌then◌else◌, Outcome, ok, panic}

-- `enum AmmResetFlag`
pub data AmmResetFlag : Type 0 where
  reset_yes reset_no : AmmResetFlag

-- `AmmResetFlag::from_u64`; any other number is `unreachable!()`.
unfoldable pub from_u64 : ℕ → Outcome AmmResetFlag
from_u64 n =
    if n == 0 then ok AmmResetFlag.reset_yes else if n == 1 then ok AmmResetFlag.reset_no else panic

-- `AmmResetFlag::into_u64`
unfoldable pub into_u64 : AmmResetFlag → ℕ
into_u64 AmmResetFlag.reset_yes = 0
into_u64 AmmResetFlag.reset_no = 1
