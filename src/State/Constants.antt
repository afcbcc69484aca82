-- ===== src/State/Constants.antt =====
-- The constants of program/src/state.rs.
use raydium_amm.Prelude.{ℕ}

-- `TEN_THOUSAND`
abbrev pub ten_thousand : ℕ
ten_thousand = 10000

-- `MAX_ORDER_LIMIT`
abbrev pub max_order_limit : ℕ
max_order_limit = 10
