-- ===== src/Instruction/Canonical.antt =====
-- The instructions that stand for their bytes, and what it means that one is read back.
use raydium_amm.Prelude.{ℕ, ◌<◌, ◌≡◌, List, Option, none, some, ok, ◌⊎◌}
use raydium_amm.Prelude.Word.{IsWord}
use raydium_amm.State.Fees.{Fees}
use raydium_amm.State.Fees.Laws.{IsTyped}
use raydium_amm.State.Orders.{LastOrderDistance}
use raydium_amm.State.Params
use raydium_amm.State.Params.{AmmParams}
use raydium_amm.State.Simulate
use raydium_amm.State.Simulate.{SimulateParams}
use raydium_amm.Instruction.Types.{
  AmmInstruction, SetParamsInstruction, SimulateInstruction, SwapInstructionBaseIn,
  SwapInstructionBaseOut,
}
use raydium_amm.Instruction.Unpack.{no_params, unpack}
use raydium_amm.Instruction.Pack.{pack}

-- An optional bound is a 64-bit number, and two of them are given together or not at all.
abbrev pub OptionFits : Option ℕ → Type 0
OptionFits none = Unit
OptionFits (some v) = IsWord 64 v

abbrev pub BothFit : Option ℕ → Option ℕ → Type 0
BothFit none none = Unit
BothFit (some v) (some w) = IsWord 64 v × IsWord 64 w
BothFit _ _ = ⊥

-- The one argument that a parameter takes is given, and no other.
abbrev pub ParamsForm : AmmParams → SetParamsInstruction → Type 0
ParamsForm AmmParams.amm_owner p =
    (key : ℕ) × IsWord 256 key × (p ≡ record (no_params p.param) { new_pubkey = some key })
ParamsForm AmmParams.fees p =
    (f : Fees) × IsTyped f × (p ≡ record (no_params p.param) { fees = some f })
ParamsForm AmmParams.last_order_distance p =
    (d : LastOrderDistance) × IsWord 64 d.last_order_numerator
    × IsWord 64 d.last_order_denominator
    × (p ≡ record (no_params p.param) { last_order_distance = some d })
ParamsForm _ p = (v : ℕ) × IsWord 64 v × (p ≡ record (no_params p.param) { value = some v })

abbrev pub BaseInFits : SwapInstructionBaseIn → Type 0
BaseInFits s = IsWord 64 s.amount_in × IsWord 64 s.minimum_amount_out

abbrev pub BaseOutFits : SwapInstructionBaseOut → Type 0
BaseOutFits s = IsWord 64 s.max_amount_in × IsWord 64 s.amount_out

abbrev pub SimulateForm : SimulateParams → SimulateInstruction → Type 0
SimulateForm SimulateParams.swap_base_in_info s =
    (v : SwapInstructionBaseIn) × BaseInFits v
    × (s.swap_base_in_value ≡ some v)
    × (s.swap_base_out_value ≡ none)
SimulateForm SimulateParams.swap_base_out_info s =
    (v : SwapInstructionBaseOut) × BaseOutFits v
    × (s.swap_base_in_value ≡ none)
    × (s.swap_base_out_value ≡ some v)
SimulateForm _ s = (s.swap_base_in_value ≡ none) × (s.swap_base_out_value ≡ none)

-- An instruction that stands for its bytes: its numbers fit their types, and its optional arguments
-- are those that its parameter asks for.
abbrev pub IsCanonical : AmmInstruction → Type 0
IsCanonical (AmmInstruction.initialize i) = IsWord 64 i.open_time
IsCanonical (AmmInstruction.initialize2 i) =
    IsWord 64 i.open_time × IsWord 64 i.init_pc_amount × IsWord 64 i.init_coin_amount
IsCanonical (AmmInstruction.monitor_step m) =
    IsWord 16 m.plan_order_limit × IsWord 16 m.place_order_limit × IsWord 16 m.cancel_order_limit
IsCanonical (AmmInstruction.deposit d) =
    IsWord 64 d.max_coin_amount
    × IsWord 64 d.max_pc_amount
    × IsWord 64 d.base_side
    × OptionFits d.other_amount_min
IsCanonical (AmmInstruction.withdraw w) =
    IsWord 64 w.amount × BothFit w.min_coin_amount w.min_pc_amount
IsCanonical (AmmInstruction.set_params p) =
    (k : AmmParams) × (Params.from_u64 p.param ≡ ok k) × ParamsForm k p
IsCanonical (AmmInstruction.withdraw_srm w) = IsWord 64 w.amount
IsCanonical (AmmInstruction.swap_base_in s) = BaseInFits s
IsCanonical (AmmInstruction.swap_base_out s) = BaseOutFits s
IsCanonical (AmmInstruction.simulate_info s) =
    (k : SimulateParams) × (Simulate.from_u64 s.param ≡ ok k) × SimulateForm k s
IsCanonical (AmmInstruction.admin_cancel_orders a) = IsWord 16 a.limit
IsCanonical (AmmInstruction.update_config_account c) =
    ((key : ℕ) × (c.param < 2)
      × IsWord 256 key
      × (0 < key)
      × (c.owner ≡ some key)
      × (c.create_pool_fee ≡ none))
    ⊎ ((fee : ℕ) × (c.param ≡ 2)
        × IsWord 64 fee
        × (c.owner ≡ none)
        × (c.create_pool_fee ≡ some fee))
IsCanonical _ = Unit

-- The bytes of `i`, and that they are read back as `i`.
abbrev pub RoundTrips : AmmInstruction → Type 0
RoundTrips i = (bytes : List ℕ) × (pack i ≡ ok bytes) × (unpack bytes ≡ ok i)
