-- ===== src/Settings/Laws.antt =====
-- The settings stay within their bounds.
use raydium_amm.State.Constants.{max_order_limit, ten_thousand}
use raydium_amm.Prelude.{
  not, ◌==◌, ◌||◌, ◌&&◌, ltb, leb, ℕ, ◌≡◌, ◌≤◌, Bool, true, false, refl, Option, some, none, ok,
  arith, Ensures, of_ok, bind-Ensures, ensures_value, of_err, if_Ensures,
}
use raydium_amm.State.Amm.{AmmInfo}
use raydium_amm.State.Amm.Laws.{IsConfigured}
use raydium_amm.State.Status.{valid_status}
use raydium_amm.State.MachineState.{valid_state}
use raydium_amm.State.Params.{AmmParams}
use raydium_amm.State.MachineState
use raydium_amm.State.ResetFlag
use raydium_amm.State.Orders.{TargetOrders}
use raydium_amm.Instruction.Types.{SetParamsInstruction}
use raydium_amm.Settings.{
  SettingsAnswers, change_status, change_param, finish_change, set_params, valid_if, valid_state,
  valid_status,
}

abbrev AllConfigured : Option AmmInfo → Type 0
AllConfigured none = Unit
AllConfigured (some amm) = IsConfigured amm

valid-AllConfigured :
    (test : Bool) (amm : AmmInfo)
    → (test ≡ true → IsConfigured amm)
    → Ensures AllConfigured (valid_if test amm)
valid-AllConfigured true amm h = of_ok (h refl)
valid-AllConfigured false amm h = of_ok tt

status_bound : (n : ℕ) → valid_status n ≡ true → n ≤ 7
unfolding valid_status
status_bound n h = ground arith

state_bound : (n : ℕ) → valid_state n ≡ true → n ≤ 6
unfolding valid_state
state_bound n h = ground arith

status-AllConfigured :
    (answers : SettingsAnswers) (p : SetParamsInstruction) (amm : AmmInfo)
    → IsConfigured amm
    → Ensures AllConfigured (change_status answers p amm)
unfolding change_status
status-AllConfigured answers p amm h = bind-Ensures _ _ (λ book _. bind-Ensures _ _ (λ shared _.
    if_Ensures (not (shared.0 == 0) || not (shared.1 == 0)) _ _ (λ _. of_err)
      (λ _. bind-Ensures _ _ (λ value _.
        valid-AllConfigured (valid_status value) (record amm { status = value })
          (λ valid. let bound = status_bound value valid in omega arith)))))

change_param-AllConfigured :
    (answers : SettingsAnswers) (p : SetParamsInstruction) (kind : AmmParams) (amm : AmmInfo)
    → IsConfigured amm
    → Ensures AllConfigured (change_param answers p kind amm)
unfolding change_param
change_param-AllConfigured answers p AmmParams.status amm h = status-AllConfigured answers p amm h
change_param-AllConfigured answers p AmmParams.state amm h = bind-Ensures _ _ (λ value _.
    valid-AllConfigured (valid_state value) (record amm { state = value })
      (λ valid. let bound = state_bound value valid in omega arith))
change_param-AllConfigured answers p AmmParams.order_num amm h = bind-Ensures _ _ (λ value _.
    if_Ensures (ltb max_order_limit value) _ _ (λ _. of_err)
      (λ test. valid-AllConfigured true (record amm { order_num = value }) (λ _. ground arith)))
change_param-AllConfigured answers p AmmParams.depth amm h = bind-Ensures _ _ (λ value _.
    valid-AllConfigured (ltb 0 value && ltb value 100) (record amm { depth = value })
      (λ test. ground arith))
change_param-AllConfigured answers p AmmParams.min_price_multiplier amm h =
    bind-Ensures _ _ (λ value _.
      valid-AllConfigured (ltb value amm.max_price_multiplier)
        (record amm { min_price_multiplier = value }) (λ test. ground arith))
change_param-AllConfigured answers p AmmParams.max_price_multiplier amm h =
    bind-Ensures _ _ (λ value _.
      valid-AllConfigured (ltb amm.max_price_multiplier value)
        (record amm { max_price_multiplier = value }) (λ test. ground arith))
change_param-AllConfigured answers p AmmParams.vol_max_cut_ratio amm h =
    bind-Ensures _ _ (λ value _.
      valid-AllConfigured (leb value ten_thousand) (record amm { vol_max_cut_ratio = value })
        (λ test. ground arith))
change_param-AllConfigured answers p AmmParams.seperate amm h = bind-Ensures _ _ (λ value _.
    valid-AllConfigured (leb value ten_thousand)
      (record amm { fees = record (amm.fees) { min_separate_numerator = value } })
      (λ test. omega arith))
change_param-AllConfigured answers p AmmParams.fees amm h = bind-Ensures _ _ (λ fees _.
    bind-Ensures _ _
      (λ _ _. valid-AllConfigured true (record amm { fees = fees }) (λ _. omega arith)))
change_param-AllConfigured answers p AmmParams.update_open_order amm h = bind-Ensures _ _ (λ key _.
    bind-Ensures _ _
      (λ _ _. valid-AllConfigured true (record amm { open_orders = key }) (λ _. omega arith)))
change_param-AllConfigured answers p AmmParams.last_order_distance amm h = of_ok h
change_param-AllConfigured answers p AmmParams.init_order_depth amm h =
    valid-AllConfigured true (record amm { order_num = 7; depth = 3 }) (λ _. omega arith)
change_param-AllConfigured answers p AmmParams.clear_open_time amm h =
    valid-AllConfigured true
      (record amm {
        state_data = record (amm.state_data) { pool_open_time = 0; orderbook_to_init_time = 0 };
      })
      (λ _. omega arith)
change_param-AllConfigured answers p AmmParams.min_size amm h = of_err
change_param-AllConfigured answers p AmmParams.amount_wave amm h = bind-Ensures _ _ (λ value _.
    valid-AllConfigured (true) (record amm { amount_wave = value }) (λ test. omega arith))
change_param-AllConfigured answers p AmmParams.amm_owner amm h =
    bind-Ensures _ _ (λ value _.
      valid-AllConfigured (true) (record amm { amm_owner = value }) (λ test. omega arith))
change_param-AllConfigured answers p AmmParams.set_open_time amm h = bind-Ensures _ _ (λ value _.
    valid-AllConfigured (true)
      (record amm { state_data = record (amm.state_data) { pool_open_time = value } })
      (λ test. omega arith))
change_param-AllConfigured answers p AmmParams.set_switch_time amm h = bind-Ensures _ _ (λ value _.
    valid-AllConfigured (true)
      (record amm { state_data = record (amm.state_data) { orderbook_to_init_time = value } })
      (λ test. omega arith))

-- The settings are within their bounds, and all orders are cancelled first.
abbrev pub IsChanged : AmmInfo × Option TargetOrders → Type 0
IsChanged (amm, target) = IsConfigured amm × (amm.state ≡ 2) × (amm.reset_flag ≡ 0)

finish_change-IsChanged :
    (answers : SettingsAnswers) (changed : Option AmmInfo)
    → AllConfigured changed
    → Ensures
        (λ (amm : AmmInfo). IsConfigured amm × (amm.state ≡ 2) × (amm.reset_flag ≡ 0))
        (finish_change answers changed)
unfolding finish_change MachineState.into_u64 ResetFlag.into_u64
finish_change-IsChanged answers none h = of_err
finish_change-IsChanged answers (some amm) h =
    bind-Ensures _ _ (λ epoch _. of_ok (omega arith, refl, refl))

-- Whatever parameter is changed, and to whatever value: a change that succeeds keeps the settings of
-- the pool within their bounds (`IsConfigured`), puts the pool into the state `CancelAllOrdersState`,
-- also where the parameter is the state itself, and asks for a reset of its orders.
pub set_params-IsChanged :
    (answers : SettingsAnswers) (p : SetParamsInstruction) (amm : AmmInfo)
    {r : AmmInfo × Option TargetOrders}
    → IsConfigured amm
    → set_params answers p amm ≡ ok r
    → IsChanged r
unfolding set_params
set_params-IsChanged answers p amm h = ensures_value {P = IsChanged} (set_params answers p amm) (
    bind-Ensures _ _ (λ kind _. bind-Ensures _ _ (λ changed e_changed. bind-Ensures _ _ (λ target _.
      bind-Ensures _ _ (λ amm' e_amm'.
        let kept =
          ensures_value {P = AllConfigured} _ (change_param-AllConfigured answers p kind amm h)
            e_changed in
        of_ok (
          ensures_value {P = λ (a : AmmInfo). IsConfigured a × (a.state ≡ 2) × (a.reset_flag ≡ 0)} _
            (finish_change-IsChanged answers changed kept) e_amm'))))))
