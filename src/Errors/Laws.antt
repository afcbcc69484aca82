-- ===== src/Errors/Laws.antt =====
-- The codes of the errors are distinct.
use raydium_amm.Prelude.{◌<◌, ◌≡◌, refl, sym, ap, ◌∙◌, some, List, [], ◌∷◌, get_elem?, arith}
use raydium_amm.Errors.{AmmError, error_code}
use mathlib.Core.Option.{some-injective}

-- The variants in the order of the source.
variants : List AmmError
variants =
    AmmError.already_in_use ∷ AmmError.invalid_program_address ∷ AmmError.expected_mint
    ∷ AmmError.expected_account ∷ AmmError.invalid_coin_vault ∷ AmmError.invalid_pc_vault
    ∷ AmmError.invalid_token_lp ∷ AmmError.invalid_dest_token_coin ∷ AmmError.invalid_dest_token_pc
    ∷ AmmError.invalid_pool_mint ∷ AmmError.invalid_open_orders ∷ AmmError.invalid_market
    ∷ AmmError.invalid_market_program ∷ AmmError.invalid_target_orders
    ∷ AmmError.account_need_writeable ∷ AmmError.account_need_read_only ∷ AmmError.invalid_coin_mint
    ∷ AmmError.invalid_pc_mint ∷ AmmError.invalid_owner ∷ AmmError.invalid_supply
    ∷ AmmError.invalid_delegate ∷ AmmError.invalid_sign_account ∷ AmmError.invalid_status
    ∷ AmmError.invalid_instruction ∷ AmmError.wrong_accounts_number
    ∷ AmmError.invalid_target_account_owner ∷ AmmError.invalid_target_owner
    ∷ AmmError.invalid_amm_account_owner ∷ AmmError.invalid_params_set ∷ AmmError.invalid_input
    ∷ AmmError.exceeded_slippage ∷ AmmError.calculation_ex_rate_failure
    ∷ AmmError.checked_sub_overflow ∷ AmmError.checked_add_overflow ∷ AmmError.checked_mul_overflow
    ∷ AmmError.checked_div_overflow ∷ AmmError.checked_empty_funds ∷ AmmError.calc_pnl_error
    ∷ AmmError.invalid_spl_token_program ∷ AmmError.take_pnl_error ∷ AmmError.insufficient_funds
    ∷ AmmError.conversion_failure ∷ AmmError.invalid_user_token ∷ AmmError.invalid_srm_mint
    ∷ AmmError.invalid_srm_token ∷ AmmError.too_many_open_orders ∷ AmmError.order_at_slot_is_placed
    ∷ AmmError.invalid_sys_program_address ∷ AmmError.invalid_fee ∷ AmmError.repeat_create_amm
    ∷ AmmError.not_allow_zero_lp ∷ AmmError.invalid_close_authority
    ∷ AmmError.invalid_freeze_authority ∷ AmmError.invalid_refer_pc_mint
    ∷ AmmError.invalid_config_account ∷ AmmError.repeat_create_config_account
    ∷ AmmError.market_lot_size_is_too_large ∷ AmmError.init_lp_amount_too_less
    ∷ AmmError.unknown_amm_error ∷ []

get_elem?-error_code : (e : AmmError) → get_elem? variants (error_code e) ≡ some e
unfolding variants error_code
get_elem?-error_code AmmError.already_in_use = refl
get_elem?-error_code AmmError.invalid_program_address = refl
get_elem?-error_code AmmError.expected_mint = refl
get_elem?-error_code AmmError.expected_account = refl
get_elem?-error_code AmmError.invalid_coin_vault = refl
get_elem?-error_code AmmError.invalid_pc_vault = refl
get_elem?-error_code AmmError.invalid_token_lp = refl
get_elem?-error_code AmmError.invalid_dest_token_coin = refl
get_elem?-error_code AmmError.invalid_dest_token_pc = refl
get_elem?-error_code AmmError.invalid_pool_mint = refl
get_elem?-error_code AmmError.invalid_open_orders = refl
get_elem?-error_code AmmError.invalid_market = refl
get_elem?-error_code AmmError.invalid_market_program = refl
get_elem?-error_code AmmError.invalid_target_orders = refl
get_elem?-error_code AmmError.account_need_writeable = refl
get_elem?-error_code AmmError.account_need_read_only = refl
get_elem?-error_code AmmError.invalid_coin_mint = refl
get_elem?-error_code AmmError.invalid_pc_mint = refl
get_elem?-error_code AmmError.invalid_owner = refl
get_elem?-error_code AmmError.invalid_supply = refl
get_elem?-error_code AmmError.invalid_delegate = refl
get_elem?-error_code AmmError.invalid_sign_account = refl
get_elem?-error_code AmmError.invalid_status = refl
get_elem?-error_code AmmError.invalid_instruction = refl
get_elem?-error_code AmmError.wrong_accounts_number = refl
get_elem?-error_code AmmError.invalid_target_account_owner = refl
get_elem?-error_code AmmError.invalid_target_owner = refl
get_elem?-error_code AmmError.invalid_amm_account_owner = refl
get_elem?-error_code AmmError.invalid_params_set = refl
get_elem?-error_code AmmError.invalid_input = refl
get_elem?-error_code AmmError.exceeded_slippage = refl
get_elem?-error_code AmmError.calculation_ex_rate_failure = refl
get_elem?-error_code AmmError.checked_sub_overflow = refl
get_elem?-error_code AmmError.checked_add_overflow = refl
get_elem?-error_code AmmError.checked_mul_overflow = refl
get_elem?-error_code AmmError.checked_div_overflow = refl
get_elem?-error_code AmmError.checked_empty_funds = refl
get_elem?-error_code AmmError.calc_pnl_error = refl
get_elem?-error_code AmmError.invalid_spl_token_program = refl
get_elem?-error_code AmmError.take_pnl_error = refl
get_elem?-error_code AmmError.insufficient_funds = refl
get_elem?-error_code AmmError.conversion_failure = refl
get_elem?-error_code AmmError.invalid_user_token = refl
get_elem?-error_code AmmError.invalid_srm_mint = refl
get_elem?-error_code AmmError.invalid_srm_token = refl
get_elem?-error_code AmmError.too_many_open_orders = refl
get_elem?-error_code AmmError.order_at_slot_is_placed = refl
get_elem?-error_code AmmError.invalid_sys_program_address = refl
get_elem?-error_code AmmError.invalid_fee = refl
get_elem?-error_code AmmError.repeat_create_amm = refl
get_elem?-error_code AmmError.not_allow_zero_lp = refl
get_elem?-error_code AmmError.invalid_close_authority = refl
get_elem?-error_code AmmError.invalid_freeze_authority = refl
get_elem?-error_code AmmError.invalid_refer_pc_mint = refl
get_elem?-error_code AmmError.invalid_config_account = refl
get_elem?-error_code AmmError.repeat_create_config_account = refl
get_elem?-error_code AmmError.market_lot_size_is_too_large = refl
get_elem?-error_code AmmError.init_lp_amount_too_less = refl
get_elem?-error_code AmmError.unknown_amm_error = refl

error_code-lt : (e : AmmError) → error_code e < 59
unfolding error_code
error_code-lt AmmError.already_in_use = omega arith
error_code-lt _ = omega arith

-- Two errors with the same code are the same error, and every code is below 59: no error is lost
-- when it is reported as a number.
pub error_code-injective :
    (a b : AmmError) → (error_code a < 59) × (error_code a ≡ error_code b → a ≡ b)
error_code-injective a b = (
  error_code-lt a,
  λ h.
      some-injective a b
        (sym (get_elem?-error_code a) ∙ ap (get_elem? variants) h ∙ get_elem?-error_code b),
)
