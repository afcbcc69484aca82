-- ===== src/Errors.antt =====
-- program/src/error.rs: the errors of the program, and the number under which each is reported.
pub mod Laws
use Prim.Native.Nat.{ℕ}

-- `enum AmmError`, in the order of the source.
pub data AmmError : Type 0 where
  already_in_use invalid_program_address expected_mint expected_account : AmmError
  invalid_coin_vault invalid_pc_vault invalid_token_lp invalid_dest_token_coin : AmmError
  invalid_dest_token_pc invalid_pool_mint invalid_open_orders invalid_market : AmmError
  invalid_market_program invalid_target_orders account_need_writeable account_need_read_only :
      AmmError
  invalid_coin_mint invalid_pc_mint invalid_owner invalid_supply : AmmError
  invalid_delegate invalid_sign_account invalid_status invalid_instruction : AmmError
  wrong_accounts_number invalid_target_account_owner invalid_target_owner
        invalid_amm_account_owner :
      AmmError
  invalid_params_set invalid_input exceeded_slippage calculation_ex_rate_failure : AmmError
  checked_sub_overflow checked_add_overflow checked_mul_overflow checked_div_overflow : AmmError
  checked_empty_funds calc_pnl_error invalid_spl_token_program take_pnl_error : AmmError
  insufficient_funds conversion_failure invalid_user_token invalid_srm_mint : AmmError
  invalid_srm_token too_many_open_orders order_at_slot_is_placed invalid_sys_program_address :
      AmmError
  invalid_fee repeat_create_amm not_allow_zero_lp invalid_close_authority : AmmError
  invalid_freeze_authority invalid_refer_pc_mint invalid_config_account
        repeat_create_config_account :
      AmmError
  market_lot_size_is_too_large init_lp_amount_too_less unknown_amm_error : AmmError

-- `e as u32` in `impl From<AmmError> for ProgramError`.
unfoldable pub error_code : AmmError → ℕ
error_code AmmError.already_in_use = 0
error_code AmmError.invalid_program_address = 1
error_code AmmError.expected_mint = 2
error_code AmmError.expected_account = 3
error_code AmmError.invalid_coin_vault = 4
error_code AmmError.invalid_pc_vault = 5
error_code AmmError.invalid_token_lp = 6
error_code AmmError.invalid_dest_token_coin = 7
error_code AmmError.invalid_dest_token_pc = 8
error_code AmmError.invalid_pool_mint = 9
error_code AmmError.invalid_open_orders = 10
error_code AmmError.invalid_market = 11
error_code AmmError.invalid_market_program = 12
error_code AmmError.invalid_target_orders = 13
error_code AmmError.account_need_writeable = 14
error_code AmmError.account_need_read_only = 15
error_code AmmError.invalid_coin_mint = 16
error_code AmmError.invalid_pc_mint = 17
error_code AmmError.invalid_owner = 18
error_code AmmError.invalid_supply = 19
error_code AmmError.invalid_delegate = 20
error_code AmmError.invalid_sign_account = 21
error_code AmmError.invalid_status = 22
error_code AmmError.invalid_instruction = 23
error_code AmmError.wrong_accounts_number = 24
error_code AmmError.invalid_target_account_owner = 25
error_code AmmError.invalid_target_owner = 26
error_code AmmError.invalid_amm_account_owner = 27
error_code AmmError.invalid_params_set = 28
error_code AmmError.invalid_input = 29
error_code AmmError.exceeded_slippage = 30
error_code AmmError.calculation_ex_rate_failure = 31
error_code AmmError.checked_sub_overflow = 32
error_code AmmError.checked_add_overflow = 33
error_code AmmError.checked_mul_overflow = 34
error_code AmmError.checked_div_overflow = 35
error_code AmmError.checked_empty_funds = 36
error_code AmmError.calc_pnl_error = 37
error_code AmmError.invalid_spl_token_program = 38
error_code AmmError.take_pnl_error = 39
error_code AmmError.insufficient_funds = 40
error_code AmmError.conversion_failure = 41
error_code AmmError.invalid_user_token = 42
error_code AmmError.invalid_srm_mint = 43
error_code AmmError.invalid_srm_token = 44
error_code AmmError.too_many_open_orders = 45
error_code AmmError.order_at_slot_is_placed = 46
error_code AmmError.invalid_sys_program_address = 47
error_code AmmError.invalid_fee = 48
error_code AmmError.repeat_create_amm = 49
error_code AmmError.not_allow_zero_lp = 50
error_code AmmError.invalid_close_authority = 51
error_code AmmError.invalid_freeze_authority = 52
error_code AmmError.invalid_refer_pc_mint = 53
error_code AmmError.invalid_config_account = 54
error_code AmmError.repeat_create_config_account = 55
error_code AmmError.market_lot_size_is_too_large = 56
error_code AmmError.init_lp_amount_too_less = 57
error_code AmmError.unknown_amm_error = 58

-- The `ProgramError`s that the program itself raises; `custom e` is `Custom(e as u32)`.
pub data ProgramError : Type 0 where
  custom : AmmError → ProgramError
  invalid_instruction_data : ProgramError
  not_enough_account_keys : ProgramError
