-- ===== src/Tests/Initialization.antt =====
-- A pool that is created: 4000 of coin and 1000 of pc, pool tokens without decimals.
use raydium_amm.Swap.Accounts.{Call}
use raydium_amm.Initialization.Laws.{IsInitialized, process_initialize2-IsInitialized}
use raydium_amm.Uint.Reference.{reference}
use raydium_amm.Initialization.Process.{
  InitAccounts, InitResult, process_initialize2, deposit_init_calls,
}
use raydium_amm.Instruction.Types.{InitializeInstruction2}
use raydium_amm.State.Orders.{TargetOrders}
use raydium_amm.Initialization.Create.{InitRuntime, NewPart, VaultAccount, NewAccount, InitCall}
use raydium_amm.Prelude.{
  ◌>>=◌, Outcome, ℕ, ok, true, [], if◌then◌else◌, false, some, ◌==◌, List, refl, ◌∷◌, ◌^◌, ◌-◌,
  ◌++◌,
}
use raydium_amm.Tests.State.{pool, pool_data}
use raydium_amm.Tests.Pnl.{target}

abbrev pub to_create : ℕ → NewAccount
to_create key = record { key = key; owner = 22; lamports = 0 }

abbrev filled : (mint amount : ℕ) → VaultAccount
filled mint amount = record {
  mint = mint;
  owner = 21;
  amount = amount;
  has_delegate = false;
  has_close_authority = false;
}

abbrev new_vault : ℕ → Outcome VaultAccount
new_vault key = if key == 1 then ok (filled 3 4000) else ok (filled 4 1000)

abbrev new_address : NewPart → ℕ
new_address NewPart.new_target_orders = 9
new_address NewPart.new_lp_mint = 5
new_address NewPart.new_coin_vault = 1
new_address NewPart.new_pc_vault = 2
new_address NewPart.new_amm = 50
new_address NewPart.new_open_orders = 6

abbrev blank_plan : TargetOrders
blank_plan = record target { owner = 0 }

abbrev pub init_runtime : InitRuntime
init_runtime = record {
  program_id = 19;
  spl_token_id = 20;
  ata_program_id = 24;
  openbook_id = 8;
  system_program_id = 22;
  create_pool_fee_address = 23;
  amm_owner_id = 10;
  config_address = 27;
  authority = (21, 254);
  associated_address = new_address;
  size_of = λ part. 100;
  minimum_balance = λ size. ok size;
  mint_decimals = λ mint. ok 0;
  unpack_vault = new_vault;
  unpack_lp_mint =
      ok (record {
        supply = 0;
        decimals = 0;
        mint_authority = some 21;
        has_freeze_authority = false;
      });
  load_market = ok (record { coin_mint = 3; pc_mint = 4; coin_lot_size = 1; pc_lot_size = 1 });
  load_amm_data = ok (record pool { status = 0 });
  load_target_data = ok blank_plan;
  unix_timestamp = ok 500;
  epoch = ok 7;
}

abbrev init_accounts : InitAccounts
init_accounts = record {
  token_program = 20;
  ata_token_program = 24;
  system_program = 22;
  amm_authority = 21;
  coin_mint = 3;
  pc_mint = 4;
  amm = to_create 50;
  open_orders = to_create 6;
  lp_mint = to_create 5;
  coin_vault = to_create 1;
  pc_vault = to_create 2;
  target_orders = to_create 9;
  target_owner = 19;
  amm_config_key = 27;
  amm_config = record {
    owner_is_program = true;
    len_is_size = true;
    contents = ok (record {
      pnl_owner = 30;
      cancel_owner = 31;
      pending_1 = [];
      pending_2 = [];
      create_pool_fee = 3;
    });
  };
  create_fee_destination = 23;
  market_program = 8;
  market = 7;
  user_wallet_is_signer = true;
}

abbrev first_deposit : InitializeInstruction2
first_deposit = record {
  nonce = 254;
  open_time = 400;
  init_pc_amount = 1000;
  init_coin_amount = 4000;
}

abbrev created_calls : List InitCall
created_calls =
    InitCall.transfer_lamports NewPart.new_target_orders 100
    ∷ InitCall.allocate_part NewPart.new_target_orders 100
    ∷ InitCall.assign_part NewPart.new_target_orders 19
    ∷ InitCall.transfer_lamports NewPart.new_lp_mint 100
    ∷ InitCall.allocate_part NewPart.new_lp_mint 100
    ∷ InitCall.assign_part NewPart.new_lp_mint 20
    ∷ InitCall.initialize_mint 0
    ∷ InitCall.transfer_lamports NewPart.new_coin_vault 100
    ∷ InitCall.allocate_part NewPart.new_coin_vault 100
    ∷ InitCall.assign_part NewPart.new_coin_vault 20
    ∷ InitCall.initialize_account NewPart.new_coin_vault 3
    ∷ InitCall.transfer_lamports NewPart.new_pc_vault 100
    ∷ InitCall.allocate_part NewPart.new_pc_vault 100
    ∷ InitCall.assign_part NewPart.new_pc_vault 20
    ∷ InitCall.initialize_account NewPart.new_pc_vault 4
    ∷ InitCall.transfer_lamports NewPart.new_amm 100
    ∷ InitCall.allocate_part NewPart.new_amm 100
    ∷ InitCall.assign_part NewPart.new_amm 19
    ∷ InitCall.transfer_lamports NewPart.new_open_orders 100
    ∷ InitCall.allocate_part NewPart.new_open_orders 100
    ∷ InitCall.assign_part NewPart.new_open_orders 8
    ∷ []

abbrev opened : InitResult
opened = record {
  amm = record pool {
    coin_decimals = 0;
    pc_decimals = 0;
    reset_flag = 0;
    amount_wave = 0;
    coin_lot_size = 1;
    pc_lot_size = 1;
    sys_decimal_value = 1;
    state_data = record pool_data { pool_open_time = 400 };
    padding1 = 0 ∷ 0 ∷ 0 ∷ 0 ∷ 0 ∷ 0 ∷ 0 ∷ 0 ∷ [];
    lp_amount = 2000;
    client_order_id = 0;
    recent_epoch = 7;
  };
  target_orders = record {
    owner = 50;
    buy_orders = [];
    padding1 = [];
    target_x = 0;
    target_y = 0;
    plan_x_buy = 0;
    plan_y_buy = 0;
    plan_x_sell = 0;
    plan_y_sell = 0;
    placed_x = 0;
    placed_y = 0;
    calc_pnl_x = 1000;
    calc_pnl_y = 4000;
    sell_orders = [];
    padding2 = [];
    replace_buy_client_id = [];
    replace_sell_client_id = [];
    last_order_numerator = 0;
    last_order_denominator = 0;
    plan_orders_cur = 0;
    place_orders_cur = 0;
    valid_buy_order_num = 0;
    valid_sell_order_num = 0;
    padding3 = [];
    free_slot_bits = 2 ^ 128 - 1;
  };
  calls =
      InitCall.pay_fee 3 ∷ InitCall.sync_native ∷ created_calls
      ++ deposit_init_calls first_deposit
      ++ (InitCall.token_call (Call.mint_lp 1999) ∷ []);
}

process_initialize2-IsInitialized_example :
    IsInitialized init_runtime init_accounts first_deposit opened
unfolding process_initialize2 ◌>>=◌ raydium_amm.Initialization.Process.check_init_keys
    raydium_amm.State.Loading.load_config raydium_amm.Initialization.Process.create_accounts
    raydium_amm.Initialization.Create.generate_amm_associated_account
    raydium_amm.Initialization.Create.generate_part
    raydium_amm.Initialization.Create.generate_amm_associated_spl_mint
    raydium_amm.Initialization.Create.generate_amm_associated_spl_token
    raydium_amm.Initialization.Process.open_pool raydium_amm.State.Status.into_u64
    raydium_amm.Initialization.Process.check_vault
    raydium_amm.Initialization.Process.check_new_market
    raydium_amm.Initialization.Process.check_lp_mint raydium_amm.Initialization.Process.is_authority
    raydium_amm.Initialization.Process.initial_liquidity raydium_amm.Uint.Reference.isqrt
    raydium_amm.Initialization.Create.fund_part
    raydium_amm.Initialization.Process.deposit_init_calls
    raydium_amm.Initialization.Process.fee_calls raydium_amm.Initialization.Process.opened_pool
    raydium_amm.Initialization.Process.start_plan raydium_amm.Math.Decimal.convert_in_pc_lot_size
    raydium_amm.Math.Decimal.normalize_decimal_v2 raydium_amm.Math.Decimal.to_u64
    raydium_amm.Math.Decimal.unwrap_u64 raydium_amm.State.Amm.initial_min_size
    raydium_amm.State.Amm.initial_pool raydium_amm.State.Amm.initial_sys_decimal_value
    raydium_amm.State.Amm.initialize raydium_amm.State.Amm.initialize_data
    raydium_amm.State.Fees.initialize raydium_amm.State.MachineState.into_u64
    raydium_amm.State.Orders.check_init raydium_amm.State.ResetFlag.into_u64
process_initialize2-IsInitialized_example =
    process_initialize2-IsInitialized ⦃uint = reference⦄ init_runtime init_accounts first_deposit
      {result = opened} refl
